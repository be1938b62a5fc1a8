-- ===== src/Matching/LedgerCheck/Explained.antt =====
-- What matching/ledger_check.py leaves to no person: a payment whose amount is explained.
use close_control.Base.{
  ◌≡◌, ◌↔◌, ◌⊎◌, ap, Option, none, some, List, [], ◌∷◌, Bool, true, false, arith, leb, refl, not,
  String, if◌then◌else◌,
}
use close_control.Base.Int.{abs}
use close_control.Matching.Exceptions.{ExceptionType, RiskClass}
use close_control.Matching.{exact_match_tolerance}
use close_control.Matching.LedgerCheck.{
  GatewayStatus, GatewayRow, LedgerRow, LoanRecovery, Verdict, is_on_hold, is_deemed_success,
  has_chargeback, recovery_explains, is_refunded, fee_explains, escalated, judge_amount, judge,
  successes, find_recovery, net_delta_of, check_matches, check_row,
}

-- The amount is as expected, or a recorded recovery or the fees account for the whole difference;
-- fees do so only for a payment with no refund on record.
abbrev pub IsExplained : LedgerRow → GatewayRow → Option LoanRecovery → Type 0
IsExplained led primary recovery =
    let delta = net_delta_of led primary in
    (leb (abs delta) exact_match_tolerance ≡ true)
    ⊎ ((recovery_explains delta recovery ≡ true)
        ⊎ ((is_refunded primary ≡ false) × (fee_explains led primary delta ≡ true)))

-- Neither held, nor presumed, nor disputed, nor with a bad signature.
pub record IsTrusted (primary : GatewayRow) : Type 0 where
  pub signed : primary.signature_valid ≡ true
  pub undisputed : primary.chargeback_id ≡ none
  pub settled : (status : String) × (primary.status ≡ GatewayStatus.other status)

pub record NeedsNobody (gateway : List GatewayRow) (loan_book : List LoanRecovery) (led : LedgerRow)
    : Type 0 where
  pub primary : GatewayRow
  pub only : successes gateway led.transaction_id ≡ primary ∷ []
  pub trusted : IsTrusted primary
  pub explained : IsExplained led primary (find_recovery loan_book led.transaction_id)

-- The guards of the amount branches, in their order.
by_guards :
    (exact recovered refunded fees : Bool) (a b c d e : Verdict)
    → a.auto_resolve_eligible ≡ true
    → b.auto_resolve_eligible ≡ true
    → c.auto_resolve_eligible ≡ false
    → d.auto_resolve_eligible ≡ true
    → e.auto_resolve_eligible ≡ false
    → ((if exact
          then a
          else if recovered
          then b
          else if refunded
          then c
          else if fees
          then d
          else e).auto_resolve_eligible
        ≡ true)
      ↔ ((exact ≡ true) ⊎ ((recovered ≡ true) ⊎ ((refunded ≡ false) × (fees ≡ true))))
by_guards exact recovered refunded fees a b c d e ha hb hc hd he = ground arith

judge_amount-IsExplained :
    (led : LedgerRow) (primary : GatewayRow) (recovery : Option LoanRecovery)
    → ((judge_amount led primary recovery (net_delta_of led primary)).auto_resolve_eligible ≡ true)
      ↔ IsExplained led primary recovery
unfolding judge_amount
judge_amount-IsExplained led primary recovery =
    by_guards _ (recovery_explains (net_delta_of led primary) recovery) (is_refunded primary)
      (fee_explains led primary (net_delta_of led primary)) _ _ _ _ _ refl refl refl refl refl

-- The guards before the amounts, in their order.
by_trust :
    (duplicate signed held presumed disputed : Bool) (a b c d e v : Verdict)
    → a.auto_resolve_eligible ≡ false
    → b.auto_resolve_eligible ≡ false
    → c.auto_resolve_eligible ≡ false
    → d.auto_resolve_eligible ≡ false
    → e.auto_resolve_eligible ≡ false
    → ((if duplicate
          then a
          else if not signed
          then b
          else if held
          then c
          else if presumed
          then d
          else if disputed
          then e
          else v).auto_resolve_eligible
        ≡ true)
      ↔ ((duplicate ≡ false)
          × ((signed ≡ true)
              × ((held ≡ false)
                  × ((presumed ≡ false)
                      × ((disputed ≡ false) × (v.auto_resolve_eligible ≡ true))))))
by_trust duplicate signed held presumed disputed a b c d e v ha hb hc hd he = ground arith

status_is_other :
    (status : GatewayStatus)
    → is_on_hold status ≡ false
    → is_deemed_success status ≡ false
    → (text : String) × (status ≡ GatewayStatus.other text)
status_is_other GatewayStatus.on_hold h d = absurd (ground arith)
status_is_other GatewayStatus.deemed_success h d = absurd (ground arith)
status_is_other (GatewayStatus.other text) h d = (text, refl)

is_undisputed : (id : Option String) → (has_chargeback id ≡ false) ↔ (id ≡ none)
is_undisputed none = (λ h. refl, λ h. refl)
is_undisputed (some id) = (λ h. absurd (ground arith), λ h. absurd (ground arith))

judge-guards :
    (led : LedgerRow) (primary : GatewayRow) (recovery : Option LoanRecovery)
    → ((judge led primary false recovery (net_delta_of led primary)).auto_resolve_eligible ≡ true)
      ↔ ((false ≡ false)
          × ((primary.signature_valid ≡ true)
              × ((is_on_hold primary.status ≡ false)
                  × ((is_deemed_success primary.status ≡ false)
                      × ((has_chargeback primary.chargeback_id ≡ false)
                          × ((judge_amount led primary recovery
                                (net_delta_of led primary)).auto_resolve_eligible
                              ≡ true))))))
unfolding judge
judge-guards led primary recovery =
    by_trust false primary.signature_valid (is_on_hold primary.status)
      (is_deemed_success primary.status) (has_chargeback primary.chargeback_id)
      (escalated ExceptionType.duplicate_payment_detected RiskClass.high) _ _ _ _
      (judge_amount led primary recovery (net_delta_of led primary)) refl refl refl refl refl

judge-IsTrusted :
    (led : LedgerRow) (primary : GatewayRow) (recovery : Option LoanRecovery)
    → ((judge led primary false recovery (net_delta_of led primary)).auto_resolve_eligible ≡ true)
      ↔ (IsTrusted primary × IsExplained led primary recovery)
judge-IsTrusted led primary recovery =
    let guards = judge-guards led primary recovery in
    let amounts = judge_amount-IsExplained led primary recovery in
    (
      λ h.
          let (_, (signed, (held, (presumed, (disputed, fine))))) = guards.0 h in
          (
            record {
              signed = signed;
              undisputed = (is_undisputed primary.chargeback_id).0 disputed;
              settled = status_is_other primary.status held presumed;
            },
            amounts.0 fine,
          ),
      λ (t, x). guards.1 (
        refl,
        (
          t.signed,
          (
            simp t.settled.1 refl,
            (
              simp t.settled.1 refl,
              ((is_undisputed primary.chargeback_id).1 t.undisputed, amounts.1 x),
            ),
          ),
        ),
      ),
    )

check_matches-one :
    (led : LedgerRow) (recovery : Option LoanRecovery) (rows : List GatewayRow)
    → (check_matches led recovery rows).verdict.auto_resolve_eligible ≡ true
    → (primary : GatewayRow) × ((rows ≡ primary ∷ [])
        × (IsTrusted primary × IsExplained led primary recovery))
unfolding check_matches judge
check_matches-one led recovery [] h = absurd (ground arith)
check_matches-one led recovery (primary ∷ []) h =
    (primary, (refl, (judge-IsTrusted led primary recovery).0 h))
check_matches-one led recovery (primary ∷ second ∷ more) h = absurd (ground arith)

-- The check leaves a payment to no person exactly when the gateway reports one success of it, which
-- is signed, neither held nor presumed nor disputed, and whose amount is explained.
pub check_row-NeedsNobody :
    (gateway : List GatewayRow) (loan_book : List LoanRecovery) (led : LedgerRow)
    → ((check_row gateway loan_book led).verdict.auto_resolve_eligible ≡ true)
      ↔ NeedsNobody gateway loan_book led
unfolding check_row check_matches judge
check_row-NeedsNobody gateway loan_book led = (
  λ h.
      let (primary, (only, (trusted, explained))) =
        check_matches-one led (find_recovery loan_book led.transaction_id)
          (successes gateway led.transaction_id) h in
      record { primary = primary; only = only; trusted = trusted; explained = explained },
  λ n. rw n.only (
      (judge-IsTrusted led n.primary (find_recovery loan_book led.transaction_id)).1
        (n.trusted, n.explained)),
)

pub check_row-observed :
    (gateway : List GatewayRow) (loan_book : List LoanRecovery) (led : LedgerRow)
    (h : NeedsNobody gateway loan_book led)
    → (check_row gateway loan_book led).observed_net ≡ some h.primary.settlement_amount
unfolding check_row check_matches
check_row-observed gateway loan_book led h =
    ap
      (λ found. (check_matches led (find_recovery loan_book led.transaction_id) found).observed_net)
      h.only
