-- ===== src/CashPosition/Confirmed.antt =====
-- What cash_position/engine.py counts as confirmed, for a report of matching/.
use close_control.Base.{
  ◌≡◌, ◌↔◌, refl, sym, ap, ◌∙◌, ℕ, Option, none, some, List, Bool, true, false, ◌&&◌, ◌||◌, not,
  leb, arith,
}
use close_control.Matching.Engine.{MatchResult}
use close_control.Matching.Exceptions.{ExceptionType}
use close_control.Matching.LedgerCheck.{
  GatewayRow, LedgerRow, LoanRecovery, LedgerCheck, check_row, successes,
}
use close_control.Matching.LedgerCheck.Consistent.{all_harmless, check_row-transaction_id}
use close_control.Matching.LedgerCheck.Explained.{NeedsNobody, check_row-observed}
use close_control.Matching.Report.{
  PaymentRow, build_row, final_auto_resolve, is_none, first_success,
}
use close_control.Matching.Report.Escalation.{build_row-NeedsNobody}
use close_control.CashPosition.{
  CashBucket, bucket_of, classify, is_captured, is_confirmed, is_confirmed_bucket, captured_date_of,
  settle_date_of, amount_of,
}

-- `settle_date <= as_of`, false for NaT.
abbrev pub is_due : Option ℕ → ℕ → Bool
is_due none as_of = false
is_due (some d) as_of = leb d as_of

bucket_of-confirmed :
    (captured safe : Bool) (settles : Option ℕ) (as_of : ℕ)
    → is_confirmed_bucket (bucket_of captured settles as_of safe)
      ≡ captured && (is_due settles as_of && safe)
unfolding bucket_of
bucket_of-confirmed true safe none as_of = refl
bucket_of-confirmed false safe none as_of = refl
bucket_of-confirmed false safe (some d) as_of = refl
bucket_of-confirmed true safe (some d) as_of = ground arith

-- A clean row is one that nobody has to see, as are those with a harmless exception.
final_auto_resolve-none :
    (exception : Option ExceptionType) (checked : Bool) (final : Option ExceptionType)
    → (is_none final || (not (is_none final) && final_auto_resolve exception checked final))
      ≡ final_auto_resolve exception checked final
unfolding final_auto_resolve
final_auto_resolve-none exception checked none = refl
final_auto_resolve-none exception checked (some e) = refl

is_confirmed-build_row :
    (results : List MatchResult) (gateway : List GatewayRow) (ledger : List LedgerRow)
    (lc : LedgerCheck)
    → is_confirmed (build_row results gateway ledger lc)
      ≡ (build_row results gateway ledger lc).auto_resolve_eligible
unfolding build_row
is_confirmed-build_row results gateway ledger lc =
    final_auto_resolve-none lc.verdict.exception_type lc.verdict.auto_resolve_eligible _

three_true : (a b c : Bool) → (a && (b && c)) ≡ true → (a ≡ true) × ((b ≡ true) × (c ≡ true))
three_true a b c h = ground arith

all_true : (a b c : Bool) → a ≡ true → b ≡ true → c ≡ true → (a && (b && c)) ≡ true
all_true a b c ha hb hc = ground arith

amount_of-confirmed :
    (bucket : CashBucket) (row : PaymentRow)
    → is_confirmed_bucket bucket ≡ true
    → amount_of bucket row ≡ row.observed_net
amount_of-confirmed CashBucket.confirmed row h = refl
amount_of-confirmed CashBucket.in_transit row h = absurd (ground (arith, h))
amount_of-confirmed CashBucket.at_risk row h = absurd (ground (arith, h))
amount_of-confirmed CashBucket.not_yet_captured row h = absurd (ground (arith, h))

module _ (results : List MatchResult) (gateway : List GatewayRow) (ledger : List LedgerRow)
    (loan_book : List LoanRecovery) (led : LedgerRow) (as_of : ℕ) where
  abbrev row : PaymentRow
  row = build_row results gateway ledger (check_row gateway loan_book led)

  abbrev primary : Option GatewayRow
  primary = first_success (successes gateway row.transaction_id)

  abbrev is_captured_now : Option GatewayRow → Bool
  is_captured_now p = is_captured (captured_date_of p) as_of

  abbrev is_due_now : Option GatewayRow → Bool
  is_due_now p = is_due (settle_date_of p) as_of

  -- The money is at the bank: nobody has to see the payment, and by the date it is captured and due.
  -- What counts is the amount that its only success settles.
  pub record IsBanked : Type 0 where
    pub nobody : NeedsNobody gateway loan_book led
    pub harmless : all_harmless row.all_signals ≡ true
    pub captured : is_captured nobody.primary.captured_on as_of ≡ true
    pub due : is_due nobody.primary.settled_on as_of ≡ true
    pub amount : (classify gateway as_of row).cash_amount ≡ some nobody.primary.settlement_amount

  row-transaction_id : row.transaction_id ≡ led.transaction_id
  unfolding build_row
  row-transaction_id = check_row-transaction_id gateway loan_book led

  row-observed :
      (n : NeedsNobody gateway loan_book led) → row.observed_net ≡ some n.primary.settlement_amount
  unfolding build_row
  row-observed n = check_row-observed gateway loan_book led n

  the_primary : (n : NeedsNobody gateway loan_book led) → primary ≡ some n.primary
  the_primary n =
      ap (λ id. first_success (successes gateway id)) row-transaction_id ∙ ap first_success n.only

  row_bucket :
      is_confirmed_bucket (classify gateway as_of row).cash_bucket
      ≡ is_captured_now primary && (is_due_now primary && is_confirmed row)
  unfolding classify
  row_bucket =
      bucket_of-confirmed (is_captured_now primary) (is_confirmed row) (settle_date_of primary)
        as_of

  row_amount :
      is_confirmed_bucket (classify gateway as_of row).cash_bucket ≡ true
      → (classify gateway as_of row).cash_amount ≡ row.observed_net
  unfolding classify
  row_amount h = amount_of-confirmed _ row h

  -- The cash position counts a payment of the report as confirmed exactly when it is banked.
  pub classify-IsBanked :
      (is_confirmed_bucket (classify gateway as_of row).cash_bucket ≡ true) ↔ IsBanked
  classify-IsBanked =
      let safe = is_confirmed-build_row results gateway ledger (check_row gateway loan_book led) in
      let nobody = build_row-NeedsNobody results gateway ledger loan_book led in
      (
        λ h.
            let all = sym row_bucket ∙ h in
            let (now, (due, fine)) =
              three_true (is_captured_now primary) (is_due_now primary) (is_confirmed row) all in
            let (n, harmless) = nobody.0 (sym safe ∙ fine) in
            record {
              nobody = n;
              harmless = harmless;
              captured = ap is_captured_now (sym (the_primary n)) ∙ now;
              due = ap is_due_now (sym (the_primary n)) ∙ due;
              amount = row_amount h ∙ row-observed n;
            },
        λ b.
            let n = b.nobody in
            row_bucket
            ∙ ap (λ p. is_captured_now p && (is_due_now p && is_confirmed row)) (the_primary n)
            ∙ all_true (is_captured_now (some n.primary)) (is_due_now (some n.primary))
                (is_confirmed row) b.captured b.due (safe ∙ nobody.1 (n, b.harmless)),
      )
