-- ===== src/Matching/LedgerCheck/Recovered.antt =====
-- When matching/ledger_check.py calls the delta of a payment a loan recovery.
use close_control.Base.{
  ◌≡◌, ◌↔◌, refl, Option, some, List, [], ◌∷◌, Bool, true, false, leb, if◌then◌else◌,
}
use close_control.Base.Int.{ℤ, abs}
use close_control.Matching.{exact_match_tolerance}
use close_control.Matching.Exceptions.{ExceptionType}
use close_control.Matching.LedgerCheck.{
  GatewayRow, LedgerRow, LoanRecovery, Verdict, recovery_explains, is_refunded, fee_explains,
  judge_amount, judge, successes, find_recovery, net_delta_of, check_matches, check_row,
}
use close_control.Matching.LedgerCheck.Explained.{IsTrusted}

-- The guards of the amounts, in their order.
by_guards :
    (recovered refunded fees : Bool) (a b c d : Verdict)
    → a.exception_type ≡ some ExceptionType.loan_recovery_deduction
    → b.exception_type ≡ some ExceptionType.partial_refund
    → c.exception_type ≡ some ExceptionType.fee_variance
    → d.exception_type ≡ some ExceptionType.unexplained_shortage
    → ((if recovered then a else if refunded then b else if fees then c else d).exception_type
        ≡ some ExceptionType.loan_recovery_deduction)
      ↔ (recovered ≡ true)
by_guards true refunded fees a b c d ha hb hc hd = (λ h. refl, λ h. ha)
by_guards false true fees a b c d ha hb hc hd = (λ h. cc, λ h. cc)
by_guards false false true a b c d ha hb hc hd = (λ h. cc, λ h. cc)
by_guards false false false a b c d ha hb hc hd = (λ h. cc, λ h. cc)

judge_amount-recovered :
    (led : LedgerRow) (primary : GatewayRow) (recovery : Option LoanRecovery) (delta : ℤ)
    → leb (abs delta) exact_match_tolerance ≡ false
    → ((judge_amount led primary recovery delta).exception_type
        ≡ some ExceptionType.loan_recovery_deduction)
      ↔ (recovery_explains delta recovery ≡ true)
unfolding judge_amount
judge_amount-recovered led primary recovery delta h = rw h (
    by_guards (recovery_explains delta recovery) (is_refunded primary)
      (fee_explains led primary delta) _ _ _ _ refl refl refl refl)

judge-trusted :
    (led : LedgerRow) (primary : GatewayRow) (recovery : Option LoanRecovery) (delta : ℤ)
    → IsTrusted primary
    → judge led primary false recovery delta ≡ judge_amount led primary recovery delta
unfolding judge
judge-trusted led primary recovery delta t =
    let (text, settled) = t.settled in simp (t.signed, t.undisputed, settled) refl

check_matches-single :
    (led : LedgerRow) (recovery : Option LoanRecovery) (primary : GatewayRow)
    (rows : List GatewayRow)
    → rows ≡ primary ∷ []
    → IsTrusted primary
    → ((check_matches led recovery rows).net_delta ≡ some (net_delta_of led primary))
      × ((check_matches led recovery rows).verdict
          ≡ judge_amount led primary recovery (net_delta_of led primary))
unfolding check_matches
check_matches-single led recovery primary rows e t =
    rw e (refl, judge-trusted led primary recovery (net_delta_of led primary) t)

-- A payment with one trusted success whose amount is not as expected.
pub record IsShort (gateway : List GatewayRow) (led : LedgerRow) : Type 0 where
  pub primary : GatewayRow
  pub only : successes gateway led.transaction_id ≡ primary ∷ []
  pub trusted : IsTrusted primary
  pub off : leb (abs (net_delta_of led primary)) exact_match_tolerance ≡ false

pub check_row-net_delta :
    (gateway : List GatewayRow) (loan_book : List LoanRecovery) (led : LedgerRow)
    (s : IsShort gateway led)
    → (check_row gateway loan_book led).net_delta ≡ some (net_delta_of led s.primary)
unfolding check_row
check_row-net_delta gateway loan_book led s =
    (check_matches-single led (find_recovery loan_book led.transaction_id) s.primary
      (successes gateway led.transaction_id) s.only s.trusted).0

pub check_row-recovered :
    (gateway : List GatewayRow) (loan_book : List LoanRecovery) (led : LedgerRow)
    (s : IsShort gateway led)
    → ((check_row gateway loan_book led).verdict.exception_type
        ≡ some ExceptionType.loan_recovery_deduction)
      ↔ (recovery_explains (net_delta_of led s.primary) (find_recovery loan_book led.transaction_id)
          ≡ true)
unfolding check_row
check_row-recovered gateway loan_book led s =
    let recovery = find_recovery loan_book led.transaction_id in
    let verdict =
      (check_matches-single led recovery s.primary (successes gateway led.transaction_id) s.only
        s.trusted).1 in
    rw verdict (judge_amount-recovered led s.primary recovery (net_delta_of led s.primary) s.off)
