-- ===== src/Matching/LedgerCheck/Consistent.antt =====
-- The verdicts of matching/ledger_check.py: which exceptions it gives, and which of them leave the
-- payment to no person.
use close_control.Base.{
  sym, ap, ◌∙◌, ◌≡◌, refl, Option, none, some, List, [], ◌∷◌, Bool, true, false, ◌&&◌, leb, ltb,
  length, not, if◌then◌else◌,
}
use close_control.Base.Int.{ℤ, ◌-ℤ◌, abs}
use close_control.Matching.{exact_match_tolerance}
use close_control.Matching.Exceptions.{ExceptionType}
use close_control.Matching.LedgerCheck.{
  GatewayRow, LedgerRow, LoanRecovery, Verdict, is_on_hold, is_deemed_success, has_chargeback,
  recovery_explains, is_refunded, fee_explains, net_delta_of, judge_amount, judge, check_matches,
  check_row, find_recovery, successes,
}

-- The exceptions that are no more than a difference in time, fees or an agreed deduction.
abbrev pub is_harmless : ExceptionType → Bool
is_harmless ExceptionType.loan_recovery_deduction = true
is_harmless ExceptionType.fee_variance = true
is_harmless ExceptionType.timing_lag_beyond_t2 = true
is_harmless _ = false

abbrev pub all_harmless : List ExceptionType → Bool
all_harmless [] = true
all_harmless (e ∷ signals) = is_harmless e && all_harmless signals

-- The exceptions that the check of the ledger gives.
abbrev pub is_of_check : Option ExceptionType → Bool
is_of_check none = true
is_of_check (some ExceptionType.settlement_bank_posting_not_found) = false
is_of_check (some ExceptionType.missing_bank_reference) = false
is_of_check (some ExceptionType.bank_overage) = false
is_of_check (some ExceptionType.ambiguous_bank_match) = false
is_of_check (some ExceptionType.timing_lag_beyond_t2) = false
is_of_check (some _) = true

abbrev pub is_harmless_type : Option ExceptionType → Bool
is_harmless_type none = true
is_harmless_type (some e) = is_harmless e

-- A verdict whose type is one of the check's, and whose eligibility goes by the type.
pub record IsConsistent (v : Verdict) : Type 0 where
  pub listed : is_of_check v.exception_type ≡ true
  pub follows : v.auto_resolve_eligible ≡ is_harmless_type v.exception_type

either_IsConsistent :
    (b : Bool) (v w : Verdict) → IsConsistent v → IsConsistent w → IsConsistent (if b then v else w)
either_IsConsistent true v w hv hw = hv
either_IsConsistent false v w hv hw = hw

judge_amount-IsConsistent :
    (led : LedgerRow) (primary : GatewayRow) (recovery : Option LoanRecovery) (delta : ℤ)
    → IsConsistent (judge_amount led primary recovery delta)
unfolding judge_amount
judge_amount-IsConsistent led primary recovery delta =
    either_IsConsistent (leb (abs delta) exact_match_tolerance) _ _
      (record { listed = refl; follows = refl })
      (either_IsConsistent (recovery_explains delta recovery) _ _
        (record { listed = refl; follows = refl })
        (either_IsConsistent (is_refunded primary) _ _ (record { listed = refl; follows = refl })
          (either_IsConsistent (fee_explains led primary delta) _ _
            (record { listed = refl; follows = refl }) (record { listed = refl; follows = refl }))))

judge-IsConsistent :
    (led : LedgerRow) (primary : GatewayRow) (d : Bool) (recovery : Option LoanRecovery) (delta : ℤ)
    → IsConsistent (judge led primary d recovery delta)
unfolding judge
judge-IsConsistent led primary d recovery delta =
    either_IsConsistent d _ _ (record { listed = refl; follows = refl })
      (either_IsConsistent (not primary.signature_valid) _ _
        (record { listed = refl; follows = refl })
        (either_IsConsistent (is_on_hold primary.status) _ _
          (record { listed = refl; follows = refl })
          (either_IsConsistent (is_deemed_success primary.status) _ _
            (record { listed = refl; follows = refl })
            (either_IsConsistent (has_chargeback primary.chargeback_id) _ _
              (record { listed = refl; follows = refl })
              (judge_amount-IsConsistent led primary recovery delta)))))

check_matches-IsConsistent :
    (led : LedgerRow) (recovery : Option LoanRecovery) (rows : List GatewayRow)
    → IsConsistent (check_matches led recovery rows).verdict
unfolding check_matches
check_matches-IsConsistent led recovery [] = (record { listed = refl; follows = refl })
check_matches-IsConsistent led recovery (primary ∷ more) =
    judge-IsConsistent led primary (ltb 1 (length (primary ∷ more))) recovery
      (net_delta_of led primary)

pub check_row-IsConsistent :
    (gateway : List GatewayRow) (loan_book : List LoanRecovery) (led : LedgerRow)
    → IsConsistent (check_row gateway loan_book led).verdict
unfolding check_row
check_row-IsConsistent gateway loan_book led =
    check_matches-IsConsistent led (find_recovery loan_book led.transaction_id)
      (successes gateway led.transaction_id)

-- `observed - expected`, where a sum was observed.
abbrev pub difference : Option ℤ → ℤ → Option ℤ
difference none expected = none
difference (some observed) expected = some (observed -ℤ expected)

check_matches-difference :
    (led : LedgerRow) (recovery : Option LoanRecovery) (rows : List GatewayRow)
    → (check_matches led recovery rows).net_delta
      ≡ difference (check_matches led recovery rows).observed_net led.expected_net
unfolding check_matches
check_matches-difference led recovery [] = refl
check_matches-difference led recovery (primary ∷ more) = refl

check_matches-expected :
    (led : LedgerRow) (recovery : Option LoanRecovery) (rows : List GatewayRow)
    → (check_matches led recovery rows).expected_net ≡ led.expected_net
unfolding check_matches
check_matches-expected led recovery [] = refl
check_matches-expected led recovery (primary ∷ more) = refl

pub check_row-difference :
    (gateway : List GatewayRow) (loan_book : List LoanRecovery) (led : LedgerRow)
    → (check_row gateway loan_book led).net_delta
      ≡ difference
          (check_row gateway loan_book led).observed_net
          (check_row gateway loan_book led).expected_net
unfolding check_row
check_row-difference gateway loan_book led =
    let recovery = find_recovery loan_book led.transaction_id in
    let rows = successes gateway led.transaction_id in
    check_matches-difference led recovery rows
    ∙ ap (difference (check_matches led recovery rows).observed_net)
        (sym (check_matches-expected led recovery rows))

check_matches-transaction_id :
    (led : LedgerRow) (recovery : Option LoanRecovery) (rows : List GatewayRow)
    → (check_matches led recovery rows).transaction_id ≡ led.transaction_id
unfolding check_matches
check_matches-transaction_id led recovery [] = refl
check_matches-transaction_id led recovery (primary ∷ more) = refl

pub check_row-transaction_id :
    (gateway : List GatewayRow) (loan_book : List LoanRecovery) (led : LedgerRow)
    → (check_row gateway loan_book led).transaction_id ≡ led.transaction_id
unfolding check_row
check_row-transaction_id gateway loan_book led =
    check_matches-transaction_id led (find_recovery loan_book led.transaction_id)
      (successes gateway led.transaction_id)
