-- ===== src/Matching/Report/Escalation.antt =====
-- What matching/report.py leaves to no person: a payment that the check of the ledger leaves to
-- none, and whose settlement shows nothing worse than a late date.
use close_control.Base.{
  ◌≡◌, ◌↔◌, refl, sym, ap, ◌∙◌, Option, none, some, List, [], ◌∷◌, ◌++◌, Bool, true, false, arith,
  ltb, if◌then◌else◌, ℕ,
}
use close_control.Matching.Engine.{MatchStatus, MatchResult}
use close_control.Matching.Exceptions.{ExceptionType}
use close_control.Matching.LedgerCheck.{
  GatewayRow, LedgerRow, LoanRecovery, LedgerCheck, successes, check_row,
}
use close_control.Matching.LedgerCheck.Consistent.{
  all_harmless, is_of_check, is_harmless_type, IsConsistent, check_row-IsConsistent,
}
use close_control.Matching.LedgerCheck.Explained.{NeedsNobody, check_row-NeedsNobody}
use close_control.Matching.Report.{
  exception_priority, check_signals, settlement_signals, lag_signals, match_signals, first_present,
  final_auto_resolve, build_row, find_settlement, find_ledger, settlement_of, first_success,
}

-- With these signals of the settlement, the report agrees with the check and the signals.
abbrev Agrees : Option ExceptionType → List ExceptionType → Type 0
Agrees e more =
    final_auto_resolve e (is_harmless_type e)
      (first_present exception_priority (check_signals e ++ more))
    ≡ all_harmless (check_signals e ++ more)

-- For each signal that a settlement may have.
abbrev AgreesOnAll : Option ExceptionType → List ExceptionType → Type 0
AgreesOnAll e lag =
    Agrees e lag
    × (Agrees e (ExceptionType.settlement_bank_posting_not_found ∷ lag)
        × (Agrees e (ExceptionType.ambiguous_bank_match ∷ lag)
            × (Agrees e (ExceptionType.missing_bank_reference ∷ lag)
                × Agrees e (ExceptionType.bank_overage ∷ lag))))

AgreesOnAll-check :
    (e : Option ExceptionType) (late : Bool)
    → is_of_check e ≡ true
    → AgreesOnAll e (if late then ExceptionType.timing_lag_beyond_t2 ∷ [] else [])
unfolding final_auto_resolve first_present
AgreesOnAll-check none true h = (refl, (refl, (refl, (refl, refl))))
AgreesOnAll-check none false h = (refl, (refl, (refl, (refl, refl))))
AgreesOnAll-check (some ExceptionType.no_gateway_record_found) true h =
    (refl, (refl, (refl, (refl, refl))))
AgreesOnAll-check (some ExceptionType.no_gateway_record_found) false h =
    (refl, (refl, (refl, (refl, refl))))
AgreesOnAll-check (some ExceptionType.duplicate_payment_detected) true h =
    (refl, (refl, (refl, (refl, refl))))
AgreesOnAll-check (some ExceptionType.duplicate_payment_detected) false h =
    (refl, (refl, (refl, (refl, refl))))
AgreesOnAll-check (some ExceptionType.signature_verification_failed) true h =
    (refl, (refl, (refl, (refl, refl))))
AgreesOnAll-check (some ExceptionType.signature_verification_failed) false h =
    (refl, (refl, (refl, (refl, refl))))
AgreesOnAll-check (some ExceptionType.chargeback_received) true h =
    (refl, (refl, (refl, (refl, refl))))
AgreesOnAll-check (some ExceptionType.chargeback_received) false h =
    (refl, (refl, (refl, (refl, refl))))
AgreesOnAll-check (some ExceptionType.held_for_risk_review) true h =
    (refl, (refl, (refl, (refl, refl))))
AgreesOnAll-check (some ExceptionType.held_for_risk_review) false h =
    (refl, (refl, (refl, (refl, refl))))
AgreesOnAll-check (some ExceptionType.deemed_success_ambiguous) true h =
    (refl, (refl, (refl, (refl, refl))))
AgreesOnAll-check (some ExceptionType.deemed_success_ambiguous) false h =
    (refl, (refl, (refl, (refl, refl))))
AgreesOnAll-check (some ExceptionType.settlement_bank_posting_not_found) late h =
    absurd (ground arith)
AgreesOnAll-check (some ExceptionType.missing_bank_reference) late h = absurd (ground arith)
AgreesOnAll-check (some ExceptionType.bank_overage) late h = absurd (ground arith)
AgreesOnAll-check (some ExceptionType.partial_refund) true h = (refl, (refl, (refl, (refl, refl))))
AgreesOnAll-check (some ExceptionType.partial_refund) false h = (refl, (refl, (refl, (refl, refl))))
AgreesOnAll-check (some ExceptionType.unexplained_shortage) true h =
    (refl, (refl, (refl, (refl, refl))))
AgreesOnAll-check (some ExceptionType.unexplained_shortage) false h =
    (refl, (refl, (refl, (refl, refl))))
AgreesOnAll-check (some ExceptionType.ambiguous_bank_match) late h = absurd (ground arith)
AgreesOnAll-check (some ExceptionType.loan_recovery_deduction) true h =
    (refl, (refl, (refl, (refl, refl))))
AgreesOnAll-check (some ExceptionType.loan_recovery_deduction) false h =
    (refl, (refl, (refl, (refl, refl))))
AgreesOnAll-check (some ExceptionType.fee_variance) true h = (refl, (refl, (refl, (refl, refl))))
AgreesOnAll-check (some ExceptionType.fee_variance) false h = (refl, (refl, (refl, (refl, refl))))
AgreesOnAll-check (some ExceptionType.timing_lag_beyond_t2) late h = absurd (ground arith)

-- A settlement has one signal at most.
settlement_signals-Agrees :
    (e : Option ExceptionType) (lag : List ExceptionType) (status : MatchStatus)
    (missing overage tied : Bool)
    → AgreesOnAll e lag
    → Agrees e (settlement_signals status missing overage tied ++ lag)
unfolding settlement_signals
settlement_signals-Agrees e lag MatchStatus.unmatched missing overage tied h = h.1.0
settlement_signals-Agrees e lag MatchStatus.ambiguous missing overage tied h = h.1.1.0
settlement_signals-Agrees e lag MatchStatus.matched true overage tied h = h.1.1.1.0
settlement_signals-Agrees e lag MatchStatus.matched false true tied h = h.1.1.1.1
settlement_signals-Agrees e lag MatchStatus.matched false false true h = h.1.1.0
settlement_signals-Agrees e lag MatchStatus.matched false false false h = h.0
settlement_signals-Agrees e lag MatchStatus.matched_with_exception true overage tied h = h.1.1.1.0
settlement_signals-Agrees e lag MatchStatus.matched_with_exception false true tied h = h.1.1.1.1
settlement_signals-Agrees e lag MatchStatus.matched_with_exception false false true h = h.1.1.0
settlement_signals-Agrees e lag MatchStatus.matched_with_exception false false false h = h.0

lag_signals-AgreesOnAll :
    (e : Option ExceptionType) (settled_on : Option ℕ) (led : Option LedgerRow)
    → is_of_check e ≡ true
    → AgreesOnAll e (lag_signals settled_on led)
lag_signals-AgreesOnAll e (some d) (some led) h =
    AgreesOnAll-check e (ltb led.expected_settlement_date d) h
lag_signals-AgreesOnAll e (some d) none h = AgreesOnAll-check e false h
lag_signals-AgreesOnAll e none led h = AgreesOnAll-check e false h

match_signals-Agrees :
    (e : Option ExceptionType) (r : Option MatchResult) (primary : Option GatewayRow)
    (led : Option LedgerRow)
    → is_of_check e ≡ true
    → Agrees e (match_signals r primary led)
match_signals-Agrees e (some r) (some primary) led h =
    settlement_signals-Agrees e _ r.match_status r.missing_bank_reference r.bank_overage
      r.had_ambiguous_candidates (lag_signals-AgreesOnAll e primary.settled_on led h)
match_signals-Agrees e (some r) none led h = (AgreesOnAll-check e false h).0
match_signals-Agrees e none primary led h = (AgreesOnAll-check e false h).0

build_row-all_harmless :
    (results : List MatchResult) (gateway : List GatewayRow) (ledger : List LedgerRow)
    (lc : LedgerCheck)
    → IsConsistent lc.verdict
    → (build_row results gateway ledger lc).auto_resolve_eligible
      ≡ all_harmless (build_row results gateway ledger lc).all_signals
unfolding build_row
build_row-all_harmless results gateway ledger lc h =
    let primary = first_success (successes gateway lc.transaction_id) in
    let settlement = find_settlement results (settlement_of primary) in
    let more = match_signals settlement primary (find_ledger ledger lc.transaction_id) in
    let e = lc.verdict.exception_type in
    ap (λ a. final_auto_resolve e a (first_present exception_priority (check_signals e ++ more)))
      h.follows
    ∙ match_signals-Agrees e settlement primary (find_ledger ledger lc.transaction_id) h.listed

all_harmless-head :
    (e : Option ExceptionType) (more : List ExceptionType)
    → all_harmless (check_signals e ++ more) ≡ true
    → is_harmless_type e ≡ true
all_harmless-head none more h = refl
all_harmless-head (some e) more h = ground arith

check_is_harmless :
    (results : List MatchResult) (gateway : List GatewayRow) (ledger : List LedgerRow)
    (lc : LedgerCheck)
    → all_harmless (build_row results gateway ledger lc).all_signals ≡ true
    → is_harmless_type lc.verdict.exception_type ≡ true
unfolding build_row
check_is_harmless results gateway ledger lc h = all_harmless-head lc.verdict.exception_type _ h

-- The report leaves a payment to no person exactly when the check of the ledger explains it (one
-- undisputed, signed, settled success with an explained amount) and all of its signals, those of its
-- settlement included, are a recovery, a fee variance or a late date.
pub build_row-NeedsNobody :
    (results : List MatchResult) (gateway : List GatewayRow) (ledger : List LedgerRow)
    (loan_book : List LoanRecovery) (led : LedgerRow)
    → ((build_row results gateway ledger (check_row gateway loan_book led)).auto_resolve_eligible
        ≡ true)
      ↔ (NeedsNobody gateway loan_book led
          × (all_harmless
                (build_row results gateway ledger (check_row gateway loan_book led)).all_signals
              ≡ true))
build_row-NeedsNobody results gateway ledger loan_book led =
    let lc = check_row gateway loan_book led in
    let consistent = check_row-IsConsistent gateway loan_book led in
    let agrees = build_row-all_harmless results gateway ledger lc consistent in
    (
      λ h.
          let harmless = sym agrees ∙ h in
          (
            (check_row-NeedsNobody gateway loan_book led).0
                (consistent.follows ∙ check_is_harmless results gateway ledger lc harmless),
            harmless,
          ),
      λ h. agrees ∙ h.1,
    )
