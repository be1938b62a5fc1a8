-- ===== src/Matching/Exceptions.antt =====
-- The exception types and risk classes that matching/ledger_check.py and matching/report.py give to
-- a payment, as data in place of their strings.
use close_control.Base.{ℕ, List, [], ◌∷◌, Bool, false, ◌||◌, ◌==◌}

-- In the order of EXCEPTION_PRIORITY of matching/report.py.
pub data ExceptionType : Type 0 where
  no_gateway_record_found duplicate_payment_detected signature_verification_failed
        chargeback_received held_for_risk_review deemed_success_ambiguous
        settlement_bank_posting_not_found missing_bank_reference bank_overage partial_refund
        unexplained_shortage ambiguous_bank_match loan_recovery_deduction fee_variance
        timing_lag_beyond_t2 :
      ExceptionType

-- A number for each type, by which two are compared.
abbrev pub code : ExceptionType → ℕ
code ExceptionType.no_gateway_record_found = 0
code ExceptionType.duplicate_payment_detected = 1
code ExceptionType.signature_verification_failed = 2
code ExceptionType.chargeback_received = 3
code ExceptionType.held_for_risk_review = 4
code ExceptionType.deemed_success_ambiguous = 5
code ExceptionType.settlement_bank_posting_not_found = 6
code ExceptionType.missing_bank_reference = 7
code ExceptionType.bank_overage = 8
code ExceptionType.partial_refund = 9
code ExceptionType.unexplained_shortage = 10
code ExceptionType.ambiguous_bank_match = 11
code ExceptionType.loan_recovery_deduction = 12
code ExceptionType.fee_variance = 13
code ExceptionType.timing_lag_beyond_t2 = 14

-- `candidate in signals`
abbrev pub signalled : List ExceptionType → ExceptionType → Bool
signalled [] e = false
signalled (s ∷ signals) e = (code e == code s) || signalled signals e

pub data RiskClass : Type 0 where
  none low medium high : RiskClass

-- RISK_RANK
abbrev pub risk_rank : RiskClass → ℕ
risk_rank RiskClass.none = 0
risk_rank RiskClass.low = 1
risk_rank RiskClass.medium = 2
risk_rank RiskClass.high = 3
