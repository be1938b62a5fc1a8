-- ===== src/Matching/LedgerCheck.antt =====
-- matching/ledger_check.py: the expectation of the ledger on one payment against what the gateway
-- reports of it. The sums are paise, as they are once rounded to two decimals.
pub mod Consistent
pub mod Explained
pub mod Recovered
use close_control.Base.{
  ℕ, String, Option, none, some, List, [], ◌∷◌, Bool, true, false, not, ◌&&◌, ◌||◌, leb, ltb,
  str_eq, length, keep, get_last?, if◌then◌else◌,
}
use close_control.Base.Int.{ℤ, pos, ◌+ℤ◌, ◌-ℤ◌, abs, ltb_ℤ}
use close_control.Matching.{exact_match_tolerance}
use close_control.Matching.Exceptions.{ExceptionType, RiskClass}

pub data GatewayStatus : Type 0 where
  on_hold deemed_success : GatewayStatus
  other : String → GatewayStatus

-- A row of the gateway's export; `is_success` is `attempt_status == "success"`.
pub record GatewayRow : Type 0 where
  pub razorpay_payment_id : String
  pub merchant_id : String
  pub transaction_id_ref : String
  pub is_success : Bool
  pub settlement_amount : ℤ
  pub signature_valid : Bool
  pub status : GatewayStatus
  pub chargeback_id : Option String
  pub adjustment : ℤ
  pub fee : ℤ
  pub tax : ℤ
  pub settlement_id : Option String
  pub captured_on : Option ℕ
  pub settled_on : Option ℕ

pub record LedgerRow : Type 0 where
  pub transaction_id : String
  pub order_id : String
  pub merchant_id : String
  pub expected_net : ℤ
  pub expected_fee : ℤ
  pub expected_tax : ℤ
  pub expected_settlement_date : ℕ

pub record LoanRecovery : Type 0 where
  pub transaction_id : String
  pub loan_id : String
  pub recovery_amount : ℤ

-- The part of a result row that the branches set.
pub record Verdict : Type 0 where
  pub exception_type : Option ExceptionType
  pub risk_class : RiskClass
  pub auto_resolve_eligible : Bool
  pub loan : Option (String × ℤ)

pub record LedgerCheck : Type 0 where
  pub transaction_id : String
  pub order_id : String
  pub merchant_id : String
  pub expected_net : ℤ
  pub gateway_records_found : ℕ
  pub observed_net : Option ℤ
  pub net_delta : Option ℤ
  pub verdict : Verdict

-- What a row starts from, and keeps when the amounts agree.
abbrev pub clean : Verdict
clean = record {
  exception_type = none;
  risk_class = RiskClass.none;
  auto_resolve_eligible = true;
  loan = none;
}

abbrev pub escalated : ExceptionType → RiskClass → Verdict
escalated e risk = record {
  exception_type = some e;
  risk_class = risk;
  auto_resolve_eligible = false;
  loan = none;
}

abbrev pub is_on_hold : GatewayStatus → Bool
is_on_hold GatewayStatus.on_hold = true
is_on_hold _ = false

abbrev pub is_deemed_success : GatewayStatus → Bool
is_deemed_success GatewayStatus.deemed_success = true
is_deemed_success _ = false

abbrev pub has_chargeback : Option String → Bool
has_chargeback none = false
has_chargeback (some id) = true

-- The recovery of the payment accounts for the whole of its delta. The code does not round the sum, so
-- a rest of exactly two paise can be on either side.
abbrev pub recovery_explains : ℤ → Option LoanRecovery → Bool
recovery_explains net_delta none = false
recovery_explains net_delta (some r) =
    leb (abs (net_delta +ℤ r.recovery_amount)) exact_match_tolerance

abbrev pub is_refunded : GatewayRow → Bool
is_refunded primary = ltb_ℤ primary.adjustment (pos 0 -ℤ pos exact_match_tolerance)

-- FEE_VARIANCE_RECONCILIATION_TOLERANCE_RUPEES is the exact tolerance.
abbrev pub fee_explains : LedgerRow → GatewayRow → ℤ → Bool
fee_explains led primary net_delta =
    let fee_delta = (primary.fee +ℤ primary.tax) -ℤ (led.expected_fee +ℤ led.expected_tax) in
    leb (abs (fee_delta +ℤ net_delta)) exact_match_tolerance

abbrev loan_of : Option LoanRecovery → Option (String × ℤ)
loan_of none = none
loan_of (some r) = some (r.loan_id, r.recovery_amount)

-- The branches on the amounts, for a payment that nothing disqualifies.
unfoldable pub judge_amount : LedgerRow → GatewayRow → Option LoanRecovery → ℤ → Verdict
judge_amount led primary recovery net_delta =
    if leb (abs net_delta) exact_match_tolerance
    then clean
    else if recovery_explains net_delta recovery
    then record {
      exception_type = some ExceptionType.loan_recovery_deduction;
      risk_class = RiskClass.low;
      auto_resolve_eligible = true;
      loan = loan_of recovery;
    }
    else if is_refunded primary
    then escalated ExceptionType.partial_refund RiskClass.medium
    else if fee_explains led primary net_delta
    then record {
      exception_type = some ExceptionType.fee_variance;
      risk_class = RiskClass.low;
      auto_resolve_eligible = true;
      loan = none;
    }
    else escalated ExceptionType.unexplained_shortage RiskClass.high

-- The branches on a payment that the gateway has, in their order.
unfoldable pub judge : LedgerRow → GatewayRow → Bool → Option LoanRecovery → ℤ → Verdict
unfolding judge_amount
judge led primary is_duplicate recovery net_delta =
    if is_duplicate
    then escalated ExceptionType.duplicate_payment_detected RiskClass.high
    else if not primary.signature_valid
    then escalated ExceptionType.signature_verification_failed RiskClass.high
    else if is_on_hold primary.status
    then escalated ExceptionType.held_for_risk_review RiskClass.high
    else if is_deemed_success primary.status
    then escalated ExceptionType.deemed_success_ambiguous RiskClass.medium
    else if has_chargeback primary.chargeback_id
    then escalated ExceptionType.chargeback_received RiskClass.high
    else judge_amount led primary recovery net_delta

-- `grouped_by_txn.get(txn_id, _empty)`
abbrev pub successes : List GatewayRow → String → List GatewayRow
successes gateway txn_id =
    keep (λ row. row.is_success && str_eq row.transaction_id_ref txn_id) gateway

-- `recoveries_by_txn.get(txn_id)`: of two rows of one payment, the later one is kept.
abbrev pub find_recovery : List LoanRecovery → String → Option LoanRecovery
find_recovery loan_book txn_id = get_last? (keep (λ r. str_eq r.transaction_id txn_id) loan_book)

abbrev row_of : LedgerRow → ℕ → Option ℤ → Option ℤ → Verdict → LedgerCheck
row_of led found observed delta verdict = record {
  transaction_id = led.transaction_id;
  order_id = led.order_id;
  merchant_id = led.merchant_id;
  expected_net = led.expected_net;
  gateway_records_found = found;
  observed_net = observed;
  net_delta = delta;
  verdict = verdict;
}

abbrev pub net_delta_of : LedgerRow → GatewayRow → ℤ
net_delta_of led primary = primary.settlement_amount -ℤ led.expected_net

check_matches : LedgerRow → Option LoanRecovery → List GatewayRow → LedgerCheck
unfolding judge
check_matches led recovery [] =
    row_of led 0 none none (escalated ExceptionType.no_gateway_record_found RiskClass.high)
check_matches led recovery (primary ∷ more) =
    let delta = net_delta_of led primary in
    let found = length (primary ∷ more) in
    row_of led found (some primary.settlement_amount) (some delta)
      (judge led primary (ltb 1 found) recovery delta)

-- One turn of the loop of check_ledger_vs_gateway.
unfoldable pub check_row : List GatewayRow → List LoanRecovery → LedgerRow → LedgerCheck
unfolding check_matches
check_row gateway loan_book led =
    check_matches led (find_recovery loan_book led.transaction_id)
      (successes gateway led.transaction_id)

-- check_ledger_vs_gateway(gateway, ledger, loan_book); no loan book is an empty one.
unfoldable pub check_ledger_vs_gateway :
    List GatewayRow → List LedgerRow → List LoanRecovery → List LedgerCheck
check_ledger_vs_gateway gateway [] loan_book = []
check_ledger_vs_gateway gateway (led ∷ ledger) loan_book =
    check_row gateway loan_book led ∷ check_ledger_vs_gateway gateway ledger loan_book
