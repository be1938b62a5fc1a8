-- ===== src/Matching/Report.antt =====
-- matching/report.py: the row that the report has for one payment, from the check of the ledger and
-- the match of its settlement.
pub mod Priority
pub mod Escalation
pub mod Rows
use close_control.Base.{
  ℕ, String, Option, none, some, List, [], ◌∷◌, ◌++◌, Bool, true, false, ◌&&◌, ltb, str_eq, ◌==◌,
  if◌then◌else◌,
}
use close_control.Base.Int.{ℤ}
use close_control.Matching.Engine.{MatchStatus, MatchPass, MatchResult}
use close_control.Matching.Exceptions.{ExceptionType, code, signalled, RiskClass, risk_rank}
use close_control.Matching.LedgerCheck.{
  GatewayRow, LedgerRow, LoanRecovery, Verdict, LedgerCheck, successes, check_row,
}

abbrev pub is_none : {A : Type 0} → Option A → Bool
is_none none = true
is_none (some _) = false

-- EXCEPTION_PRIORITY
abbrev pub exception_priority : List ExceptionType
exception_priority =
    ExceptionType.no_gateway_record_found ∷ ExceptionType.duplicate_payment_detected
    ∷ ExceptionType.signature_verification_failed ∷ ExceptionType.chargeback_received
    ∷ ExceptionType.held_for_risk_review ∷ ExceptionType.deemed_success_ambiguous
    ∷ ExceptionType.settlement_bank_posting_not_found ∷ ExceptionType.missing_bank_reference
    ∷ ExceptionType.bank_overage ∷ ExceptionType.partial_refund ∷ ExceptionType.unexplained_shortage
    ∷ ExceptionType.ambiguous_bank_match ∷ ExceptionType.loan_recovery_deduction
    ∷ ExceptionType.fee_variance ∷ ExceptionType.timing_lag_beyond_t2 ∷ []

pub data ReportStatus : Type 0 where
  of_match : MatchStatus → ReportStatus
  no_settlement unknown : ReportStatus

pub record PaymentRow : Type 0 where
  pub transaction_id : String
  pub order_id : String
  pub merchant_id : String
  pub settlement_id : Option String
  pub match_status : ReportStatus
  pub match_pass : Option MatchPass
  pub final_exception_type : Option ExceptionType
  pub all_signals : List ExceptionType
  pub risk_class : RiskClass
  pub auto_resolve_eligible : Bool
  pub is_clean : Bool
  pub expected_net : ℤ
  pub observed_net : Option ℤ
  pub net_delta : Option ℤ

-- The signal of the ledger check.
abbrev pub check_signals : Option ExceptionType → List ExceptionType
check_signals none = []
check_signals (some e) = e ∷ []

-- The signal of a settlement's match: its status, then its marks.
unfoldable pub settlement_signals : MatchStatus → Bool → Bool → Bool → List ExceptionType
settlement_signals MatchStatus.unmatched missing overage tied =
    ExceptionType.settlement_bank_posting_not_found ∷ []
settlement_signals MatchStatus.ambiguous missing overage tied =
    ExceptionType.ambiguous_bank_match ∷ []
settlement_signals _ missing overage tied =
    if missing
    then ExceptionType.missing_bank_reference ∷ []
    else if overage
    then ExceptionType.bank_overage ∷ []
    else if tied
    then ExceptionType.ambiguous_bank_match ∷ []
    else []

-- `actual_settle_date > expected_date`, where both are known.
abbrev pub lag_signals : Option ℕ → Option LedgerRow → List ExceptionType
lag_signals (some settled_on) (some led) =
    if ltb led.expected_settlement_date settled_on
    then ExceptionType.timing_lag_beyond_t2 ∷ []
    else []
lag_signals _ _ = []

-- The signals of a settlement and of its date; without a result there are none.
abbrev pub match_signals :
    Option MatchResult → Option GatewayRow → Option LedgerRow → List ExceptionType
match_signals (some r) (some primary) led =
    settlement_signals r.match_status r.missing_bank_reference r.bank_overage
      r.had_ambiguous_candidates
    ++ lag_signals primary.settled_on led
match_signals _ _ led = []

-- The loop over the priorities: the first candidate that is signalled.
unfoldable pub first_present : List ExceptionType → List ExceptionType → Option ExceptionType
first_present [] signals = none
first_present (candidate ∷ order) signals =
    let rest = first_present order signals in
    if signalled signals candidate then some candidate else rest

-- settlement_only_risk
abbrev settlement_only_risk : ExceptionType → Option RiskClass
settlement_only_risk ExceptionType.settlement_bank_posting_not_found = some RiskClass.high
settlement_only_risk ExceptionType.missing_bank_reference = some RiskClass.medium
settlement_only_risk ExceptionType.bank_overage = some RiskClass.high
settlement_only_risk ExceptionType.ambiguous_bank_match = some RiskClass.medium
settlement_only_risk ExceptionType.timing_lag_beyond_t2 = some RiskClass.low
settlement_only_risk _ = none

abbrev worse : RiskClass → Option RiskClass → RiskClass
worse risk none = risk
worse risk (some other) = if ltb (risk_rank risk) (risk_rank other) then other else risk

-- `risk` before the final exception is known.
abbrev check_risk : Option ExceptionType → RiskClass → RiskClass
check_risk none risk = RiskClass.none
check_risk (some e) risk = risk

abbrev pub final_risk : RiskClass → Option ExceptionType → RiskClass
final_risk risk none = risk
final_risk risk (some e) = worse risk (settlement_only_risk e)

abbrev blocks_auto_resolve : ExceptionType → Bool
blocks_auto_resolve ExceptionType.settlement_bank_posting_not_found = true
blocks_auto_resolve ExceptionType.missing_bank_reference = true
blocks_auto_resolve ExceptionType.bank_overage = true
blocks_auto_resolve ExceptionType.ambiguous_bank_match = true
blocks_auto_resolve _ = false

-- `auto_resolve` before the final exception is known.
abbrev auto_resolve : Option ExceptionType → Bool → Bool
auto_resolve none checked = true
auto_resolve (some e) checked = checked

-- Whether the payment may be resolved without a person, by the exception of the check, its verdict,
-- and the final exception.
unfoldable pub final_auto_resolve : Option ExceptionType → Bool → Option ExceptionType → Bool
final_auto_resolve exception checked none = true
final_auto_resolve exception checked (some e) =
    if blocks_auto_resolve e
    then false
    else if code e == code ExceptionType.timing_lag_beyond_t2 && is_none exception
    then true
    else auto_resolve exception checked

-- `settlement_by_id.loc[...]` and `ledger_by_txn.loc[...]`, with ids that stand once.
abbrev pub find_settlement : List MatchResult → Option String → Option MatchResult
find_settlement results none = none
find_settlement [] id = none
find_settlement (r ∷ results) (some id) =
    let rest = find_settlement results (some id) in
    if str_eq r.settlement_id id then some r else rest

abbrev pub find_ledger : List LedgerRow → String → Option LedgerRow
find_ledger [] id = none
find_ledger (led ∷ ledger) id =
    let rest = find_ledger ledger id in if str_eq led.transaction_id id then some led else rest

-- `drop_duplicates("transaction_id_ref", keep="first")`
abbrev pub first_success : List GatewayRow → Option GatewayRow
first_success [] = none
first_success (primary ∷ _) = some primary

abbrev pub settlement_of : Option GatewayRow → Option String
settlement_of none = none
settlement_of (some primary) = primary.settlement_id

abbrev status_of : Option String → Option MatchResult → ReportStatus
status_of none none = ReportStatus.no_settlement
status_of (some _) none = ReportStatus.unknown
status_of id (some r) = ReportStatus.of_match r.match_status

abbrev pass_of : Option MatchResult → Option MatchPass
pass_of none = none
pass_of (some r) = r.match_pass

-- One turn of the loop of build_report, on the check of the payment.
unfoldable pub build_row :
    List MatchResult → List GatewayRow → List LedgerRow → LedgerCheck → PaymentRow
unfolding settlement_signals first_present final_auto_resolve
build_row results gateway ledger lc =
    let primary = first_success (successes gateway lc.transaction_id) in
    let settlement = find_settlement results (settlement_of primary) in
    let signals =
      check_signals lc.verdict.exception_type
      ++ match_signals settlement primary (find_ledger ledger lc.transaction_id) in
    let final = first_present exception_priority signals in
    record {
      transaction_id = lc.transaction_id;
      order_id = lc.order_id;
      merchant_id = lc.merchant_id;
      settlement_id = settlement_of primary;
      match_status = status_of (settlement_of primary) settlement;
      match_pass = pass_of settlement;
      final_exception_type = final;
      all_signals = signals;
      risk_class = final_risk (check_risk lc.verdict.exception_type lc.verdict.risk_class) final;
      auto_resolve_eligible =
          final_auto_resolve lc.verdict.exception_type lc.verdict.auto_resolve_eligible final;
      is_clean = is_none final;
      expected_net = lc.expected_net;
      observed_net = lc.observed_net;
      net_delta = lc.net_delta;
    }

-- build_report(ledger_check, settlement_matches, gateway, ledger)
unfoldable pub build_report :
    List LedgerCheck → List MatchResult → List GatewayRow → List LedgerRow → List PaymentRow
unfolding build_row
build_report [] results gateway ledger = []
build_report (lc ∷ checks) results gateway ledger =
    build_row results gateway ledger lc ∷ build_report checks results gateway ledger
