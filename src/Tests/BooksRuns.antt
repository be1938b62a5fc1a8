-- ===== src/Tests/BooksRuns.antt =====
-- matching/ledger_check.py, matching/report.py and journal_entries.py on two payments, one short by
-- its fees and one disputed.
use close_control.Base.{
  if◌then◌else◌, ◌≡◌, ◌↔◌, refl, String, Option, none, some, List, [], ◌∷◌, true, false,
}
use close_control.Base.Int.{pos, ◌+ℤ◌, ◌-ℤ◌}
use close_control.Matching.Engine.{MatchResult, MatchStatus, Confidence, Relationship}
use close_control.Matching.Exceptions.{ExceptionType, RiskClass}
use close_control.Matching.LedgerCheck.{
  GatewayStatus, GatewayRow, LedgerRow, check_row, judge, judge_amount,
}
use close_control.Matching.LedgerCheck.Consistent.{all_harmless}
use close_control.Matching.LedgerCheck.Explained.{NeedsNobody, check_row-NeedsNobody}
use close_control.Matching.Report.{
  PaymentRow, build_row, settlement_signals, first_present, final_auto_resolve,
}
use close_control.Matching.Report.Priority.{IsFinal, build_row-IsFinal}
use close_control.Matching.Report.Escalation.{build_row-NeedsNobody}
use close_control.JournalEntries.Balance.{entry_of, balances_of, build_journal_entry-Balances}

abbrev pub led : String → LedgerRow
led id = record {
  transaction_id = id;
  order_id = "O1";
  merchant_id = "M1";
  expected_net = pos 10000;
  expected_fee = pos 200;
  expected_tax = pos 36;
  expected_settlement_date = 20;
}

abbrev pub success : String → Option String → GatewayRow
success id chargeback_id = record {
  razorpay_payment_id = id;
  merchant_id = "M1";
  transaction_id_ref = id;
  is_success = true;
  settlement_amount = pos 9950;
  signature_valid = true;
  status = GatewayStatus.other "settled";
  chargeback_id = chargeback_id;
  adjustment = pos 0;
  fee = pos 250;
  tax = pos 36;
  settlement_id = some "S1";
  captured_on = some 18;
  settled_on = some 22;
}

abbrev pub gateway : List GatewayRow
gateway = success "TXN1" none ∷ success "TXN2" (some "CB1") ∷ []

abbrev pub ledger : List LedgerRow
ledger = led "TXN1" ∷ led "TXN2" ∷ []

abbrev pub matched : MatchResult
matched = record {
  settlement_id = "S1";
  merchant_id = "M1";
  member_count = 2;
  expected_total = pos 19900;
  match_status = MatchStatus.matched;
  match_pass = none;
  matched_bank_txn_ids = "B1" ∷ [];
  matched_utrs = [];
  matched_total = some (pos 19900);
  amount_delta = some 0;
  confidence = Confidence.high;
  had_ambiguous_candidates = false;
  relationship_observed = Relationship.many_to_one;
  missing_bank_reference = false;
  bank_overage = false;
}

abbrev pub row_of : String → PaymentRow
row_of id = build_row (matched ∷ []) gateway ledger (check_row gateway [] (led id))

check_row-NeedsNobody_example :
    ((check_row gateway [] (led "TXN1")).verdict.auto_resolve_eligible ≡ true)
    ↔ NeedsNobody gateway [] (led "TXN1")
check_row-NeedsNobody_example = check_row-NeedsNobody gateway [] (led "TXN1")

build_row-NeedsNobody_example :
    ((row_of "TXN1").auto_resolve_eligible ≡ true)
    ↔ (NeedsNobody gateway [] (led "TXN1") × (all_harmless (row_of "TXN1").all_signals ≡ true))
build_row-NeedsNobody_example = build_row-NeedsNobody (matched ∷ []) gateway ledger [] (led "TXN1")

build_row-IsFinal_example : IsFinal (row_of "TXN1").final_exception_type (row_of "TXN1").all_signals
build_row-IsFinal_example =
    build_row-IsFinal (matched ∷ []) gateway ledger (check_row gateway [] (led "TXN1"))

-- The first payment has its fees and a late date; the second has a dispute.
signals_run :
    (row_of "TXN1").all_signals
    ≡ ExceptionType.fee_variance ∷ ExceptionType.timing_lag_beyond_t2 ∷ []
unfolding build_row check_row judge judge_amount settlement_signals ◌+ℤ◌ ◌-ℤ◌
signals_run = refl

eligible_run : (row_of "TXN1").auto_resolve_eligible ≡ true
unfolding build_row check_row judge judge_amount settlement_signals first_present final_auto_resolve
    ◌+ℤ◌ ◌-ℤ◌
eligible_run = refl

disputed_run : (row_of "TXN2").final_exception_type ≡ some ExceptionType.chargeback_received
unfolding build_row check_row judge judge_amount settlement_signals first_present final_auto_resolve
    ◌+ℤ◌ ◌-ℤ◌
disputed_run = refl

build_journal_entry-Balances_example :
    ((entry_of (matched ∷ []) gateway ledger [] (row_of "TXN1" ∷ []) (led "TXN1")).balanced
      ≡ balances_of (matched ∷ []) gateway ledger [] (row_of "TXN1" ∷ []) (led "TXN1"))
    × ((entry_of (matched ∷ []) gateway ledger [] (row_of "TXN1" ∷ []) (led "TXN1")).total_debits
        ≡ (if balances_of (matched ∷ []) gateway ledger [] (row_of "TXN1" ∷ []) (led "TXN1")
            then (entry_of
                (matched ∷ [])
                gateway
                ledger
                []
                (row_of "TXN1" ∷ [])
                (led "TXN1")).total_credits
            else none))
build_journal_entry-Balances_example =
    build_journal_entry-Balances (matched ∷ []) gateway ledger [] (row_of "TXN1" ∷ []) (led "TXN1")

-- A success that is only presumed, of a settlement with no posting at the bank: the risk of the
-- missing posting, which is high, does not show.
abbrev presumed_row : PaymentRow
presumed_row =
    let rows = record (success "TXN3" none) { status = GatewayStatus.deemed_success } ∷ [] in
    build_row (record matched { match_status = MatchStatus.unmatched } ∷ []) rows ledger
      (check_row rows [] (led "TXN3"))

presumed_run : presumed_row.risk_class ≡ RiskClass.medium
unfolding build_row check_row judge settlement_signals first_present ◌+ℤ◌ ◌-ℤ◌
presumed_run = refl

presumed_signals_run :
    presumed_row.all_signals
    ≡ ExceptionType.deemed_success_ambiguous ∷ ExceptionType.settlement_bank_posting_not_found ∷ []
unfolding build_row check_row judge settlement_signals first_present ◌+ℤ◌ ◌-ℤ◌
presumed_signals_run = refl
