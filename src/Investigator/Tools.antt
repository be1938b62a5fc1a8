-- ===== src/Investigator/Tools.antt =====
-- investigator/tools.py: what the tools answer from the report, the gateway, the bank and the loan
-- book. The texts of the notes and explanations and the columns that are only passed on are left
-- out; a tool that answers with an error text is `none`. A success has a date of capture.
pub mod Recovery
pub mod Search
use close_control.Base.{
  ℕ, ◌+◌, String, Option, none, some, List, [], ◌∷◌, Bool, true, false, ◌&&◌, leb, ltb, str_eq,
  length, keep, take, contains, map, if◌then◌else◌, is_some_text,
}
use close_control.Base.Int.{ℤ, pos, ◌+ℤ◌, ◌-ℤ◌, abs}
use close_control.Matching.{BankRow, exact_match_tolerance}
use close_control.Matching.LedgerCheck.{GatewayRow, LoanRecovery, successes}
use close_control.Matching.Report.{PaymentRow, first_success}
use close_control.CashPosition.{captured_date_of}

-- A row of the recovery ledger.
pub record LoanBookRow : Type 0 where
  pub merchant_id : String
  pub recovery : LoanRecovery

-- ToolContext; no loan book is an empty one.
pub record ToolContext : Type 0 where
  pub report : List PaymentRow
  pub gateway : List GatewayRow
  pub bank : List BankRow
  pub loan_book : List LoanBookRow
  pub claimed_bank_txn_ids : List String

-- `gateway_primary.loc[...]`
abbrev pub primary_of : ToolContext → String → Option GatewayRow
primary_of ctx transaction_id = first_success (successes ctx.gateway transaction_id)

-- `ctx.report[ctx.report["transaction_id"] == transaction_id].iloc[0]`
abbrev pub report_row_of : List PaymentRow → String → Option PaymentRow
report_row_of [] transaction_id = none
report_row_of (row ∷ report) transaction_id =
    let rest = report_row_of report transaction_id in
    if str_eq row.transaction_id transaction_id then some row else rest

abbrev merchant_in : Option GatewayRow → Option String
merchant_in none = none
merchant_in (some primary) = some primary.merchant_id

abbrev pub first_recovery : List LoanBookRow → String → Option LoanRecovery
first_recovery [] transaction_id = none
first_recovery (row ∷ rows) transaction_id =
    let rest = first_recovery rows transaction_id in
    if str_eq row.recovery.transaction_id transaction_id then some row.recovery else rest

pub record Reconciliation : Type 0 where
  pub observed_net_delta : ℤ
  pub residual_after_recovery : ℤ
  pub reconciles_delta : Bool

pub record LoanSchedule : Type 0 where
  pub loan_book_available : Bool
  pub merchant_id : Option String
  pub merchant_has_active_advance : Bool
  pub merchant_recovery_count : ℕ
  pub recovery : Option LoanRecovery
  pub reconciliation : Option Reconciliation

abbrev reconcile : LoanRecovery → ℤ → Reconciliation
reconcile recovery net_delta = record {
  observed_net_delta = net_delta;
  residual_after_recovery = net_delta +ℤ recovery.recovery_amount;
  reconciles_delta = leb (abs (net_delta +ℤ recovery.recovery_amount)) exact_match_tolerance;
}

-- The delta of the report row, if it has one.
abbrev pub delta_in : Option PaymentRow → Option ℤ
delta_in none = none
delta_in (some row) = row.net_delta

abbrev pub reconciled : Option LoanRecovery → Option ℤ → Option Reconciliation
reconciled (some recovery) (some net_delta) = some (reconcile recovery net_delta)
reconciled _ _ = none

abbrev unavailable : LoanSchedule
unavailable = record {
  loan_book_available = false;
  merchant_id = none;
  merchant_has_active_advance = false;
  merchant_recovery_count = 0;
  recovery = none;
  reconciliation = none;
}

-- get_loan_recovery_schedule over a loan book that has rows.
abbrev pub schedule_from : ToolContext → List LoanBookRow → String → LoanSchedule
schedule_from ctx loan_book transaction_id =
    let merchant_id = merchant_in (primary_of ctx transaction_id) in
    let merchant_loans = keep (λ row. is_some_text row.merchant_id merchant_id) loan_book in
    let recovery = first_recovery loan_book transaction_id in
    record {
      loan_book_available = true;
      merchant_id = merchant_id;
      merchant_has_active_advance = ltb 0 (length merchant_loans);
      merchant_recovery_count = length merchant_loans;
      recovery = recovery;
      reconciliation = reconciled recovery (delta_in (report_row_of ctx.report transaction_id));
    }

abbrev or_unavailable : ToolContext → List LoanBookRow → String → LoanSchedule
or_unavailable ctx [] transaction_id = unavailable
or_unavailable ctx (row ∷ rows) transaction_id = schedule_from ctx (row ∷ rows) transaction_id

-- get_loan_recovery_schedule(ctx, transaction_id)
unfoldable pub get_loan_recovery_schedule : ToolContext → String → LoanSchedule
get_loan_recovery_schedule ctx transaction_id = or_unavailable ctx ctx.loan_book transaction_id

-- `d_from <= credit_date <= d_to`
abbrev pub in_window : ℕ → ℕ → BankRow → Bool
in_window ref_date days row =
    leb ref_date (row.credit_date + days) && leb row.credit_date (ref_date + days)

abbrev pub amount_diff : ℤ → BankRow → ℕ
amount_diff expected row = abs (row.credit_amount -ℤ expected)

-- The amount is tested where the report has an expectation.
abbrev pub is_close : Option ℤ → ℕ → BankRow → Bool
is_close none tolerance row = true
is_close (some expected) tolerance row = leb (amount_diff expected row) tolerance

pub data CandidateStatus : Type 0 where
  already_matched_elsewhere unclaimed : CandidateStatus

abbrev pub candidate_status : ToolContext → BankRow → CandidateStatus
candidate_status ctx row =
    if contains ctx.claimed_bank_txn_ids row.bank_txn_id
    then CandidateStatus.already_matched_elsewhere
    else CandidateStatus.unclaimed

-- `idxmin`: the first of the rows whose amount is the closest.
abbrev pub closest : ℤ → BankRow → List BankRow → BankRow
closest expected best [] = best
closest expected best (row ∷ rows) =
    closest expected
      (if ltb (amount_diff expected row) (amount_diff expected best) then row else best) rows

pub record NearMiss : Type 0 where
  pub row : BankRow
  pub status : CandidateStatus
  pub amount_diff : ℕ
  pub date_diff_days : ℤ

-- NEAR_MISS_WINDOW_DAYS
abbrev pub near_miss_window_days : ℕ
near_miss_window_days = 30

abbrev miss_of : ToolContext → ℕ → ℤ → BankRow → NearMiss
miss_of ctx ref_date expected best = record {
  row = best;
  status = candidate_status ctx best;
  amount_diff = amount_diff expected best;
  date_diff_days = pos best.credit_date -ℤ pos ref_date;
}

abbrev pub nearest : ToolContext → ℕ → ℤ → List BankRow → Option NearMiss
nearest ctx ref_date expected [] = none
nearest ctx ref_date expected (row ∷ wide) =
    some (miss_of ctx ref_date expected (closest expected row wide))

-- _find_near_miss(ctx, ref_date, expected_amount)
unfoldable pub find_near_miss : ToolContext → ℕ → Option ℤ → Option NearMiss
find_near_miss ctx ref_date none = none
find_near_miss ctx ref_date (some expected) =
    nearest ctx ref_date expected (keep (in_window ref_date near_miss_window_days) ctx.bank)

pub record SearchResult : Type 0 where
  pub searched_expected_amount : Option ℤ
  pub candidate_count : ℕ
  pub unclaimed_candidate_count : ℕ
  pub candidates : List (BankRow × CandidateStatus)
  pub near_miss : Option NearMiss

abbrev is_unclaimed : CandidateStatus → Bool
is_unclaimed CandidateStatus.unclaimed = true
is_unclaimed CandidateStatus.already_matched_elsewhere = false

abbrev pub expected_in : Option PaymentRow → Option ℤ
expected_in none = none
expected_in (some row) = some row.expected_net

abbrev pub when_empty : List BankRow → Option NearMiss → Option NearMiss
when_empty [] miss = miss
when_empty (row ∷ rows) miss = none

abbrev pub search_around : ToolContext → ℕ → Option ℤ → ℕ → ℕ → SearchResult
search_around ctx ref_date expected window tolerance =
    let matches =
      keep (λ row. in_window ref_date window row && is_close expected tolerance row) ctx.bank in
    record {
      searched_expected_amount = expected;
      candidate_count = length matches;
      unclaimed_candidate_count =
          length (keep (λ row. is_unclaimed (candidate_status ctx row)) matches);
      candidates = take 10 (map (λ row. (row, candidate_status ctx row)) matches);
      near_miss = when_empty matches (find_near_miss ctx ref_date expected);
    }

abbrev search_from : ToolContext → String → Option ℕ → ℕ → ℕ → Option SearchResult
search_from ctx transaction_id none window tolerance = none
search_from ctx transaction_id (some ref_date) window tolerance = some (
    search_around ctx ref_date (expected_in (report_row_of ctx.report transaction_id)) window
      tolerance)

-- search_bank_statement(ctx, transaction_id, window_days, amount_tolerance_rupees)
unfoldable pub search_bank_statement : ToolContext → String → ℕ → ℕ → Option SearchResult
unfolding find_near_miss
search_bank_statement ctx transaction_id window tolerance =
    search_from ctx transaction_id (captured_date_of (primary_of ctx transaction_id)) window
      tolerance
