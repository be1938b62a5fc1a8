-- ===== src/Tests/ToolRuns.antt =====
-- investigator/tools.py on a payment short by a loan recovery, and on one with no credit near it.
use close_control.Base.{arith, ◌≡◌, ◌↔◌, refl, Option, none, some, List, [], ◌∷◌, true}
use close_control.Base.Int.{◌+ℤ◌, ◌-ℤ◌, ℤ, pos, ◌-ℤ◌}
use close_control.Matching.Exceptions.{ExceptionType}
use close_control.Matching.LedgerCheck.{check_row, check_ledger_vs_gateway}
use close_control.Matching.Report.{build_row, build_report}
use close_control.Matching.LedgerCheck.Recovered.{IsShort}
use close_control.Investigator.Tools.{
  LoanBookRow, ToolContext, CandidateStatus, NearMiss, SearchResult, expected_in, report_row_of,
  find_near_miss, get_loan_recovery_schedule, search_bank_statement,
}
use close_control.Investigator.Tools.Recovery.{
  recoveries, report_of, says_reconciled, get_loan_recovery_schedule-check_row,
}
use close_control.Investigator.Tools.Search.{IsNearMiss, search_bank_statement-near_miss}
use close_control.Tests.BooksRuns.{led, success, gateway, ledger, matched}
use close_control.Tests.MatchingRuns.{bank_row}

abbrev loan_book : List LoanBookRow
loan_book =
    record {
      merchant_id = "M1";
      recovery = record { transaction_id = "TXN1"; loan_id = "L1"; recovery_amount = pos 50 };
    }
    ∷ []

abbrev ctx : ToolContext
ctx = record {
  report = report_of gateway (recoveries loan_book) (matched ∷ []) ledger ledger;
  gateway = gateway;
  bank = bank_row "B1" 30000 ∷ bank_row "B2" 12000 ∷ [];
  loan_book = loan_book;
  claimed_bank_txn_ids = "B2" ∷ [];
}

abbrev short : IsShort gateway (led "TXN1")
unfolding ◌-ℤ◌
short = record {
  primary = success "TXN1" none;
  only = refl;
  trusted = record { signed = refl; undisputed = refl; settled = ("settled", refl) };
  off = refl;
}

get_loan_recovery_schedule-check_row_example :
    (says_reconciled (get_loan_recovery_schedule ctx "TXN1").reconciliation ≡ true) ↔ (
      (check_row gateway (recoveries loan_book) (led "TXN1")).verdict.exception_type
      ≡ some ExceptionType.loan_recovery_deduction)
unfolding ◌+ℤ◌ ◌-ℤ◌
get_loan_recovery_schedule-check_row_example =
    get_loan_recovery_schedule-check_row gateway ctx (matched ∷ []) ledger [] (led "TXN2" ∷ [])
      (led "TXN1") (refl, tt) refl refl short (λ two. absurd (ground (arith, two)))

abbrev search_of : Option SearchResult → SearchResult
search_of (some r) = r
search_of none = record {
  searched_expected_amount = none;
  candidate_count = 0;
  unclaimed_candidate_count = 0;
  candidates = [];
  near_miss = none;
}

abbrev miss_in : Option NearMiss → NearMiss
miss_in (some m) = m
miss_in none = record {
  row = bank_row "" 0;
  status = CandidateStatus.unclaimed;
  amount_diff = 0;
  date_diff_days = pos 0;
}

abbrev found : SearchResult
found = search_of (search_bank_statement ctx "TXN1" 5 500)

abbrev miss : NearMiss
miss = miss_in found.near_miss

found_is : search_bank_statement ctx "TXN1" 5 500 ≡ some found
unfolding search_bank_statement build_report
found_is = refl

miss_is : found.near_miss ≡ some miss
unfolding search_bank_statement find_near_miss build_report build_row check_ledger_vs_gateway
    check_row ◌-ℤ◌
miss_is = refl

-- The second credit is the closer one; another settlement has it.
closest_run : miss.row.bank_txn_id ≡ "B2"
unfolding search_bank_statement find_near_miss build_report build_row check_ledger_vs_gateway
    check_row ◌-ℤ◌
closest_run = refl

search_bank_statement-near_miss_example :
    (found.candidate_count ≡ 0)
    × ((expected : ℤ) × ((expected_in (report_row_of ctx.report "TXN1") ≡ some expected)
          × IsNearMiss ctx.bank 18 expected 5 500 miss))
search_bank_statement-near_miss_example =
    search_bank_statement-near_miss ctx "TXN1" 18 5 500 found miss refl found_is miss_is
