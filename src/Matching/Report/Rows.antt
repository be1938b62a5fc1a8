-- ===== src/Matching/Report/Rows.antt =====
-- The rows of the report of matching/report.py are those of the ledger.
use close_control.Base.{◌≡◌, refl, ◌∙◌, List, [], ◌∷◌, map}
use close_control.Matching.Engine.{MatchResult}
use close_control.Matching.LedgerCheck.{
  GatewayRow, LedgerRow, LoanRecovery, LedgerCheck, check_row, check_ledger_vs_gateway,
}
use close_control.Matching.LedgerCheck.Consistent.{check_row-transaction_id}
use close_control.Matching.Report.{build_row, build_report}

build_row-transaction_id :
    (results : List MatchResult) (gateway : List GatewayRow) (ledger : List LedgerRow)
    (lc : LedgerCheck)
    → (build_row results gateway ledger lc).transaction_id ≡ lc.transaction_id
unfolding build_row
build_row-transaction_id results gateway ledger lc = refl

report_rows :
    (results : List MatchResult) (gateway : List GatewayRow) (ledger some_rows : List LedgerRow)
    (loan_book : List LoanRecovery)
    → map
        (λ row. row.transaction_id)
        (build_report (check_ledger_vs_gateway gateway some_rows loan_book) results gateway ledger)
      ≡ map (λ led. led.transaction_id) some_rows
unfolding build_report check_ledger_vs_gateway
report_rows results gateway ledger [] loan_book = refl
report_rows results gateway ledger (led ∷ more) loan_book =
    let same =
      build_row-transaction_id results gateway ledger (check_row gateway loan_book led)
      ∙ check_row-transaction_id gateway loan_book led in
    cc (same, report_rows results gateway ledger more loan_book)

-- The report over the check of the ledger has one row for each row of the ledger, in its order, with
-- the id of its payment.
pub build_report-rows :
    (results : List MatchResult) (gateway : List GatewayRow) (ledger : List LedgerRow)
    (loan_book : List LoanRecovery)
    → map
        (λ row. row.transaction_id)
        (build_report (check_ledger_vs_gateway gateway ledger loan_book) results gateway ledger)
      ≡ map (λ led. led.transaction_id) ledger
build_report-rows results gateway ledger loan_book =
    report_rows results gateway ledger ledger loan_book
