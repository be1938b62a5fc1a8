-- ===== src/Investigator/Tools/Recovery.antt =====
-- The tool on loan recoveries of investigator/tools.py against matching/ledger_check.py.
use close_control.Base.{
  ◌≡◌, ◌↔◌, ◌≢◌, refl, sym, ap, ◌∙◌, String, Option, none, some, List, [], ◌∷◌, ◌++◌, map, Bool,
  true, false, arith, str_eq, eq_iff, keep, contains, Distinct, Bool-cases, inl, inr,
}
use close_control.Base.Int.{ℤ, ◌+ℤ◌, abs}
use close_control.Matching.Exceptions.{ExceptionType}
use close_control.Matching.Engine.{MatchResult}
use close_control.Matching.LedgerCheck.{
  GatewayRow, LedgerRow, LoanRecovery, recovery_explains, find_recovery, net_delta_of, check_row,
  check_ledger_vs_gateway,
}
use close_control.Matching.LedgerCheck.Consistent.{check_row-transaction_id}
use close_control.Matching.LedgerCheck.Recovered.{IsShort, check_row-net_delta, check_row-recovered}
use close_control.Matching.Report.{PaymentRow, build_row, build_report}
use close_control.Investigator.Tools.{
  LoanBookRow, ToolContext, Reconciliation, report_row_of, first_recovery, delta_in, reconciled,
  get_loan_recovery_schedule,
}

abbrev pub recoveries : List LoanBookRow → List LoanRecovery
recoveries = map (λ row. row.recovery)

abbrev pub recovery_ids : List LoanBookRow → List String
recovery_ids = map (λ row. row.recovery.transaction_id)

abbrev of_payment : String → LoanRecovery → Bool
of_payment id r = str_eq r.transaction_id id

absent :
    (id : String) (rows : List LoanBookRow)
    → contains (recovery_ids rows) id ≡ false
    → keep (of_payment id) (recoveries rows) ≡ []
absent id [] h = refl
absent id (row ∷ rows) h =
    let rest = absent id rows in
    let name = row.recovery.transaction_id in ground (arith, eq_iff name id, eq_iff id name, rest)

-- Of a book with one recovery for each payment at most, the first and the last are the same.
first_recovery-find_recovery :
    (id : String) (rows : List LoanBookRow)
    → Distinct (recovery_ids rows)
    → first_recovery rows id ≡ find_recovery (recoveries rows) id
first_recovery-find_recovery id [] h = refl
first_recovery-find_recovery id (row ∷ rows) h =
    elim (Bool-cases (str_eq row.recovery.transaction_id id)) [
      | inl e ↦
          let name = row.recovery.transaction_id in
          let none_left =
            absent id rows (ap (contains (recovery_ids rows)) (sym ((eq_iff name id).0 e)) ∙ h.0) in
          rw (e, find_recovery) (rw none_left refl)
      | inr e ↦ rw e (first_recovery-find_recovery id rows h.1)
    ]

module _ (gateway : List GatewayRow) (book : List LoanRecovery) (results : List MatchResult)
    (ledger : List LedgerRow) where
  -- The first row of the report with the id of a ledger row that no earlier one has.
  report_row_of-build_report :
      (before after : List LedgerRow) (led : LedgerRow)
      → contains (map (λ l. l.transaction_id) before) led.transaction_id ≡ false
      → report_row_of
          (build_report
            (check_ledger_vs_gateway gateway (before ++ led ∷ after) book)
            results
            gateway
            ledger)
          led.transaction_id
        ≡ some (build_row results gateway ledger (check_row gateway book led))
  unfolding build_report check_ledger_vs_gateway
  report_row_of-build_report [] after led h =
      rw (check_row-transaction_id gateway book led)
        (ground (arith, eq_iff led.transaction_id led.transaction_id))
  report_row_of-build_report (other ∷ before) after led h =
      let same = check_row-transaction_id gateway book other in
      let rest = report_row_of-build_report before after led in
      let name = other.transaction_id in
      rw same (ground (arith, eq_iff name led.transaction_id, eq_iff led.transaction_id name, rest))

  abbrev pub report_of : List LedgerRow → List PaymentRow
  report_of rows = build_report (check_ledger_vs_gateway gateway rows book) results gateway ledger

  build_row-net_delta :
      (led : LedgerRow)
      → (build_row results gateway ledger (check_row gateway book led)).net_delta
        ≡ (check_row gateway book led).net_delta
  unfolding build_row
  build_row-net_delta led = refl

  pub delta_in-report :
      (before after : List LedgerRow) (led : LedgerRow)
      → contains (map (λ l. l.transaction_id) before) led.transaction_id ≡ false
      → (s : IsShort gateway led)
      → delta_in (report_row_of (report_of (before ++ led ∷ after)) led.transaction_id)
        ≡ some (net_delta_of led s.primary)
  delta_in-report before after led h s =
      ap delta_in (report_row_of-build_report before after led h)
      ∙ (build_row-net_delta led ∙ check_row-net_delta gateway book led s)

-- `out.get("reconciles_delta")`, with a missing key for false.
abbrev pub says_reconciled : Option Reconciliation → Bool
says_reconciled none = false
says_reconciled (some r) = r.reconciles_delta

reconciled-explains :
    (recovery : Option LoanRecovery) (delta : ℤ)
    → says_reconciled (reconciled recovery (some delta)) ≡ recovery_explains delta recovery
reconciled-explains none delta = refl
reconciled-explains (some r) delta = refl

says_reconciled-schedule :
    (ctx : ToolContext) (book : List LoanBookRow) (id : String) (delta : ℤ)
    → ctx.loan_book ≡ book
    → Distinct (recovery_ids book)
    → delta_in (report_row_of ctx.report id) ≡ some delta
    → says_reconciled (get_loan_recovery_schedule ctx id).reconciliation
      ≡ recovery_explains delta (find_recovery (recoveries book) id)
unfolding get_loan_recovery_schedule
says_reconciled-schedule ctx [] id delta e apart h = rw e refl
says_reconciled-schedule ctx (row ∷ rows) id delta e apart h =
    let same = first_recovery-find_recovery id (row ∷ rows) apart in
    rw e (
      ap (λ d. says_reconciled (reconciled (first_recovery (row ∷ rows) id) d)) h
      ∙ (reconciled-explains (first_recovery (row ∷ rows) id) delta
          ∙ ap (recovery_explains delta) same))

-- What the recovery leaves of the delta is not two paise, where it hangs on the floats: the tool rounds
-- the sum before it compares, and the ledger check does not.
abbrev pub IsClear : ℤ → Option LoanRecovery → Type 0
IsClear delta none = Unit
IsClear delta (some r) = abs (delta +ℤ r.recovery_amount) ≢ 2

-- For a payment with one trusted success whose amount is not as expected, over a loan book with one
-- recovery for each payment at most, and where the recovery does not leave exactly two paise of the
-- delta: the tool says that the recovery reconciles the delta exactly if the ledger check calls the
-- payment a loan recovery.
pub get_loan_recovery_schedule-check_row :
    (gateway : List GatewayRow) (ctx : ToolContext) (results : List MatchResult)
    (ledger before after : List LedgerRow) (led : LedgerRow)
    → Distinct (recovery_ids ctx.loan_book)
    → ctx.report
      ≡ report_of gateway (recoveries ctx.loan_book) results ledger (before ++ led ∷ after)
    → contains (map (λ l. l.transaction_id) before) led.transaction_id ≡ false
    → (s : IsShort gateway led)
    → IsClear
        (net_delta_of led s.primary)
        (find_recovery (recoveries ctx.loan_book) led.transaction_id)
    → (says_reconciled (get_loan_recovery_schedule ctx led.transaction_id).reconciliation ≡ true)
      ↔ ((check_row gateway (recoveries ctx.loan_book) led).verdict.exception_type
          ≡ some ExceptionType.loan_recovery_deduction)
get_loan_recovery_schedule-check_row gateway ctx results ledger before after led apart e h s clear =
    let book = recoveries ctx.loan_book in
    let delta =
      ap (λ report. delta_in (report_row_of report led.transaction_id)) e
      ∙ delta_in-report gateway book results ledger before after led h s in
    let says =
      says_reconciled-schedule ctx ctx.loan_book led.transaction_id (net_delta_of led s.primary)
        refl apart delta in
    let verdict = check_row-recovered gateway book led s in
    (λ p. verdict.1 (sym says ∙ p), λ q. says ∙ verdict.0 q)
