-- ===== src/Review/Stats/Agrees.antt =====
-- The answer of GET /api/stats agrees with the tables, and its parts with each other.
use close_control.Base.{
  ◌≡◌, refl, sym, ap, ◌∙◌, ℕ, String, some, List, [], ◌∷◌, map, arith, str_eq, length, keep, All,
  All-imp,
}
use close_control.Matching.LedgerCheck.{LedgerRow}
use close_control.Review.Chain.{Row}
use close_control.Review.Reverify.Latest.{status_in-derive_status}
use close_control.Review.Listing.{status_text}
use close_control.Review.Sla.{sla_summary}
use close_control.Review.CycleTime.{Clock, Stage}
use close_control.Review.CycleTime.Open.{is_in, cycle_time_summary-CountsOpen}
use close_control.Review.Stats.{
  StatsRow, case_of, id_of, status_keys, number_at, no_totals, Stats, answer_of, stats,
}
use close_control.Review.Stats.Counted.{amount_of, in_status, waits, Known, count_rows-Counted}

-- The answer, read against the tables: the number and the sum of each status are those of the cases
-- with this status, the deadlines are those of the open cases, and every status of the cycle times
-- waits for as many cases as are counted under it.
pub record Agrees {Hash : Type 0} (ledger : List LedgerRow) (as_of : ℕ) (rows : List StatsRow)
    (reviews : List (Row Hash)) (s : Stats) : Type 0 where
  total : s.total_cases ≡ length rows
  counts :
      (key : String) → number_at key s.counts_by_status ≡ length (keep (in_status reviews key) rows)
  amounts :
      (key : String)
      → number_at key s.amount_at_risk_by_status ≡ amount_of (keep (in_status reviews key) rows)
  deadlines : s.sla ≡ sla_summary ledger (map id_of (keep (waits reviews) rows)) as_of
  stages :
      All
        (λ (entry : String × Stage).
          entry.1.currently_open_count ≡ number_at entry.0 s.counts_by_status)
        s.cycle_time.by_status

number_at-zeros : (key : String) (keys : List String) → number_at key (map (λ k. (k, 0)) keys) ≡ 0
unfolding number_at
number_at-zeros key [] = refl
number_at-zeros key (k ∷ keys) = ground (arith, number_at-zeros key keys)

same_cases :
    {Hash : Type 0} (clock : Clock) (reviews : List (Row Hash)) (key : String)
    (rows : List StatsRow)
    → length (keep (is_in clock reviews key) (map (λ row. row.timed) rows))
      ≡ length (keep (in_status reviews key) rows)
same_cases clock reviews key [] = refl
same_cases clock reviews key (row ∷ rows) =
    let rest = same_cases clock reviews key rows in
    let same =
      ap (λ s. str_eq (status_text s) key) (status_in-derive_status (case_of row) reviews) in
    ground (arith, rest, same)

-- For cases that have one of the seven statuses and a tier of 1 or 2, the request is answered. The
-- number and the sum under each status are those of the cases with this status, the summary of the
-- deadlines is that of the open cases, and each status of the cycle times has as many cases waiting
-- as are counted under it.
pub stats-Agrees :
    {Hash : Type 0} (ledger : List LedgerRow) (as_of : ℕ) (clock : Clock) (rows : List StatsRow)
    (reviews : List (Row Hash))
    → All (Known reviews) rows
    → (s : Stats) × ((stats ledger as_of clock rows reviews ≡ some s)
        × Agrees ledger as_of rows reviews s)
unfolding stats
stats-Agrees ledger as_of clock rows reviews known =
    let c = count_rows-Counted reviews rows no_totals refl refl known in
    let cycle = (cycle_time_summary-CountsOpen clock (map (λ row. row.timed) rows) reviews).0 in
    let counts = λ (key : String). c.counts key ∙ omega (arith, number_at-zeros key status_keys) in
    (
      _,
      (
        ap (answer_of ledger as_of clock rows reviews) c.ends,
        record {
          total = refl;
          counts = counts;
          amounts = λ key. c.amounts key ∙ omega (arith, number_at-zeros key status_keys);
          deadlines = ap (λ ids. sla_summary ledger ids as_of) c.open_ids;
          stages =
              All-imp
                (λ entry h. h.1 ∙ (same_cases clock reviews entry.0 rows ∙ sym (counts entry.0))) _
                cycle;
        },
      ),
    )
