-- ===== src/Review/Stats.antt =====
-- review_backend/main.py, GET /api/stats: the counts over the cases, with the summaries of the
-- deadlines and of the cycle times. The part on the cash position (CashPosition) and the flag of the
-- demo, which the handler only passes on, are left out.
pub mod Counted
pub mod Agrees
use close_control.Base.{
  ℕ, ◌+◌, ◌==◌, String, Option, none, some, List, [], ◌∷◌, ◌++◌, map, Bool, leb, str_eq, length,
  if◌then◌else◌,
}
use close_control.Review.{is_open, Status}
use close_control.Review.Chain.{Row}
use close_control.Review.Cases.{CaseRow}
use close_control.Review.Corrections.{same_type}
use close_control.Review.Reverify.{status_in}
use close_control.Review.Listing.{status_text}
use close_control.Matching.LedgerCheck.{LedgerRow}
use close_control.Review.Sla.{SlaSummary, sla_summary}
use close_control.Review.CycleTime.{Clock, TimedCase, Summary, cycle_time_summary}

-- A row of the query over `cases`, with the column that the cycle times read.
pub record StatsRow : Type 0 where
  pub timed : TimedCase
  pub amount_at_risk : ℕ
  pub investigated : Bool

abbrev pub case_of : StatsRow → CaseRow
case_of row = row.timed.case_row

abbrev pub id_of : StatsRow → String
id_of row = row.timed.case_row.transaction_id

-- A dictionary with a number for each of its fixed keys.
abbrev pub Numbers : Type 0
Numbers = List (String × ℕ)

abbrev pub status_keys : List String
status_keys =
    "auto_resolved" ∷ "pending" ∷ "pending_manager_approval" ∷ "approved" ∷ "overridden"
    ∷ "escalated" ∷ "auto_closed" ∷ []

abbrev pub zeros : Numbers
zeros = map (λ key. (key, 0)) status_keys

abbrev pub after : String × ℕ → Option Numbers → Option Numbers
after entry none = none
after entry (some numbers) = some (entry ∷ numbers)

-- `numbers[key] += n`, with `none` for the KeyError.
unfoldable pub add_at : String → ℕ → Numbers → Option Numbers
add_at key n [] = none
add_at key n ((k, m) ∷ numbers) =
    let rest = add_at key n numbers in
    if str_eq k key then some ((k, m + n) ∷ numbers) else after (k, m) rest

unfoldable pub number_at : String → Numbers → ℕ
number_at key [] = 0
number_at key ((k, m) ∷ numbers) =
    let rest = number_at key numbers in if str_eq k key then m else rest

-- `by_tier`, for the tiers 1 and 2.
abbrev pub add_tier : ℕ → ℕ × ℕ → Option (ℕ × ℕ)
add_tier tier (first, second) =
    if tier == 1
    then some (first + 1, second)
    else if tier == 2
    then some (first, second + 1)
    else none

pub record Bucket : Type 0 where
  pub exception_type : Option String
  pub count : ℕ
  pub amount_at_risk : ℕ
  pub investigated_count : ℕ

abbrev one_if : Bool → ℕ
one_if investigated = if investigated then 1 else 0

abbrev add_to_bucket : StatsRow → Bucket → Bucket
add_to_bucket row b = record b {
  count = b.count + 1;
  amount_at_risk = b.amount_at_risk + row.amount_at_risk;
  investigated_count = b.investigated_count + one_if row.investigated;
}

abbrev new_bucket : Option String → Bucket
new_bucket type = record {
  exception_type = type;
  count = 0;
  amount_at_risk = 0;
  investigated_count = 0;
}

-- `by_exception_type.setdefault(et, ...)`, and its three updates.
abbrev add_bucket : StatsRow → List Bucket → List Bucket
add_bucket row [] = add_to_bucket row (new_bucket (case_of row).matcher_exception_type) ∷ []
add_bucket row (b ∷ buckets) =
    let rest = add_bucket row buckets in
    if same_type b.exception_type (case_of row).matcher_exception_type
    then add_to_bucket row b ∷ buckets
    else b ∷ rest

-- `sorted(..., key=lambda kv: -kv[1]["count"])`
abbrev insert_bucket : Bucket → List Bucket → List Bucket
insert_bucket b [] = b ∷ []
insert_bucket b (c ∷ buckets) =
    let rest = insert_bucket b buckets in if leb c.count b.count then b ∷ c ∷ buckets else c ∷ rest

abbrev sort_buckets : List Bucket → List Bucket
sort_buckets [] = []
sort_buckets (b ∷ buckets) = insert_bucket b (sort_buckets buckets)

-- The variables of the loop.
pub record Totals : Type 0 where
  pub counts : Numbers
  pub amount_by_status : Numbers
  pub by_exception_type : List Bucket
  pub by_tier : ℕ × ℕ
  pub investigated_count : ℕ
  pub still_open : List String

abbrev pub with_counts :
    StatsRow → Status → Totals → Option Numbers → Option Numbers → Option (ℕ × ℕ) → Option Totals
with_counts row s t (some counts) (some amounts) (some by_tier) = some (record {
  counts = counts;
  amount_by_status = amounts;
  by_exception_type = add_bucket row t.by_exception_type;
  by_tier = by_tier;
  investigated_count = t.investigated_count + one_if row.investigated;
  still_open = if is_open s then t.still_open ++ id_of row ∷ [] else t.still_open;
})
with_counts row s t _ _ _ = none

-- One turn of the loop, for a case of this status.
unfoldable pub count_row : StatsRow → Status → Totals → Option Totals
unfolding add_at
count_row row s t =
    with_counts row s t (add_at (status_text s) 1 t.counts)
      (add_at (status_text s) row.amount_at_risk t.amount_by_status)
      (add_tier (case_of row).required_approval_tier t.by_tier)

abbrev pub then_count : Option Totals → (Totals → Option Totals) → Option Totals
then_count none rest = none
then_count (some t) rest = rest t

unfoldable pub count_rows :
    {Hash : Type 0} → List (Row Hash) → List StatsRow → Totals → Option Totals
unfolding count_row status_in
count_rows reviews [] t = some t
count_rows reviews (row ∷ rows) t =
    then_count (count_row row (status_in reviews (case_of row)) t) (count_rows reviews rows)

abbrev pub no_totals : Totals
no_totals = record {
  counts = zeros;
  amount_by_status = zeros;
  by_exception_type = [];
  by_tier = (0, 0);
  investigated_count = 0;
  still_open = [];
}

pub record Stats : Type 0 where
  pub total_cases : ℕ
  pub counts_by_status : Numbers
  pub amount_at_risk_by_status : Numbers
  pub exception_type_breakdown : List Bucket
  pub counts_by_tier : ℕ × ℕ
  pub investigated_count : ℕ
  pub sla : SlaSummary
  pub cycle_time : Summary

abbrev pub answer_of :
    {Hash : Type 0}
    → List LedgerRow
    → ℕ
    → Clock
    → List StatsRow
    → List (Row Hash)
    → Option Totals
    → Option Stats
answer_of ledger as_of clock rows reviews none = none
answer_of ledger as_of clock rows reviews (some t) = some (record {
  total_cases = length rows;
  counts_by_status = t.counts;
  amount_at_risk_by_status = t.amount_by_status;
  exception_type_breakdown = sort_buckets t.by_exception_type;
  counts_by_tier = t.by_tier;
  investigated_count = t.investigated_count;
  sla = sla_summary ledger t.still_open as_of;
  cycle_time = cycle_time_summary clock (map (λ row. row.timed) rows) reviews;
})

-- stats(), with `none` for a KeyError.
unfoldable pub stats :
    {Hash : Type 0} → List LedgerRow → ℕ → Clock → List StatsRow → List (Row Hash) → Option Stats
unfolding count_rows sla_summary cycle_time_summary
stats ledger as_of clock rows reviews =
    answer_of ledger as_of clock rows reviews (count_rows reviews rows no_totals)
