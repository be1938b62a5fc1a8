-- ===== src/Review/CycleTime.antt =====
-- review_backend/cycle_time.py: how long the cases stand in each status. A time is a number of
-- microseconds; a result in days is what the rounding gives, in hundredths of a day. The text of
-- the present time is left out of the summary.
pub mod Dictionary
pub mod Open
pub mod Elapsed
pub mod Bottleneck
use Prim.Native.Nat.{◌/◌, ◌%◌}
use close_control.Base.{
  ℕ, ◌-◌, String, Option, none, some, List, [], ◌∷◌, ◌++◌, map, Bool, true, false, not, ◌==◌,
  str_eq, contains, length, keep, drop, if◌then◌else◌,
}
use close_control.Base.Int.{ℤ, pos, ◌+ℤ◌, ◌-ℤ◌, leb_ℤ, ltb_ℤ}
use close_control.Review.{Status}
use close_control.Review.Chain.{Row}
use close_control.Review.Cases.{CaseRow, or_else, get_reviews}
use close_control.Review.Listing.{status_text}

-- The parsing of a time, `_now()`, the rounded quotient of days, and which of the two statuses of the
-- set OPEN_STATUSES Python comes to first.
pub record Clock : Type 0 where
  pub parse : String → ℤ
  pub now : ℤ
  pub round_days : ℤ → ℕ → ℤ
  pub pending_first : Bool

-- OPEN_STATUSES of state_machine.py, in the order of a loop over it.
abbrev pub open_statuses : Clock → List String
open_statuses clock =
    if clock.pending_first
    then "pending" ∷ "pending_manager_approval" ∷ []
    else "pending_manager_approval" ∷ "pending" ∷ []

-- A row of the query over `cases`.
pub record TimedCase : Type 0 where
  pub case_row : CaseRow
  pub seeded_at : String

abbrev pub id_of : TimedCase → String
id_of c = c.case_row.transaction_id

-- A dictionary from the statuses to lists.
abbrev pub ByStatus : Type 0 → Type 0
ByStatus A = List (String × List A)

-- `by_status.setdefault(status, []).append(x)`
unfoldable pub append_at : {A : Type 0} → String → A → ByStatus A → ByStatus A
append_at status x [] = (status, x ∷ []) ∷ []
append_at status x ((key, xs) ∷ by_status) =
    let rest = append_at status x by_status in
    if str_eq key status then (key, xs ++ x ∷ []) ∷ by_status else (key, xs) ∷ rest

-- `by_status.get(status, [])`
unfoldable pub entries_at : {A : Type 0} → String → ByStatus A → List A
entries_at status [] = []
entries_at status ((key, xs) ∷ by_status) =
    let rest = entries_at status by_status in if str_eq key status then xs else rest

abbrev pub keys : {A : Type 0} → ByStatus A → List String
keys = map (λ entry. entry.0)

abbrev pub status_of_decision : Option String → String
status_of_decision none = "pending"
status_of_decision (some decision) =
    if str_eq decision "auto_resolve" then "auto_resolved" else "pending"

abbrev pub entry_status : CaseRow → String
entry_status c = status_of_decision (or_else c.investigation_gate_decision c.gate_final_decision)

-- The two dictionaries.
pub record Tally : Type 0 where
  pub completed_by_status : ByStatus ℤ
  pub open_by_status : ByStatus (String × ℤ)

abbrev pub close_at : ℤ → String → String → ℤ → ByStatus ℤ → ByStatus (String × ℤ) → Tally
close_at now id current_status entered_at completed open_by_status = record {
  completed_by_status = completed;
  open_by_status = append_at current_status (id, now -ℤ entered_at) open_by_status;
}

module _ (clock : Clock) where
  -- The loop over the reviews of a case, and what follows it.
  unfoldable pub count_reviews :
      {Hash : Type 0} → String → String → ℤ → List (Row Hash) → Tally → Tally
  unfolding append_at
  count_reviews id current_status entered_at [] tally =
      close_at clock.now id current_status entered_at tally.completed_by_status tally.open_by_status
  count_reviews id current_status entered_at (row ∷ rows) tally =
      count_reviews id (status_text row.1.resulting_status) (clock.parse row.1.created_at) rows
        (record tally {
          completed_by_status =
              append_at current_status (clock.parse row.1.created_at -ℤ entered_at)
                tally.completed_by_status;
        })

  abbrev pub count_case : {Hash : Type 0} → List (Row Hash) → TimedCase → Tally → Tally
  count_case reviews c =
      count_reviews (id_of c) (entry_status c.case_row) (clock.parse c.seeded_at)
        (get_reviews (id_of c) reviews)

  -- The loop over the cases.
  unfoldable pub count_cases : {Hash : Type 0} → List (Row Hash) → List TimedCase → Tally → Tally
  unfolding count_reviews get_reviews
  count_cases reviews [] tally = tally
  count_cases reviews (c ∷ cases) tally = count_cases reviews cases (count_case reviews c tally)

  abbrev pub tally_of : {Hash : Type 0} → List (Row Hash) → List TimedCase → Tally
  tally_of reviews cases =
      count_cases reviews cases (record { completed_by_status = []; open_by_status = [] })

abbrev pub sum : List ℤ → ℤ
sum [] = pos 0
sum (x ∷ xs) = x +ℤ sum xs

abbrev insert : ℤ → List ℤ → List ℤ
insert x [] = x ∷ []
insert x (y ∷ ys) = let rest = insert x ys in if leb_ℤ x y then x ∷ y ∷ ys else y ∷ rest

abbrev sorted : List ℤ → List ℤ
sorted [] = []
sorted (x ∷ xs) = insert x (sorted xs)

pub record StageStats : Type 0 where
  pub count : ℕ
  pub mean_days : ℤ
  pub median_days : Option ℤ

-- From `s[n // 2 - 1]` on where n is even, and from `s[n // 2]` on where it is odd.
abbrev median_odd : Clock → List ℤ → Option ℤ
median_odd clock [] = none
median_odd clock (x ∷ _) = some (clock.round_days x 1)

abbrev median_even : Clock → List ℤ → Option ℤ
median_even clock (x ∷ y ∷ _) = some (clock.round_days (x +ℤ y) 2)
median_even clock _ = none

abbrev median : Clock → List ℤ → Option ℤ
median clock s =
    if length s % 2 == 1
    then median_odd clock (drop (length s / 2) s)
    else median_even clock (drop (length s / 2 - 1) s)

-- _stage_stats
unfoldable pub stage_stats : Clock → List ℤ → Option StageStats
stage_stats clock [] = none
stage_stats clock (d ∷ days) = some (record {
  count = length (d ∷ days);
  mean_days = clock.round_days (sum (sorted (d ∷ days))) (length (d ∷ days));
  median_days = median clock (sorted (d ∷ days));
})

abbrev mean_of : Clock → List ℤ → Option ℤ
mean_of clock [] = none
mean_of clock (d ∷ days) = some (clock.round_days (sum (d ∷ days)) (length (d ∷ days)))

-- `max(open_list, key=...)`: the first of the greatest.
abbrev oldest_from : String × ℤ → List (String × ℤ) → String × ℤ
oldest_from best [] = best
oldest_from best (x ∷ xs) = oldest_from (if ltb_ℤ best.1 x.1 then x else best) xs

abbrev oldest_of : List (String × ℤ) → Option (String × ℤ)
oldest_of [] = none
oldest_of (x ∷ xs) = some (oldest_from x xs)

abbrev id_in : Option (String × ℤ) → Option String
id_in none = none
id_in (some x) = some x.0

abbrev days_in : Clock → Option (String × ℤ) → Option ℤ
days_in clock none = none
days_in clock (some x) = some (clock.round_days x.1 1)

pub record Stage : Type 0 where
  pub completed : Option StageStats
  pub currently_open_count : ℕ
  pub currently_open_avg_days : Option ℤ
  pub oldest_open_transaction_id : Option String
  pub oldest_open_days : Option ℤ

-- `status in TERMINAL_STATUSES`
abbrev pub is_terminal : String → Bool
is_terminal = contains ("approved" ∷ "overridden" ∷ "escalated" ∷ "auto_closed" ∷ [])

abbrev pub stage_at : Clock → Tally → String → Stage
stage_at clock tally status =
    let open_list = entries_at status tally.open_by_status in
    record {
      completed = stage_stats clock (entries_at status tally.completed_by_status);
      currently_open_count = length open_list;
      currently_open_avg_days = mean_of clock (map (λ x. x.1) open_list);
      oldest_open_transaction_id = id_in (oldest_of open_list);
      oldest_open_days = days_in clock (oldest_of open_list);
    }

-- `set(completed_by_status) | set(open_by_status)`
abbrev pub statuses_in : Tally → List String
statuses_in tally =
    let completed = keys tally.completed_by_status in
    completed ++ keep (λ s. not (contains completed s)) (keys tally.open_by_status)

-- `by_status`, in the order in which Python goes over the set of the statuses.
unfoldable pub stages_of : Clock → Tally → List (String × Stage)
unfolding stage_stats entries_at
stages_of clock tally =
    map (λ s. (s, stage_at clock tally s)) (keep (λ s. not (is_terminal s)) (statuses_in tally))

unfoldable pub average_at : String → List (String × Stage) → Option ℤ
average_at status [] = none
average_at status ((key, stage) ∷ stages) =
    let rest = average_at status stages in
    if str_eq key status then stage.currently_open_avg_days else rest

abbrev pub Slowest : Type 0
Slowest = Option (String × ℤ)

abbrev pub slower : String → Option ℤ → Slowest → Slowest
slower status none best = best
slower status (some avg) none = some (status, avg)
slower status (some avg) (some best) = if ltb_ℤ best.1 avg then some (status, avg) else some best

unfoldable pub bottleneck_from : List (String × Stage) → Slowest → List String → Slowest
unfolding average_at
bottleneck_from stages best [] = best
bottleneck_from stages best (status ∷ statuses) =
    bottleneck_from stages (slower status (average_at status stages) best) statuses

pub record Summary : Type 0 where
  pub by_status : List (String × Stage)
  pub bottleneck : Slowest

unfoldable pub cycle_time_summary :
    {Hash : Type 0} → Clock → List TimedCase → List (Row Hash) → Summary
unfolding count_cases stages_of bottleneck_from
cycle_time_summary clock cases reviews =
    let stages = stages_of clock (tally_of clock reviews cases) in
    record { by_status = stages; bottleneck = bottleneck_from stages none (open_statuses clock) }
