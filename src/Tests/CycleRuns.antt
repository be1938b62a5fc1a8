-- ===== src/Tests/CycleRuns.antt =====
-- stats and cycle_time_summary on three cases, one of which an analyst has approved and one both.
use close_control.Base.{
  All, inl, true, ◌≡◌, refl, ℕ, String, none, some, List, [], ◌∷◌, map, codes, length,
}
use close_control.Base.Int.{pos, ◌+ℤ◌, ◌-ℤ◌}
use close_control.Review.{Status}
use close_control.Review.Chain.{Row}
use close_control.Review.Cases.{get_reviews, derive_status_from_latest}
use close_control.Review.CycleTime.{
  Clock, TimedCase, append_at, entries_at, average_at, count_reviews, count_cases, tally_of,
  stages_of, stage_stats, bottleneck_from, cycle_time_summary, sum,
}
use close_control.Review.CycleTime.Open.{CountsOpen, cycle_time_summary-CountsOpen}
use close_control.Review.CycleTime.Elapsed.{counted, age, tally_of-counted}
use close_control.Review.CycleTime.Bottleneck.{IsBottleneck, cycle_time_summary-IsBottleneck}
use close_control.Review.Reverify.{status_in, latest_review_status}
use close_control.Review.Stats.{StatsRow, Stats, stats}
use close_control.Review.Stats.Counted.{Known}
use close_control.Review.Stats.Agrees.{Agrees, stats-Agrees}
use close_control.Tests.BulkRuns.{small_case}
use close_control.Tests.ReviewRuns.{fields, led}

-- A time is read off the length of its text.
abbrev clock : Clock
clock = record {
  parse = λ text. pos (length (codes text));
  now = pos 9;
  round_days = λ total n. total;
  pending_first = true;
}

abbrev queued : String → TimedCase
queued id = record { case_row = record small_case { transaction_id = id }; seeded_at = "..." }

abbrev cases : List TimedCase
cases = queued "TXN1" ∷ queued "TXN2" ∷ queued "TXN3" ∷ []

abbrev review : ℕ → String → String → Status → Row ℕ
review n id at status = (
  n,
  record (fields "u") { transaction_id = id; created_at = at; resulting_status = status },
  none,
)

abbrev reviews : List (Row ℕ)
reviews =
    review 1 "TXN1" "....." Status.pending_manager_approval
    ∷ review 2 "TXN2" "....." Status.pending_manager_approval
    ∷ review 3 "TXN2" "........" Status.approved
    ∷ []

cycle_time_summary-CountsOpen_example :
    CountsOpen clock cases reviews (cycle_time_summary clock cases reviews).by_status
cycle_time_summary-CountsOpen_example = cycle_time_summary-CountsOpen clock cases reviews

tally_of-counted_example : counted (tally_of clock reviews cases) ≡ sum (map (age clock) cases)
tally_of-counted_example = tally_of-counted clock reviews cases

cycle_time_summary-IsBottleneck_example : IsBottleneck (cycle_time_summary clock cases reviews)
cycle_time_summary-IsBottleneck_example = cycle_time_summary-IsBottleneck clock cases reviews

-- The third case waits for its first review for the longest.
pending_is_slowest : (cycle_time_summary clock cases reviews).bottleneck ≡ some ("pending", pos 6)
unfolding cycle_time_summary count_cases count_reviews stages_of stage_stats bottleneck_from
    append_at entries_at average_at get_reviews ◌+ℤ◌ ◌-ℤ◌
pending_is_slowest = refl

abbrev rows : List StatsRow
rows = map (λ c. record { timed = c; amount_at_risk = 100; investigated = true }) cases

rows-Known : All (Known reviews) rows
unfolding status_in latest_review_status derive_status_from_latest
rows-Known = ((refl, inl refl), ((refl, inl refl), ((refl, inl refl), tt)))

stats-Agrees_example :
    (s : Stats) × ((stats (led ∷ []) 739947 clock rows reviews ≡ some s)
      × Agrees (led ∷ []) 739947 rows reviews s)
stats-Agrees_example = stats-Agrees (led ∷ []) 739947 clock rows reviews rows-Known
