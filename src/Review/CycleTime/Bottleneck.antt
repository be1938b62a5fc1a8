-- ===== src/Review/CycleTime/Bottleneck.antt =====
-- The bottleneck of review_backend/cycle_time.py among the open statuses.
use mathlib.Core.Path.{subst}
use close_control.Base.{
  ◌≡◌, refl, sym, ◌∙◌, ◌⊎◌, String, Option, none, some, List, [], ◌∷◌, true, inl, inr, arith,
  eq_iff, contains, All, Bool-cases,
}
use close_control.Base.Int.{ℤ, ◌≤ℤ◌, ltb_ℤ}
use close_control.Review.Chain.{Row}
use close_control.Review.CycleTime.{
  Clock, TimedCase, Stage, Slowest, slower, average_at, bottleneck_from, cycle_time_summary,
  Summary,
}

-- The average is not above that of the bottleneck.
abbrev pub NotAbove : Option ℤ → Slowest → Type 0
NotAbove none slowest = Unit
NotAbove (some avg) none = ⊥
NotAbove (some avg) (some slowest) = avg ≤ℤ slowest.1

-- The bottleneck is one of the statuses, with its average.
abbrev pub IsOneOf : List (String × Stage) → List String → Slowest → Type 0
IsOneOf stages statuses none = Unit
IsOneOf stages statuses (some (s, avg)) =
    (contains statuses s ≡ true) × (average_at s stages ≡ some avg)

-- The bottleneck is one of the statuses that await a person, with its average, and neither of the two
-- has a greater one.
abbrev pub IsBottleneck : Summary → Type 0
IsBottleneck summary =
    IsOneOf summary.by_status ("pending" ∷ "pending_manager_approval" ∷ []) summary.bottleneck
    × (NotAbove (average_at "pending" summary.by_status) summary.bottleneck
        × NotAbove (average_at "pending_manager_approval" summary.by_status) summary.bottleneck)

NotAbove-slower :
    (avg : Option ℤ) (status : String) (next : Option ℤ) (best : Slowest)
    → NotAbove avg best
    → NotAbove avg (slower status next best)
NotAbove-slower none status next best h = tt
NotAbove-slower (some avg) status none best h = h
NotAbove-slower (some avg) status (some next) none h = absurd h
NotAbove-slower (some avg) status (some next) (some best) h =
    elim (Bool-cases (ltb_ℤ best.1 next)) [ inl e ↦ rw e (ground (arith, h, e)) | inr e ↦ rw e h ]

slower-NotAbove :
    (status : String) (next : Option ℤ) (best : Slowest) → NotAbove next (slower status next best)
slower-NotAbove status none best = tt
slower-NotAbove status (some next) none = ground arith
slower-NotAbove status (some next) (some best) = elim (Bool-cases (ltb_ℤ best.1 next)) [
  | inl e ↦ rw e (ground arith)
  | inr e ↦ rw e (ground (arith, e))
]

slower_is :
    (status : String) (next : Option ℤ) (best : Slowest)
    → (slower status next best ≡ best)
      ⊎ ((avg : ℤ) × ((next ≡ some avg) × (slower status next best ≡ some (status, avg))))
slower_is status none best = inl refl
slower_is status (some next) none = inr (next, (refl, refl))
slower_is status (some next) (some best) = elim (Bool-cases (ltb_ℤ best.1 next)) [
  | inl e ↦ inr (next, (refl, rw e refl))
  | inr e ↦ inl (rw e refl)
]

module _ (stages : List (String × Stage)) where
  later_NotAbove :
      (avg : Option ℤ) (statuses : List String) (best : Slowest)
      → NotAbove avg best
      → NotAbove avg (bottleneck_from stages best statuses)
  unfolding bottleneck_from
  later_NotAbove avg [] best h = h
  later_NotAbove avg (status ∷ statuses) best h =
      later_NotAbove avg statuses (slower status (average_at status stages) best)
        (NotAbove-slower avg status (average_at status stages) best h)

  bottleneck_from-NotAbove :
      (statuses : List String) (best : Slowest)
      → All (λ s. NotAbove (average_at s stages) (bottleneck_from stages best statuses)) statuses
  unfolding bottleneck_from
  bottleneck_from-NotAbove [] best = tt
  bottleneck_from-NotAbove (status ∷ statuses) best =
      let now = slower status (average_at status stages) best in
      (
        later_NotAbove (average_at status stages) statuses now
            (slower-NotAbove status (average_at status stages) best),
        bottleneck_from-NotAbove statuses now,
      )

  IsOneOf-cons :
      (status : String) (statuses : List String) (slowest : Slowest)
      → IsOneOf stages statuses slowest
      → IsOneOf stages (status ∷ statuses) slowest
  IsOneOf-cons status statuses none h = tt
  IsOneOf-cons status statuses (some (s, avg)) h = (ground (arith, h.0), h.1)

  bottleneck_from-IsOneOf :
      (statuses : List String) (best : Slowest)
      → (bottleneck_from stages best statuses ≡ best)
        ⊎ IsOneOf stages statuses (bottleneck_from stages best statuses)
  unfolding bottleneck_from
  bottleneck_from-IsOneOf [] best = inl refl
  bottleneck_from-IsOneOf (status ∷ statuses) best =
      let next = average_at status stages in
      elim (bottleneck_from-IsOneOf statuses (slower status next best)) [
        | inl e ↦ elim (slower_is status next best) [
          | inl same ↦ inl (e ∙ same)
          | inr (avg, (found, is_now)) ↦ inr (
              subst (IsOneOf stages (status ∷ statuses)) (sym (e ∙ is_now))
                (ground (arith, eq_iff status status), found))
        ]
        | inr h ↦ inr (IsOneOf-cons status statuses _ h)
      ]

swap-IsOneOf :
    (stages : List (String × Stage)) (s t : String) (slowest : Slowest)
    → IsOneOf stages (s ∷ t ∷ []) slowest
    → IsOneOf stages (t ∷ s ∷ []) slowest
swap-IsOneOf stages s t none h = tt
swap-IsOneOf stages s t (some (status, avg)) h = (ground (arith, h.0), h.1)

of_none :
    (stages : List (String × Stage)) (statuses : List String)
    → IsOneOf stages statuses (bottleneck_from stages none statuses)
of_none stages statuses = elim (bottleneck_from-IsOneOf stages statuses none) [
  | inl e ↦ subst (IsOneOf stages statuses) (sym e) tt
  | inr h ↦ h
]

-- The status that the bottleneck names is one of the two that await a person, with the average that
-- the summary has for it, and neither of the two has a greater average; none is named exactly if
-- neither has an average.
pub cycle_time_summary-IsBottleneck :
    {Hash : Type 0} (clock : Clock) (cases : List TimedCase) (reviews : List (Row Hash))
    → IsBottleneck (cycle_time_summary clock cases reviews)
unfolding cycle_time_summary
cycle_time_summary-IsBottleneck clock cases reviews =
    let stages = (cycle_time_summary clock cases reviews).by_status in
    elim (Bool-cases clock.pending_first) [
      | inl e ↦
          let statuses = "pending" ∷ "pending_manager_approval" ∷ [] in
          let (first, (second, _)) = bottleneck_from-NotAbove stages statuses none in
          rw e (of_none stages statuses, (first, second))
      | inr e ↦
          let statuses = "pending_manager_approval" ∷ "pending" ∷ [] in
          let (first, (second, _)) = bottleneck_from-NotAbove stages statuses none in
          rw e (swap-IsOneOf stages _ _ _ (of_none stages statuses), (second, first))
    ]
