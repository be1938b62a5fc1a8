-- ===== src/Review/CycleTime/Open.antt =====
-- The cases that review_backend/cycle_time.py counts as open in a status.
use mathlib.Core.List.{append-nil, append_assoc}
use close_control.Base.{
  ◌≡◌, refl, sym, ap, ◌∙◌, String, Option, none, some, List, [], ◌∷◌, ◌++◌, map, Bool, true, false,
  not, inl, inr, arith, str_eq, eq_iff, contains, contains-append, length, keep, get_last?, All,
  All-imp, Bool-cases, Option-cases,
}
use close_control.Base.Int.{ℤ, ◌-ℤ◌}
use close_control.Review.{Status}
use close_control.Review.Chain.{Row}
use close_control.Review.Cases.{
  CaseRow, or_else, get_reviews, resulting, derive_status, derive_status_from_latest,
}
use close_control.Review.Listing.{status_text}
use close_control.Review.CycleTime.{
  Clock, TimedCase, id_of, ByStatus, append_at, entries_at, keys, entry_status, Tally,
  count_reviews, count_case, count_cases, tally_of, stages_of, statuses_in, is_terminal, Stage,
  stage_at, cycle_time_summary,
}
use close_control.Review.CycleTime.Dictionary.{
  entries_at-append_at, keys-append_at, All-map-keep, contains-keep, keys-pairs, length-map,
}

abbrev text_after : String → Option Status → String
text_after before none = before
text_after before (some status) = status_text status

status_of_decision-text :
    (c : CaseRow) → status_text (derive_status_from_latest c none) ≡ entry_status c
unfolding derive_status_from_latest
status_of_decision-text c =
    elim (Option-cases (or_else c.investigation_gate_decision c.gate_final_decision)) [
      | inl e ↦ rw e refl
      | inr (decision, e) ↦ elim (Bool-cases (str_eq decision "auto_resolve")) [
        | inl auto ↦ rw (e, auto) refl
        | inr waits ↦ rw (e, waits) refl
      ]
    ]

text_after-derive_status :
    {Hash : Type 0} (c : CaseRow) (rows : List (Row Hash))
    → status_text (derive_status c rows) ≡ text_after (entry_status c) (resulting (get_last? rows))
unfolding derive_status derive_status_from_latest
text_after-derive_status c rows = elim (Option-cases (resulting (get_last? rows))) [
  | inl e ↦ rw e (status_of_decision-text c)
  | inr (status, e) ↦ rw e refl
]

module _ (clock : Clock) {Hash : Type 0} where
  abbrev time_after : ℤ → Option (Row Hash) → ℤ
  time_after before none = before
  time_after before (some row) = clock.parse row.1.created_at

  abbrev open_since :
      String → String → ℤ → List (Row Hash) → ByStatus (String × ℤ) → ByStatus (String × ℤ)
  open_since id status entered_at rows =
      append_at (text_after status (resulting (get_last? rows)))
        (id, clock.now -ℤ time_after entered_at (get_last? rows))

  -- What stands before the first review is forgotten.
  after_review :
      (id s t : String) (entered_at left_at : ℤ) (row : Row Hash) (rows : List (Row Hash))
      (by_status : ByStatus (String × ℤ))
      → open_since id s entered_at (row ∷ rows) by_status
        ≡ open_since id t left_at (row ∷ rows) by_status
  after_review id s t entered_at left_at row [] by_status = refl
  after_review id s t entered_at left_at row (next ∷ rows) by_status =
      after_review id s t entered_at left_at next rows by_status

  count_reviews-open :
      (id status : String) (entered_at : ℤ) (rows : List (Row Hash)) (tally : Tally)
      → (count_reviews clock id status entered_at rows tally).open_by_status
        ≡ open_since id status entered_at rows tally.open_by_status
  unfolding count_reviews
  count_reviews-open id status entered_at [] tally = refl
  count_reviews-open id status entered_at (row ∷ []) tally = refl
  count_reviews-open id status entered_at (row ∷ next ∷ rows) tally =
      count_reviews-open id (status_text row.1.resulting_status) (clock.parse row.1.created_at)
        (next ∷ rows) _
      ∙ after_review id _ _ _ _ next rows tally.open_by_status

  module _ (reviews : List (Row Hash)) where
    -- The status that the review endpoint derives for the case, as a text.
    abbrev pub current_text : TimedCase → String
    current_text c = status_text (derive_status c.case_row (get_reviews (id_of c) reviews))

    -- The time of the last review of the case, or the time at which it was seeded.
    abbrev pub entered_at : TimedCase → ℤ
    entered_at c = time_after (clock.parse c.seeded_at) (get_last? (get_reviews (id_of c) reviews))

    abbrev pub is_in : String → TimedCase → Bool
    is_in s c = str_eq (current_text c) s

    abbrev pub waiting : TimedCase → String × ℤ
    waiting c = (id_of c, clock.now -ℤ entered_at c)

    count_case-open :
        (c : TimedCase) (tally : Tally)
        → (count_cases clock reviews (c ∷ []) tally).open_by_status
          ≡ append_at (current_text c) (waiting c) tally.open_by_status
    unfolding count_cases
    count_case-open c tally =
        count_reviews-open (id_of c) (entry_status c.case_row) (clock.parse c.seeded_at)
          (get_reviews (id_of c) reviews) tally
        ∙ ap (λ s. append_at s (waiting c) tally.open_by_status)
            (sym (text_after-derive_status c.case_row (get_reviews (id_of c) reviews)))

    count_cases-open :
        (s : String) (cases : List TimedCase) (tally : Tally)
        → entries_at s (count_cases clock reviews cases tally).open_by_status
          ≡ entries_at s tally.open_by_status ++ map waiting (keep (is_in s) cases)
    unfolding count_cases
    count_cases-open s [] tally = sym (append-nil _)
    count_cases-open s (c ∷ cases) tally =
        let here =
          ap (entries_at s) (count_case-open c tally)
          ∙ entries_at-append_at s (current_text c) (waiting c) tally.open_by_status in
        let rest = count_cases-open s cases (count_case clock reviews c tally) in
        elim (Bool-cases (is_in s c)) [
          | inl e ↦
              let added = rw e at here in
              rw e (
                rest
                ∙ (ap (λ xs. xs ++ map waiting (keep (is_in s) cases)) added
                    ∙ append_assoc (entries_at s tally.open_by_status) (waiting c ∷ []) _))
          | inr e ↦
              let same = rw e at here in
              rw e (rest ∙ ap (λ xs. xs ++ map waiting (keep (is_in s) cases)) same)
        ]

    still_there :
        (s : String) (cases : List TimedCase) (tally : Tally)
        → contains (keys tally.open_by_status) s ≡ true
        → contains (keys (count_cases clock reviews cases tally).open_by_status) s ≡ true
    unfolding count_cases
    still_there s [] tally h = h
    still_there s (c ∷ cases) tally h = still_there s cases (count_case clock reviews c tally) (
        ap (λ d. contains (keys d) s) (count_case-open c tally)
        ∙ (keys-append_at s (current_text c) (waiting c) tally.open_by_status ∙ ground (arith, h)))

    abbrev HasKey : Tally → TimedCase → Type 0
    HasKey tally c = contains (keys tally.open_by_status) (current_text c) ≡ true

    count_cases-keys :
        (cases : List TimedCase) (tally : Tally)
        → All (HasKey (count_cases clock reviews cases tally)) cases
    unfolding count_cases
    count_cases-keys [] tally = tt
    count_cases-keys (c ∷ cases) tally = (
      still_there (current_text c) cases (count_case clock reviews c tally) (
          ap (λ d. contains (keys d) (current_text c)) (count_case-open c tally)
          ∙ (keys-append_at (current_text c) (current_text c) (waiting c) tally.open_by_status
              ∙ ground (arith, eq_iff (current_text c) (current_text c)))),
      count_cases-keys cases (count_case clock reviews c tally),
    )

-- A status of the summary with the cases that it counts as open.
abbrev pub Counts :
    {Hash : Type 0} → Clock → List (Row Hash) → List TimedCase → String × Stage → Type 0
Counts clock reviews cases (s, stage) =
    (is_terminal s ≡ false)
    × (stage.currently_open_count ≡ length (keep (is_in clock reviews s) cases))

-- The summary, read against the reviews: each status of it with the cases that it counts, and
-- whether the status of a case is among them.
abbrev pub CountsOpen :
    {Hash : Type 0} → Clock → List TimedCase → List (Row Hash) → List (String × Stage) → Type 0
CountsOpen clock cases reviews by_status =
    All (Counts clock reviews cases) by_status
    × All
        (λ c.
          contains (map (λ entry. entry.0) by_status) (current_text clock reviews c)
          ≡ not (is_terminal (current_text clock reviews c)))
        cases

is_listed :
    {Hash : Type 0} (clock : Clock) (cases : List TimedCase) (reviews : List (Row Hash))
    (s : String)
    → contains (keys (tally_of clock reviews cases).open_by_status) s ≡ true
    → contains (map (λ entry. entry.0) (cycle_time_summary clock cases reviews).by_status) s
      ≡ not (is_terminal s)
unfolding cycle_time_summary stages_of
is_listed clock cases reviews s h =
    let tally = tally_of clock reviews cases in
    let completed = keys tally.completed_by_status in
    let is_shown = λ (s : String). not (is_terminal s) in
    ap (λ names. contains names s)
      (keys-pairs (stage_at clock tally) (keep is_shown (statuses_in tally)))
    ∙ (contains-keep is_shown (statuses_in tally) s
        ∙ ground (
          arith,
          contains-append completed
              (keep (λ s. not (contains completed s)) (keys tally.open_by_status)) s,
          contains-keep (λ s. not (contains completed s)) (keys tally.open_by_status) s,
          h,
        ))

-- The summary counts in each status, which is never one that closes a case, exactly the cases whose
-- status, as the review endpoint derives it from their reviews, is this one; and it has the status
-- of a case exactly if that does not close it.
pub cycle_time_summary-CountsOpen :
    {Hash : Type 0} (clock : Clock) (cases : List TimedCase) (reviews : List (Row Hash))
    → CountsOpen clock cases reviews (cycle_time_summary clock cases reviews).by_status
unfolding cycle_time_summary stages_of entries_at
cycle_time_summary-CountsOpen clock cases reviews =
    let tally = tally_of clock reviews cases in
    let is_shown = λ (s : String). not (is_terminal s) in
    (
      All-map-keep (Counts clock reviews cases) (λ s. (s, stage_at clock tally s)) is_shown
          (statuses_in tally)
          (λ s h. (
            ground (arith, h),
            ap length (count_cases-open clock reviews s cases _)
                ∙ length-map (waiting clock reviews) _,
          )),
      All-imp (λ c. is_listed clock cases reviews (current_text clock reviews c)) cases
          (count_cases-keys clock reviews cases _),
    )
