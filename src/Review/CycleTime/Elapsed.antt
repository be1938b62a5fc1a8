-- ===== src/Review/CycleTime/Elapsed.antt =====
-- The time that review_backend/cycle_time.py counts: none is lost, and none is counted twice.
use close_control.Base.{
  ◌≡◌, refl, sym, ap, ◌∙◌, String, List, [], ◌∷◌, ◌++◌, map, inl, inr, str_eq, Bool-cases,
}
use close_control.Base.Int.{ℤ, pos, ◌+ℤ◌, ◌-ℤ◌, +ℤ_assoc, int_laws}
use close_control.Review.Chain.{Row}
use close_control.Review.Cases.{get_reviews}
use close_control.Review.Listing.{status_text}
use close_control.Review.CycleTime.{
  Clock, TimedCase, id_of, ByStatus, append_at, entry_status, Tally, count_reviews, count_case,
  count_cases, tally_of, sum,
}

+ℤ_swap : (a b c : ℤ) → a +ℤ (b +ℤ c) ≡ b +ℤ (a +ℤ c)
+ℤ_swap a b c = grind int_laws

+ℤ_zero : (a : ℤ) → a +ℤ pos 0 ≡ a
+ℤ_zero a = grind int_laws

zero_+ℤ : (a : ℤ) → pos 0 +ℤ a ≡ a
zero_+ℤ a = grind int_laws

-- From one time to a second, and on to a third.
telescope :
    (a b c done waiting : ℤ)
    → (c -ℤ b) +ℤ (((b -ℤ a) +ℤ done) +ℤ waiting) ≡ (c -ℤ a) +ℤ (done +ℤ waiting)
telescope a b c done waiting = grind int_laws

module _ {A : Type 0} (days : A → ℤ) where
  abbrev pub sum_of : List A → ℤ
  sum_of xs = sum (map days xs)

  abbrev pub total : ByStatus A → ℤ
  total [] = pos 0
  total ((key, xs) ∷ by_status) = sum_of xs +ℤ total by_status

  sum_of-concat : (xs : List A) (x : A) → sum_of (xs ++ x ∷ []) ≡ days x +ℤ sum_of xs
  sum_of-concat [] x = refl
  sum_of-concat (y ∷ xs) x =
      ap (λ rest. days y +ℤ rest) (sum_of-concat xs x) ∙ +ℤ_swap (days y) (days x) (sum_of xs)

  total-append_at :
      (s : String) (x : A) (by_status : ByStatus A)
      → total (append_at s x by_status) ≡ days x +ℤ total by_status
  unfolding append_at
  total-append_at s x [] = ap (λ d. d +ℤ pos 0) (+ℤ_zero (days x))
  total-append_at s x ((key, xs) ∷ by_status) = elim (Bool-cases (str_eq key s)) [
    | inl e ↦ rw e (
        ap (λ d. d +ℤ total by_status) (sum_of-concat xs x)
        ∙ +ℤ_assoc (days x) (sum_of xs) (total by_status))
    | inr e ↦ rw e (
        ap (λ d. sum_of xs +ℤ d) (total-append_at s x by_status)
        ∙ +ℤ_swap (sum_of xs) (days x) (total by_status))
  ]

-- All durations of both dictionaries.
abbrev pub counted : Tally → ℤ
counted tally = total (λ d. d) tally.completed_by_status +ℤ total (λ x. x.1) tally.open_by_status

-- How long the case is in the queue.
abbrev pub age : Clock → TimedCase → ℤ
age clock c = clock.now -ℤ clock.parse c.seeded_at

module _ (clock : Clock) {Hash : Type 0} where
  count_reviews-counted :
      (id status : String) (entered_at : ℤ) (rows : List (Row Hash)) (tally : Tally)
      → counted (count_reviews clock id status entered_at rows tally)
        ≡ (clock.now -ℤ entered_at) +ℤ counted tally
  unfolding count_reviews
  count_reviews-counted id status entered_at [] tally =
      ap (λ d. total (λ d. d) tally.completed_by_status +ℤ d)
        (total-append_at (λ x. x.1) status (id, clock.now -ℤ entered_at) tally.open_by_status)
      ∙ +ℤ_swap _ (clock.now -ℤ entered_at) _
  count_reviews-counted id status entered_at (row ∷ rows) tally =
      let left_at = clock.parse row.1.created_at in
      count_reviews-counted id (status_text row.1.resulting_status) left_at rows _
      ∙ (ap (λ d. (clock.now -ℤ left_at) +ℤ (d +ℤ total (λ x. x.1) tally.open_by_status))
            (total-append_at (λ d. d) status (left_at -ℤ entered_at) tally.completed_by_status)
          ∙ telescope entered_at left_at clock.now _ _)

  count_cases-counted :
      (reviews : List (Row Hash)) (cases : List TimedCase) (tally : Tally)
      → counted (count_cases clock reviews cases tally)
        ≡ sum (map (age clock) cases) +ℤ counted tally
  unfolding count_cases
  count_cases-counted reviews [] tally = sym (zero_+ℤ (counted tally))
  count_cases-counted reviews (c ∷ cases) tally =
      count_cases-counted reviews cases (count_case clock reviews c tally)
      ∙ (ap (λ d. sum (map (age clock) cases) +ℤ d)
            (count_reviews-counted (id_of c) (entry_status c.case_row) (clock.parse c.seeded_at)
              (get_reviews (id_of c) reviews) tally)
          ∙ (+ℤ_swap (sum (map (age clock) cases)) (age clock c) (counted tally)
              ∙ sym (+ℤ_assoc (age clock c) (sum (map (age clock) cases)) (counted tally))))

-- The completed stays and the open ones of all cases add up to the time from the seeding of each
-- case to now, whatever the times of the reviews are.
pub tally_of-counted :
    {Hash : Type 0} (clock : Clock) (reviews : List (Row Hash)) (cases : List TimedCase)
    → counted (tally_of clock reviews cases) ≡ sum (map (age clock) cases)
unfolding count_cases ◌+ℤ◌
tally_of-counted clock reviews cases = count_cases-counted clock reviews cases _ ∙ +ℤ_zero _
