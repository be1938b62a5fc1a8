-- ===== src/Review/Seed/Investigations.antt =====
-- Which investigation scripts/seed_review_queue.py gives a case: the last one that has an answer.
use close_control.Base.{
  ◌≡◌, refl, ap, ◌∙◌, String, Option, none, some, List, [], ◌∷◌, Bool, not, ◌&&◌, keep, get_last?,
  Bool-cases, inl, inr, if◌then◌else◌,
}
use close_control.Review.Proposals.{
  Investigation, is_failure_entry, is_for, pick, best_from, load_investigations, real_one,
}

abbrev last_or : {A : Type 0} → Option A → List A → Option A
last_or d [] = d
last_or d (x ∷ xs) = last_or (some x) xs

last_or-get_last? : {A : Type 0} (x : A) (xs : List A) → last_or (some x) xs ≡ get_last? (x ∷ xs)
last_or-get_last? x [] = refl
last_or-get_last? x (y ∷ ys) = last_or-get_last? y ys

last_or_none : {A : Type 0} (xs : List A) → last_or none xs ≡ get_last? xs
last_or_none [] = refl
last_or_none (x ∷ xs) = last_or-get_last? x xs

-- An entry of the payment with an answer.
abbrev pub is_real_for : String → Investigation → Bool
is_real_for id e = is_for id e && not (is_failure_entry e)

real_one-pick :
    (best : Option Investigation) (e : Investigation)
    → real_one (pick best e) ≡ (if is_failure_entry e then real_one best else some e)
real_one-pick none e = refl
real_one-pick (some b) e = elim (Bool-cases (is_failure_entry e)) [
  | inl failed ↦ elim (Bool-cases (is_failure_entry b)) [
    | inl worse ↦ rw (failed, worse, real_one) (rw failed refl)
    | inr better ↦ rw (failed, better, real_one) (rw better refl)
  ]
  | inr real ↦ elim (Bool-cases (is_failure_entry b)) [
    | inl worse ↦ rw (real, worse, real_one) (rw real refl)
    | inr better ↦ rw (real, better, real_one) (rw real refl)
  ]
]

real_one-best_from :
    (best : Option Investigation) (id : String) (log : List Investigation)
    → real_one (best_from best id log) ≡ last_or (real_one best) (keep (is_real_for id) log)
unfolding best_from
real_one-best_from best id [] = refl
real_one-best_from best id (e ∷ log) = elim (Bool-cases (is_for id e)) [
  | inr other ↦ rw other (real_one-best_from best id log)
  | inl own ↦
      let rest = real_one-best_from (pick best e) id log in
      elim (Bool-cases (is_failure_entry e)) [
        | inl failed ↦ rw own (
            rw failed (
              rest
              ∙ ap (λ r. last_or r (keep (is_real_for id) log))
                  (real_one-pick best e ∙ rw failed refl)))
        | inr real ↦ rw own (
            rw real (
              rest
              ∙ ap (λ r. last_or r (keep (is_real_for id) log))
                  (real_one-pick best e ∙ rw real refl)))
      ]
]

-- The investigation that a case is given is the last entry of its payment that has an answer,
-- whatever failed attempts stand after it, and none if there is no such entry.
pub real_one-load_investigations :
    (log : List Investigation) (id : String)
    → real_one (load_investigations log id) ≡ get_last? (keep (is_real_for id) log)
unfolding load_investigations
real_one-load_investigations log id =
    real_one-best_from none id log ∙ last_or_none (keep (is_real_for id) log)
