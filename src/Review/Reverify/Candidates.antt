-- ===== src/Review/Reverify/Candidates.antt =====
-- The candidates that a re-verification of review_backend/main.py has: the open cases that the report
-- calls clean, each ready to be closed.
use mathlib.Core.Path.{subst}
use close_control.Base.{
  ◌≡◌, refl, sym, ap, ◌∙◌, ℕ, String, Option, none, some, List, [], ◌∷◌, Bool, true, false, ◌&&◌,
  ◌||◌, ◌==◌, arith, map, keep, contains, All, Distinct, Bool-cases, inl, inr, str_eq, eq_iff,
  if◌then◌else◌,
}
use close_control.Review.Chain.{Digest, Row}
use close_control.Review.Cases.{CaseRow, find_case}
use close_control.Review.Store.{Db}
use close_control.Review.Reverify.{
  Candidate, Report, in_report, Sweep, sort_open, same_type, first_pass, review_count,
}
use close_control.Review.Reverify.Latest.{review_count-length}
use close_control.Review.Reverify.Sorted.{is_open_case, first_pass-open, first_pass-decided}
use close_control.Review.Reverify.Closing.{Ready, candidate_ids}

All-both :
    {A : Type 0} {P Q R : A → Type 0} (f : (x : A) → P x → Q x → R x) (xs : List A)
    → All P xs
    → All Q xs
    → All R xs
All-both f [] h k = tt
All-both f (x ∷ xs) h k = (f x h.0 k.0, All-both f xs h.1 k.1)

module _ (d : Digest) where
  open d use {Hash}

  abbrev pub case_ids : List CaseRow → List String
  case_ids = map (λ c. c.transaction_id)

  other_case :
      (x : String) (cases : List CaseRow)
      → contains (case_ids cases) x ≡ false
      → All (λ c. str_eq x c.transaction_id ≡ false) cases
  other_case x [] h = tt
  other_case x (c ∷ cases) h = (ground (arith, h), other_case x cases (ground (arith, h)))

  skip_other :
      (x : CaseRow) (cases : List CaseRow) (c : CaseRow)
      → str_eq x.transaction_id c.transaction_id ≡ false
      → find_case c.transaction_id cases ≡ some c
      → find_case c.transaction_id (x ∷ cases) ≡ some c
  unfolding find_case
  skip_other x cases c other own = simp other own

  -- Of cases with different ids, each is found by its own.
  pub each_found :
      (cases : List CaseRow)
      → Distinct (case_ids cases)
      → All (λ c. find_case c.transaction_id cases ≡ some c) cases
  unfolding find_case
  each_found [] h = tt
  each_found (x ∷ cases) h = (
    simp ((eq_iff x.transaction_id x.transaction_id).1 refl) refl,
    All-both (skip_other x cases) cases (other_case x.transaction_id cases h.0)
        (each_found cases h.1),
  )

  abbrev pub finds_clean : Option (Option String) → Bool
  finds_clean none = false
  finds_clean (some none) = true
  finds_clean (some (some current)) = false

  -- An open case that the report calls clean.
  abbrev pub is_closable : Report → List (Row Hash) → CaseRow → Bool
  is_closable report reviews c =
      is_open_case report reviews c && finds_clean (in_report report c.transaction_id)

  abbrev pub KnownTier : CaseRow → Type 0
  KnownTier c = (c.required_approval_tier == 1 || c.required_approval_tier == 2) ≡ true

  module _ (report : Report) (db : Db Hash) where
    abbrev candidates : List CaseRow → List Candidate
    candidates cases = (first_pass report db.reviews cases).closed_candidates

    sorted_ids :
        (c : CaseRow) (n : ℕ) (found : Option (Option String)) (s : Sweep)
        → candidate_ids d (sort_open c n found s).closed_candidates ≡ (
            if finds_clean found
            then c.transaction_id ∷ candidate_ids d s.closed_candidates
            else candidate_ids d s.closed_candidates)
    unfolding sort_open
    sorted_ids c n none s = refl
    sorted_ids c n (some none) s = refl
    sorted_ids c n (some (some current)) s =
        elim (Bool-cases (same_type c.matcher_exception_type current)) [
          | inl e ↦ simp e refl
          | inr e ↦ simp e refl
        ]

    pub candidates-ids :
        (cases : List CaseRow)
        → candidate_ids d (candidates cases) ≡ case_ids (keep (is_closable report db.reviews) cases)
    unfolding first_pass
    candidates-ids [] = refl
    candidates-ids (c ∷ cases) =
        let rest = candidates-ids cases in
        elim (Bool-cases (is_open_case report db.reviews c)) [
          | inl e ↦
              ap (λ s. candidate_ids d s.closed_candidates)
                (first_pass-open report db.reviews c cases e)
              ∙ sorted_ids c _ (in_report report c.transaction_id) _
              ∙ elim (Bool-cases (finds_clean (in_report report c.transaction_id))) [
                | inl f ↦ simp (e, f) (ap (λ ids. c.transaction_id ∷ ids) rest)
                | inr f ↦ simp (e, f) rest
              ]
          | inr e ↦
              ap (λ s. candidate_ids d s.closed_candidates)
                (first_pass-decided report db.reviews c cases e)
              ∙ rest
              ∙ simp e refl
        ]

    -- A candidate is ready.
    sort_open-Ready :
        (c : CaseRow) (n : ℕ) (found : Option (Option String)) (s : Sweep)
        → (Ready d db (record {
          transaction_id = c.transaction_id;
          review_count = n;
          original_exception_type = c.matcher_exception_type;
        }))
        → All (Ready d db) s.closed_candidates
        → All (Ready d db) (sort_open c n found s).closed_candidates
    unfolding sort_open
    sort_open-Ready c n none s h rest = rest
    sort_open-Ready c n (some none) s h rest = (h, rest)
    sort_open-Ready c n (some (some current)) s h rest =
        elim (Bool-cases (same_type c.matcher_exception_type current)) [
          | inl e ↦ rw e rest
          | inr e ↦ rw e rest
        ]

    pub candidates-Ready :
        (cases : List CaseRow)
        → All (λ c. find_case c.transaction_id db.cases ≡ some c) cases
        → All KnownTier cases
        → All (Ready d db) (candidates cases)
    unfolding first_pass
    candidates-Ready [] found tiers = tt
    candidates-Ready (c ∷ cases) found tiers =
        let rest = candidates-Ready cases found.1 tiers.1 in
        elim (Bool-cases (is_open_case report db.reviews c)) [
          | inl e ↦
              subst (λ s. All (Ready d db) s.closed_candidates)
                (sym (first_pass-open report db.reviews c cases e))
                (sort_open-Ready c (review_count c.transaction_id db.reviews)
                  (in_report report c.transaction_id) (first_pass report db.reviews cases)
                  (record {
                    case_row = c;
                    found = found.0;
                    known_tier = tiers.0;
                    open_still = e;
                    counted = review_count-length c.transaction_id db.reviews;
                  })
                  rest)
          | inr e ↦
              subst (λ s. All (Ready d db) s.closed_candidates)
                (sym (first_pass-decided report db.reviews c cases e)) rest
        ]
