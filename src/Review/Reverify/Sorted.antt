-- ===== src/Review/Reverify/Sorted.antt =====
-- The first pass of a re-verification of review_backend/main.py looks at each open case once, and
-- takes for a closing only those that the report calls clean.
use close_control.Base.{
  ◌≡◌, refl, ap, ◌∙◌, ℕ, suc, ◌+◌, String, Option, none, some, List, [], ◌∷◌, Bool, true, false,
  arith, length, keep, Bool-cases, inl, inr,
}
use close_control.Review.{is_open}
use close_control.Review.Chain.{Row}
use close_control.Review.Cases.{CaseRow, get_reviews, derive_status}
use close_control.Review.Reverify.{
  Report, in_report, Sweep, same_type, sort_open, first_pass, status_in, review_count,
}
use close_control.Review.Reverify.Latest.{status_in-derive_status}

abbrev size : Sweep → ℕ
size s = length s.closed_candidates + length s.changed_exception + length s.still_open

sort_open-size :
    (c : CaseRow) (n : ℕ) (found : Option (Option String)) (s : Sweep)
    → size (sort_open c n found s) ≡ suc (size s)
unfolding sort_open
sort_open-size c n none s = omega arith
sort_open-size c n (some none) s = omega arith
sort_open-size c n (some (some current)) s =
    elim (Bool-cases (same_type c.matcher_exception_type current)) [
      | inl e ↦ simp e (omega arith)
      | inr e ↦ simp e (omega arith)
    ]

module _ {Hash : Type 0} (report : Report) (reviews : List (Row Hash)) where
  abbrev pub is_open_case : CaseRow → Bool
  is_open_case c = is_open (derive_status c (get_reviews c.transaction_id reviews))

  pub same_open : (c : CaseRow) → is_open (status_in reviews c) ≡ is_open_case c
  same_open c = ap is_open (status_in-derive_status c reviews)

  pub first_pass-open :
      (c : CaseRow) (cases : List CaseRow)
      → is_open_case c ≡ true
      → first_pass report reviews (c ∷ cases)
        ≡ sort_open c
            (review_count c.transaction_id reviews)
            (in_report report c.transaction_id)
            (first_pass report reviews cases)
  unfolding first_pass
  first_pass-open c cases h = simp (same_open c ∙ h) refl

  pub first_pass-decided :
      (c : CaseRow) (cases : List CaseRow)
      → is_open_case c ≡ false
      → first_pass report reviews (c ∷ cases) ≡ first_pass report reviews cases
  unfolding first_pass
  first_pass-decided c cases h = simp (same_open c ∙ h) refl

  pub first_pass-size :
      (cases : List CaseRow)
      → size (first_pass report reviews cases) ≡ length (keep is_open_case cases)
  unfolding first_pass
  first_pass-size [] = omega arith
  first_pass-size (c ∷ cases) =
      let rest = first_pass-size cases in
      elim (Bool-cases (is_open_case c)) [
        | inl e ↦
            ap size (first_pass-open c cases e)
            ∙ sort_open-size c _ (in_report report c.transaction_id) _
            ∙ ap suc rest
            ∙ simp e refl
        | inr e ↦ ap size (first_pass-decided c cases e) ∙ rest ∙ simp e refl
      ]
