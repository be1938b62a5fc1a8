-- ===== src/Review/Cases/History.antt =====
-- The histories of one case of review_backend/main.py: each review was allowed by `next_status`
-- at the status that the reviews before it give.
use mathlib.Core.List.{reverse-append}
use close_control.Base.{ℕ, ◌≡◌, ap, Option, some, List, [], ◌∷◌, ◌++◌, get_last?-concat, arith}
use close_control.Review.{Status, Decision, Role, Transition, next_status}
use close_control.Review.Chain.{Fields, Row}
use close_control.Review.Cases.{
  CaseRow, resulting, derive_status, derive_status_from_latest, prior_analyst_reviewer,
}

module _ {Hash : Type 0} where
  -- `next_status` allows the review with the fields `f` after `rows`, and `f` records its result.
  pub record Allowed (c : CaseRow) (rows : List (Row Hash)) (f : Fields) : Type 0 where
    pub recorded : f.previous_status ≡ derive_status c rows
    pub allowed :
        next_status
          (derive_status c rows)
          c.required_approval_tier
          f.decision
          f.reviewer_role
          f.reviewer_name
          (prior_analyst_reviewer rows)
        ≡ Transition.to f.resulting_status

  pub data History (c : CaseRow) : List (Row Hash) → Type 0 where
    start : History c []
    next :
        {rows all : List (Row Hash)} (id : ℕ) (f : Fields) (h : Option Hash)
        → History c rows
        → Allowed c rows f
        → all ≡ rows ++ (id, f, h) ∷ []
        → History c all

  pub derive_status-concat :
      (c : CaseRow) (rows : List (Row Hash)) (id : ℕ) (f : Fields) (h : Option Hash)
      → derive_status c (rows ++ (id, f, h) ∷ []) ≡ f.resulting_status
  unfolding derive_status
  derive_status-concat c rows id f h =
      ap (λ last. derive_status_from_latest c (resulting last)) (get_last?-concat rows (id, f, h))

  pub prior_analyst_reviewer-concat :
      (rows : List (Row Hash)) (id : ℕ) (f : Fields) (h : Option Hash)
      → f.decision ≡ Decision.approved
      → f.reviewer_role ≡ Role.analyst
      → f.resulting_status ≡ Status.pending_manager_approval
      → prior_analyst_reviewer (rows ++ (id, f, h) ∷ []) ≡ some f.reviewer_name
  unfolding prior_analyst_reviewer
  prior_analyst_reviewer-concat rows id f h p q r = rw reverse-append (ground arith)
