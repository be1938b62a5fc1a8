-- ===== src/Review/Reverify/Latest.antt =====
-- The bulk queries of review_backend/main.py agree with the reviews of one case.
use close_control.Base.{
  ◌≡◌, refl, ap, ◌∙◌, suc, String, Option, none, some, List, [], ◌∷◌, true, false, length,
  get_last?, keep, Bool, Bool-cases, inl, inr,
}
use close_control.Review.{Status}
use close_control.Review.Chain.{Row}
use close_control.Review.Cases.{
  CaseRow, is_of, resulting, get_reviews, derive_status, derive_status_from_latest,
}
use close_control.Review.Reverify.{or_this, latest_review_status, review_count, status_in}

not_this : (latest : Option Status) (status : Status) → or_this latest false status ≡ latest
not_this none status = refl
not_this (some later) status = refl

module _ {Hash : Type 0} where
  has_last :
      (row : Row Hash) (rows : List (Row Hash)) (of_case : Bool) (status : Status)
      → or_this (resulting (get_last? (row ∷ rows))) of_case status
        ≡ resulting (get_last? (row ∷ rows))
  has_last row [] of_case status = refl
  has_last row (next ∷ rows) of_case status = has_last next rows of_case status

  one_before :
      (row : Row Hash) (kept : List (Row Hash))
      → or_this (resulting (get_last? kept)) true row.1.resulting_status
        ≡ resulting (get_last? (row ∷ kept))
  one_before row [] = refl
  one_before row (next ∷ kept) = has_last next kept true row.1.resulting_status

  latest_is_last :
      (id : String) (rows : List (Row Hash))
      → latest_review_status id rows ≡ resulting (get_last? (get_reviews id rows))
  unfolding latest_review_status get_reviews
  latest_is_last id [] = refl
  latest_is_last id (row ∷ rows) =
      let rest = latest_is_last id rows in
      elim (Bool-cases (is_of id row)) [
        | inl e ↦ simp e (
            ap (λ latest. or_this latest true row.1.resulting_status) rest
            ∙ one_before row (keep (is_of id) rows))
        | inr e ↦ simp e (not_this _ row.1.resulting_status ∙ rest)
      ]

  pub review_count-length :
      (id : String) (rows : List (Row Hash)) → review_count id rows ≡ length (get_reviews id rows)
  unfolding review_count get_reviews
  review_count-length id [] = refl
  review_count-length id (row ∷ rows) =
      let rest = review_count-length id rows in
      elim (Bool-cases (is_of id row)) [ inl e ↦ simp e (ap suc rest) | inr e ↦ simp e rest ]

  -- The status that a case has by the query over all reviews is the one that its own reviews give.
  pub status_in-derive_status :
      (c : CaseRow) (rows : List (Row Hash))
      → status_in rows c ≡ derive_status c (get_reviews c.transaction_id rows)
  unfolding status_in derive_status
  status_in-derive_status c rows =
      ap (derive_status_from_latest c) (latest_is_last c.transaction_id rows)
