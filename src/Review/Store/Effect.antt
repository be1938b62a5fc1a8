-- ===== src/Review/Store/Effect.antt =====
-- What `submit_review` of review_backend/main.py does to the tables: it refuses and changes
-- nothing, or it appends one allowed review.
use close_control.Base.{String, ◌≡◌, refl, inl, inr, Option, none, some, ◌&&◌, length, Bool-cases}
use close_control.Review.{Transition, next_status}
use close_control.Review.Submission.{ReviewSubmission, is_valid_submission}
use close_control.Review.Chain.{Fields, Digest, append_row}
use close_control.Review.Cases.{
  CaseRow, find_case, get_reviews, derive_status, prior_analyst_reviewer,
}
use close_control.Review.Cases.History.{Allowed}
use close_control.Review.Store.{
  Outside, Response, Db, has_moved, is_stale, is_override, review_fields, commit_if, review_case,
  review_found, submit_review, post_review,
}

module _ (d : Digest) where
  open d use {Hash}

  pub record Committed (o : Outside) (id : String) (db db' : Db Hash) : Type 0 where
    pub case_row : CaseRow
    pub found : find_case id db.cases ≡ some case_row
    pub fields : Fields
    pub of_case : fields.transaction_id ≡ id
    pub allowed : Allowed case_row (get_reviews id db.reviews) fields
    pub same_cases : db'.cases ≡ db.cases
    pub appended : db'.reviews ≡ append_row d o.row_id fields db.reviews

  -- A call that answers with an error changes nothing; any other commits one review.
  abbrev pub Effect : Outside → String → Db Hash → Response × Db Hash → Type 0
  Effect o id db (Response.http_error code, db') = db' ≡ db
  Effect o id db (Response.accepted a, db') = Committed o id db db'

  commit_if-Effect :
      (t : Transition) (o : Outside) (id : String) (c : CaseRow) (s : ReviewSubmission)
      (db : Db Hash)
      → find_case id db.cases ≡ some c
      → next_status
          (derive_status c (get_reviews id db.reviews))
          c.required_approval_tier
          s.decision
          s.reviewer_role
          s.reviewer_name
          (prior_analyst_reviewer (get_reviews id db.reviews))
        ≡ t
      → Effect o id db (commit_if d t o id c s (derive_status c (get_reviews id db.reviews)) db)
  unfolding commit_if review_fields
  commit_if-Effect (Transition.refused e) o id c s db f n = refl
  commit_if-Effect (Transition.to new_status) o id c s db f n = record {
    case_row = c;
    found = f;
    fields = review_fields o id s (derive_status c (get_reviews id db.reviews)) new_status;
    of_case = refl;
    allowed = record { recorded = refl; allowed = n };
    same_cases = refl;
    appended = refl;
  }

  review_case-Effect :
      (o : Outside) (id : String) (c : CaseRow) (s : ReviewSubmission) (db : Db Hash)
      → find_case id db.cases ≡ some c
      → Effect o id db (review_case d o id c s db)
  unfolding review_case
  review_case-Effect o id c s db f =
      elim (Bool-cases (has_moved s.expected_review_count (length (get_reviews id db.reviews)))) [
        | inl moved ↦ rw (moved, Effect) refl
        | inr same ↦ elim (Bool-cases (is_override s.decision && is_stale c s)) [
          | inl stale ↦ rw (same, stale, Effect) refl
          | inr fits ↦ rw (same, fits, Effect) (commit_if-Effect _ o id c s db f refl)
        ]
      ]

  review_found-Effect :
      (found : Option CaseRow) (o : Outside) (id : String) (s : ReviewSubmission) (db : Db Hash)
      → find_case id db.cases ≡ found
      → Effect o id db (review_found d found o id s db)
  unfolding review_found
  review_found-Effect none o id s db f = refl
  review_found-Effect (some c) o id s db f = review_case-Effect o id c s db f

  pub submit_review-Effect :
      (o : Outside) (id : String) (s : ReviewSubmission) (db : Db Hash)
      → Effect o id db (submit_review d o id s db)
  unfolding submit_review
  submit_review-Effect o id s db = review_found-Effect _ o id s db refl

  -- A request that is answered with an error leaves the tables as they were; any other appends one
  -- chained review of the case, which the state machine allows after the reviews before it.
  pub post_review-Effect :
      (o : Outside) (id : String) (s : ReviewSubmission) (db : Db Hash)
      → Effect o id db (post_review d o id s db)
  unfolding post_review
  post_review-Effect o id s db = elim (Bool-cases (is_valid_submission s)) [
    | inl e ↦ rw (e, Effect) (submit_review-Effect o id s db)
    | inr e ↦ rw (e, Effect) refl
  ]
