-- ===== src/Review/Store/Accepts.antt =====
-- When `submit_review` of review_backend/main.py accepts a review that is no override.
use close_control.Base.{◌≡◌, refl, String, some, length, false, arith, ℕ, Option}
use close_control.Review.{Status, Transition, next_status}
use close_control.Review.Chain.{Fields, Digest, append_row}
use close_control.Review.Submission.{ReviewSubmission}
use close_control.Review.Cases.{
  CaseRow, find_case, get_reviews, derive_status, prior_analyst_reviewer,
}
use close_control.Review.Store.{
  Outside, Response, Accepted, Db, has_moved, is_override, review_fields, commit_if, commit_review,
  review_case, review_found, submit_review,
}

module _ (d : Digest) where
  open d use {Hash}

  -- The call is accepted, and appends a review of the case with this result.
  pub record Commits (o : Outside) (id : String) (s : ReviewSubmission) (new_status : Status)
      (db : Db Hash) : Type 0 where
    pub after : Db Hash
    pub accepted : Accepted
    pub answers : submit_review d o id s db ≡ (Response.accepted accepted, after)
    pub same_cases : after.cases ≡ db.cases
    pub fields : Fields
    pub of_case : fields.transaction_id ≡ id
    pub gives : fields.resulting_status ≡ new_status
    pub appended : after.reviews ≡ append_row d o.row_id fields db.reviews

  count_holds : (expected : Option ℕ) (n : ℕ) → expected ≡ some n → has_moved expected n ≡ false
  count_holds expected n h = simp h (ground arith)

  pub submit_review-Commits :
      (o : Outside) (id : String) (s : ReviewSubmission) (new_status : Status) (db : Db Hash)
      (c : CaseRow)
      → find_case id db.cases ≡ some c
      → s.expected_review_count ≡ some (length (get_reviews id db.reviews))
      → is_override s.decision ≡ false
      → next_status
          (derive_status c (get_reviews id db.reviews))
          c.required_approval_tier
          s.decision
          s.reviewer_role
          s.reviewer_name
          (prior_analyst_reviewer (get_reviews id db.reviews))
        ≡ Transition.to new_status
      → Commits o id s new_status db
  unfolding submit_review review_found review_case commit_if commit_review review_fields
  submit_review-Commits o id s new_status db c found count plain next =
      let current = derive_status c (get_reviews id db.reviews) in
      let done = commit_review d o id c s current new_status db in
      let same = count_holds s.expected_review_count _ count in
      record {
        after = done.1;
        accepted = record {
          review_uuid = o.review_uuid;
          transaction_id = id;
          new_status = new_status;
          created_at = o.now;
        };
        answers = simp (found, same, plain, next) refl;
        same_cases = refl;
        fields = review_fields o id s current new_status;
        of_case = refl;
        gives = refl;
        appended = refl;
      }
