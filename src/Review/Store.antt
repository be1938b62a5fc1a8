-- ===== src/Review/Store.antt =====
-- review_backend/main.py: the tables of the review queue, and `submit_review`.
-- The connection, the clock, the uuid and the append to the correction log are parameters of a
-- call; a call is one transaction, and another call starts after it has committed.
pub mod Effect
pub mod Accepts
pub mod Corrected
pub mod Interleaved
pub mod Histories
pub mod Serve
use close_control.Base.{
  ℕ, String, Option, none, some, List, [], ◌∷◌, ◌++◌, Bool, true, false, not, ◌&&◌, ◌==◌, str_eq,
  length, if◌then◌else◌,
}
use close_control.Review.{Status, Decision, Role, Transition, http_status, next_status}
use close_control.Review.Chain.{Fields, Digest, Row, append_row}
use close_control.Review.Submission.{OverrideField, ReviewSubmission, is_valid_submission}
use close_control.Review.Cases.{
  CaseRow, find_case, get_reviews, derive_status, prior_analyst_reviewer,
}

-- An entry of correction_log.jsonl.
pub record Correction : Type 0 where
  pub transaction_id : String
  pub matcher_exception_type : Option String
  pub override_field : Option OverrideField
  pub override_old_value : Option String
  pub override_new_value : Option String
  pub reason : Option String
  pub reviewer_name : String
  pub created_at : String

-- What a call takes from outside: the new row's id, the uuid, the time, and whether the
-- correction log can be written.
pub record Outside : Type 0 where
  pub row_id : ℕ
  pub review_uuid : String
  pub now : String
  pub log_writable : Bool

pub record Accepted : Type 0 where
  pub review_uuid : String
  pub transaction_id : String
  pub new_status : Status
  pub created_at : String

-- `HTTPException` with its status code.
pub data Response : Type 0 where
  accepted : Accepted → Response
  http_error : ℕ → Response

abbrev pub application_version : String
application_version = "0.1.0"

-- `str(value)` of an optional text.
abbrev python_str : Option String → String
python_str none = "None"
python_str (some text) = text

-- The tables, and the correction log.
pub record Db (Hash : Type 0) : Type 0 where
  pub cases : List CaseRow
  pub reviews : List (Row Hash)
  pub corrections : List Correction

abbrev pub is_override : Decision → Bool
is_override Decision.overridden = true
is_override _ = false

abbrev has_moved : Option ℕ → ℕ → Bool
has_moved none found = false
has_moved (some expected) found = not (expected == found)

-- The override names a value that the column no longer has. No field is named only in a
-- submission that the validation refuses.
abbrev is_stale : CaseRow → ReviewSubmission → Bool
is_stale case_row s = elim s.override_field [
  | none ↦ false
  | some field ↦ not (str_eq (python_str (case_row.column field)) (python_str s.override_old_value))
]

review_fields : Outside → String → ReviewSubmission → Status → Status → Fields
review_fields o transaction_id s current new_status = record {
  review_uuid = o.review_uuid;
  transaction_id = transaction_id;
  reviewer_name = s.reviewer_name;
  reviewer_role = s.reviewer_role;
  decision = s.decision;
  override_field = s.override_field;
  override_old_value = s.override_old_value;
  override_new_value = s.override_new_value;
  notes = s.notes;
  previous_status = current;
  resulting_status = new_status;
  created_at = o.now;
  application_version = application_version;
}

correction : Outside → String → CaseRow → ReviewSubmission → Correction
correction o transaction_id case_row s = record {
  transaction_id = transaction_id;
  matcher_exception_type = case_row.matcher_exception_type;
  override_field = s.override_field;
  override_old_value = s.override_old_value;
  override_new_value = s.override_new_value;
  reason = s.notes;
  reviewer_name = s.reviewer_name;
  created_at = o.now;
}

module _ (d : Digest) where
  open d use {Hash}

  -- The insert, the commit, and the best-effort append to the correction log.
  commit_review :
      Outside → String → CaseRow → ReviewSubmission → Status → Status → Db Hash → Response × Db Hash
  unfolding review_fields correction
  commit_review o id case_row s current new_status db = (
    Response.accepted (record {
      review_uuid = o.review_uuid;
      transaction_id = id;
      new_status = new_status;
      created_at = o.now;
    }),
    record db {
      reviews = append_row d o.row_id (review_fields o id s current new_status) db.reviews;
      corrections =
          if is_override s.decision && o.log_writable
          then db.corrections ++ correction o id case_row s ∷ []
          else db.corrections;
    },
  )

  commit_if :
      Transition
      → Outside
      → String
      → CaseRow
      → ReviewSubmission
      → Status
      → Db Hash
      → Response × Db Hash
  unfolding commit_review
  commit_if (Transition.refused e) o id case_row s current db =
      (Response.http_error (http_status e), db)
  commit_if (Transition.to new_status) o id case_row s current db =
      commit_review o id case_row s current new_status db

  review_case : Outside → String → CaseRow → ReviewSubmission → Db Hash → Response × Db Hash
  unfolding commit_if
  review_case o id case_row s db =
      let reviews = get_reviews id db.reviews in
      let current = derive_status case_row reviews in
      if has_moved s.expected_review_count (length reviews)
      then (Response.http_error 409, db)
      else if is_override s.decision && is_stale case_row s
      then (Response.http_error 422, db)
      else commit_if
          (next_status current case_row.required_approval_tier s.decision s.reviewer_role
            s.reviewer_name (prior_analyst_reviewer reviews))
          o id case_row s current db

  -- `_get_case_row` answers 404 where there is no such case.
  review_found : Option CaseRow → Outside → String → ReviewSubmission → Db Hash → Response × Db Hash
  unfolding review_case
  review_found none o id s db = (Response.http_error 404, db)
  review_found (some case_row) o id s db = review_case o id case_row s db

  unfoldable pub submit_review : Outside → String → ReviewSubmission → Db Hash → Response × Db Hash
  unfolding review_found
  submit_review o id s db = review_found (find_case id db.cases) o id s db

  -- The endpoint: a body that the validation refuses is answered before the handler runs.
  unfoldable pub post_review : Outside → String → ReviewSubmission → Db Hash → Response × Db Hash
  post_review o id s db =
      if is_valid_submission s then submit_review o id s db else (Response.http_error 422, db)
