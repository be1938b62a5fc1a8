-- ===== src/Review/Reverify.antt =====
-- review_backend/main.py, POST /api/reverify: the cases that are still open and that a fresh run of
-- the matcher finds clean are closed, each by a review of its own. The run of the matcher is the
-- report that it returns, by transaction id; the time and the text of the notes are parameters.
pub mod Latest
pub mod Sorted
pub mod Closing
pub mod Closed
pub mod Candidates
pub mod Run
use close_control.Base.{
  ℕ, suc, ◌+◌, String, Option, none, some, List, [], ◌∷◌, Bool, true, false, str_eq, length, map,
  if◌then◌else◌,
}
use close_control.Review.{Status, Decision, Role, is_open}
use close_control.Review.Chain.{Digest, Row}
use close_control.Review.Submission.{ReviewSubmission}
use close_control.Review.Cases.{CaseRow, derive_status_from_latest, is_of}
use close_control.Review.Store.{Outside, Db, Response, submit_review}

-- The later status, and else this one if it is of the case.
abbrev pub or_this : Option Status → Bool → Status → Option Status
or_this (some later) of_case status = some later
or_this none of_case status = if of_case then some status else none

-- `_latest_review_status_by_txn(conn).get(id)`: the review of the highest id.
unfoldable pub latest_review_status : {Hash : Type 0} → String → List (Row Hash) → Option Status
latest_review_status id [] = none
latest_review_status id (row ∷ rows) =
    or_this (latest_review_status id rows) (is_of id row) row.1.resulting_status

-- `_review_count_by_txn(conn).get(id, 0)`
unfoldable pub review_count : {Hash : Type 0} → String → List (Row Hash) → ℕ
review_count id [] = 0
review_count id (row ∷ rows) =
    let rest = review_count id rows in if is_of id row then suc rest else rest

-- The status of a case as the bulk queries have it.
unfoldable pub status_in : {Hash : Type 0} → List (Row Hash) → CaseRow → Status
unfolding latest_review_status
status_in reviews c = derive_status_from_latest c (latest_review_status c.transaction_id reviews)

-- The report by transaction id, whose ids are different: the final exception type, and none for a
-- clean payment.
abbrev pub Report : Type 0
Report = List (String × Option String)

abbrev pub in_report : Report → String → Option (Option String)
in_report [] id = none
in_report ((key, final) ∷ report) id =
    let rest = in_report report id in if str_eq key id then some final else rest

pub record Candidate : Type 0 where
  pub transaction_id : String
  pub review_count : ℕ
  pub original_exception_type : Option String

pub record Changed : Type 0 where
  pub transaction_id : String
  pub original_exception_type : Option String
  pub current_exception_type : String

-- The lists of the first pass.
pub record Sweep : Type 0 where
  pub closed_candidates : List Candidate
  pub changed_exception : List Changed
  pub still_open : List String

abbrev same_type : Option String → String → Bool
same_type none current = false
same_type (some original) current = str_eq current original

-- One open case, by what the report has of it.
unfoldable pub sort_open : CaseRow → ℕ → Option (Option String) → Sweep → Sweep
sort_open c n none s = record s { still_open = c.transaction_id ∷ s.still_open }
sort_open c n (some none) s = record s {
  closed_candidates =
      record {
        transaction_id = c.transaction_id;
        review_count = n;
        original_exception_type = c.matcher_exception_type;
      }
      ∷ s.closed_candidates;
}
sort_open c n (some (some current)) s =
    if same_type c.matcher_exception_type current
    then record s { still_open = c.transaction_id ∷ s.still_open }
    else record s {
      changed_exception =
          record {
            transaction_id = c.transaction_id;
            original_exception_type = c.matcher_exception_type;
            current_exception_type = current;
          }
          ∷ s.changed_exception;
    }

-- The first pass over the rows of `cases`.
unfoldable pub first_pass : {Hash : Type 0} → Report → List (Row Hash) → List CaseRow → Sweep
unfolding status_in review_count sort_open
first_pass report reviews [] = record {
  closed_candidates = [];
  changed_exception = [];
  still_open = [];
}
first_pass report reviews (c ∷ cases) =
    let rest = first_pass report reviews cases in
    if is_open (status_in reviews c)
    then sort_open c (review_count c.transaction_id reviews) (in_report report c.transaction_id)
        rest
    else rest

unfoldable pub closing : String → ℕ → ReviewSubmission
closing notes n = record {
  reviewer_name = "system:closed-loop-reverification";
  reviewer_role = Role.analyst;
  decision = Decision.auto_closed;
  override_field = none;
  override_old_value = none;
  override_new_value = none;
  notes = some notes;
  expected_review_count = some n;
}

-- The lists of the second pass, without the reasons.
pub record Outcomes : Type 0 where
  pub closed : List String
  pub skipped : List String

abbrev pub outcome_of : String → Response → Outcomes → Outcomes
outcome_of id (Response.accepted a) rest = record rest { closed = id ∷ rest.closed }
outcome_of id (Response.http_error code) rest = record rest { skipped = id ∷ rest.skipped }

pub record Reverification : Type 0 where
  pub checked : ℕ
  pub closed : List String
  pub changed_exception : List Changed
  pub still_open : List String
  pub skipped : List String
  pub dry_run : Bool

abbrev pub response_of : Sweep → Outcomes → Bool → Reverification
response_of s outcomes dry_run = record {
  checked = length s.closed_candidates + length s.changed_exception + length s.still_open;
  closed = outcomes.closed;
  changed_exception = s.changed_exception;
  still_open = s.still_open;
  skipped = outcomes.skipped;
  dry_run = dry_run;
}

module _ (d : Digest) where
  open d use {Hash}

  -- The second pass; `outside` is what the call for a case takes from outside.
  unfoldable pub close_all :
      (String → Outside) → (Option String → String) → List Candidate → Db Hash → Outcomes × Db Hash
  unfolding closing
  close_all outside note [] db = (record { closed = []; skipped = [] }, db)
  close_all outside note (c ∷ candidates) db =
      let id = c.transaction_id in
      let (response, db') =
        submit_review d (outside id) id (closing (note c.original_exception_type) c.review_count)
          db in
      let (outcomes, final) = close_all outside note candidates db' in
      (outcome_of id response outcomes, final)

  -- reverify(payload)
  unfoldable pub reverify :
      (String → Outside)
      → (Option String → String)
      → Report
      → Bool
      → Db Hash
      → Reverification × Db Hash
  unfolding first_pass close_all
  reverify outside note report dry_run db =
      let s = first_pass report db.reviews db.cases in
      if dry_run
      then (
        response_of s
            (record { closed = map (λ c. c.transaction_id) s.closed_candidates; skipped = [] })
            true,
        db,
      )
      else (
        response_of s (close_all outside note s.closed_candidates db).0 false,
        (close_all outside note s.closed_candidates db).1,
      )
