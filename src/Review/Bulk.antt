-- ===== src/Review/Bulk.antt =====
-- review_backend/main.py, POST /api/cases/bulk-review, and the body that it takes in
-- review_backend/models.py: one decision for a set of cases. Each call of `submit_review` is a
-- transaction of its own; the messages of the results are left out.
pub mod Outcomes
use Prim.Native.String.{count}
use close_control.Base.{
  ℕ, suc, String, Option, none, some, List, [], ◌∷◌, ◌++◌, Bool, true, false, not, ◌&&◌, leb,
  length, contains, if◌then◌else◌,
}
use close_control.Review.{Status, Decision, Role}
use close_control.Review.Chain.{Digest, Row}
use close_control.Review.Submission.{ReviewSubmission, has_no_reason, is_role}
use close_control.Review.Cases.{CaseRow, find_case, get_reviews}
use close_control.Review.Store.{Outside, Db, Response, submit_review}

pub record BulkReviewRequest : Type 0 where
  pub transaction_ids : List String
  pub reviewer_name : String
  pub reviewer_role : Role
  pub decision : Decision
  pub notes : Option String

abbrev has_duplicates : List String → Bool
has_duplicates [] = false
has_duplicates (id ∷ ids) = let rest = has_duplicates ids in if contains ids id then true else rest

-- The literals of the field, and the rule for the decision.
bulk_decision_rules : Decision → Option String → Bool
unfolding has_no_reason
bulk_decision_rules Decision.approved notes = true
bulk_decision_rules Decision.escalated notes = not (has_no_reason notes)
bulk_decision_rules _ notes = false

unfoldable pub is_valid_bulk : BulkReviewRequest → Bool
unfolding bulk_decision_rules is_role
is_valid_bulk p =
    leb 1 (length p.transaction_ids)
    && leb (length p.transaction_ids) 500
    && leb 1 (count p.reviewer_name)
    && leb (count p.reviewer_name) 200
    && is_role p.reviewer_role
    && bulk_decision_rules p.decision p.notes
    && not (has_duplicates p.transaction_ids)

unfoldable pub submission_of : BulkReviewRequest → ℕ → ReviewSubmission
submission_of p review_count = record {
  reviewer_name = p.reviewer_name;
  reviewer_role = p.reviewer_role;
  decision = p.decision;
  override_field = none;
  override_old_value = none;
  override_new_value = none;
  notes = p.notes;
  expected_review_count = some review_count;
}

pub data Outcome : Type 0 where
  reviewed : String → Status → Outcome
  skipped : String → Outcome

-- The second pass takes an id with the number of its reviews.
abbrev pub Counted : Type 0
Counted = String × ℕ

abbrev pub sort_in :
    Option CaseRow → Counted → List String × List Counted → List String × List Counted
sort_in none (id, n) (missing, counted) = (id ∷ missing, counted)
sort_in (some _) (id, n) (missing, counted) = (missing, (id, n) ∷ counted)

-- The first pass: `missing`, and `review_counts` of ids that stand once.
pub sweep : {Hash : Type 0} → List String → Db Hash → List String × List Counted
sweep [] db = ([], [])
sweep (id ∷ ids) db =
    sort_in (find_case id db.cases) (id, length (get_reviews id db.reviews)) (sweep ids db)

abbrev pub outcome_of : String → Response → Outcome
outcome_of id (Response.accepted a) = Outcome.reviewed id a.new_status
outcome_of id (Response.http_error code) = Outcome.skipped id

abbrev pub missing_outcomes : List String → List Outcome
missing_outcomes [] = []
missing_outcomes (id ∷ ids) = Outcome.skipped id ∷ missing_outcomes ids

pub record BulkResponse : Type 0 where
  pub requested : ℕ
  pub reviewed_count : ℕ
  pub skipped_count : ℕ
  pub results : List Outcome

abbrev pub count_reviewed : List Outcome → ℕ
count_reviewed [] = 0
count_reviewed (Outcome.reviewed id s ∷ rest) = suc (count_reviewed rest)
count_reviewed (Outcome.skipped id ∷ rest) = count_reviewed rest

abbrev pub count_skipped : List Outcome → ℕ
count_skipped [] = 0
count_skipped (Outcome.reviewed id s ∷ rest) = count_skipped rest
count_skipped (Outcome.skipped id ∷ rest) = suc (count_skipped rest)

module _ (d : Digest) where
  open d use {Hash}

  -- The second pass; `outside` is what the call for an id takes from outside.
  pub review_counted :
      (String → Outside) → BulkReviewRequest → List Counted → Db Hash → List Outcome × Db Hash
  unfolding submission_of
  review_counted outside p [] db = ([], db)
  review_counted outside p ((id, n) ∷ counted) db =
      let (response, db') = submit_review d (outside id) id (submission_of p n) db in
      let (results, final) = review_counted outside p counted db' in
      (outcome_of id response ∷ results, final)

  unfoldable pub bulk_review :
      (String → Outside) → BulkReviewRequest → Db Hash → BulkResponse × Db Hash
  unfolding sweep review_counted
  bulk_review outside p db =
      let (missing, counted) = sweep p.transaction_ids db in
      let (results, final) = review_counted outside p counted db in
      let all = missing_outcomes missing ++ results in
      (
        record {
          requested = length p.transaction_ids;
          reviewed_count = count_reviewed all;
          skipped_count = count_skipped all;
          results = all;
        },
        final,
      )
