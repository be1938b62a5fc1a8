-- ===== src/Tests/ListingRuns.antt =====
-- GET /api/cases on three cases, two to a page, and the correction log after an override.
use close_control.Base.{
  ◌≡◌, ◌≤◌, ◌*◌, refl, String, none, some, List, [], ◌∷◌, ℕ, true, length, arith, if◌then◌else◌,
}
use close_control.Base.Int.{pos}
use close_control.Review.{next_status, Status, Decision, Role}
use close_control.Review.Submission.{OverrideField, ReviewSubmission, is_valid_submission}
use close_control.Review.Cases.{
  CaseRow, find_case, derive_status, derive_status_from_latest, get_reviews,
}
use close_control.Review.Chain.{Row}
use close_control.Review.Store.{Response, Accepted, Db, submit_review, post_review}
use close_control.Review.Store.Serve.{initial}
use close_control.Review.Store.Corrected.{entry_of}
use close_control.Review.Corrections.{same_type, line_of, correction_block_for}
use close_control.Review.Corrections.Memory.{correction_block_for-post_review}
use close_control.Review.Reverify.{status_in}
use close_control.Review.Listing.{QueueRow, SortKey, SortDirection, Query, Database, list_cases}
use close_control.Review.Listing.Pages.{first_pages, shown, list_cases-pages}
use close_control.Review.Listing.Answer.{IsAnswer, list_cases-IsAnswer}
use close_control.Tests.ModelDigest.{model_digest}
use close_control.Tests.BulkRuns.{small_case, of_id}

abbrev database : Database
database = record {
  ilike = λ pattern text. true;
  order_by = λ key direction rows. rows;
  order_by_keeps = λ key direction p rows. refl;
}

abbrev queued : String → ℕ → QueueRow
queued id amount = record {
  case_row = record small_case { transaction_id = id };
  amount_at_risk = amount;
}

abbrev cases : List QueueRow
cases = queued "TXN1" 100 ∷ queued "TXN2" 200 ∷ queued "TXN3" 300 ∷ []

abbrev query : Query
query = record {
  exception_type = none;
  status = some "pending";
  min_amount = some (pos 100);
  max_amount = none;
  search = none;
  sort = SortKey.amount_at_risk_rupees;
  sort_direction = SortDirection.desc;
  page = pos 1;
  page_size = pos 2;
}

abbrev no_reviews : List (Row ℕ)
no_reviews = []

enough : length (shown database [] 20 cases no_reviews query) ≤ 2 * 2
unfolding status_in derive_status_from_latest
enough = omega arith

list_cases-pages_example :
    first_pages database [] 20 cases no_reviews query 2
    ≡ shown database [] 20 cases no_reviews query
list_cases-pages_example =
    list_cases-pages database [] 20 cases no_reviews query 2 2 refl refl enough

list_cases-IsAnswer_example :
    IsAnswer database [] 20 cases no_reviews query
      (list_cases database [] 20 cases no_reviews query)
list_cases-IsAnswer_example = list_cases-IsAnswer database [] 20 cases no_reviews query

abbrev typed_case : CaseRow
typed_case = record small_case {
  matcher_exception_type = some "unexplained_shortage";
  column = λ field. some "fee_variance";
}

abbrev overriding : ReviewSubmission
overriding = record {
  reviewer_name = "asha";
  reviewer_role = Role.analyst;
  decision = Decision.overridden;
  override_field = some OverrideField.agent_exception_type;
  override_old_value = some "fee_variance";
  override_new_value = some "unexplained_shortage";
  notes = some "the fees do not add up to it";
  expected_review_count = none;
}

abbrev queue : Db model_digest.Hash
queue = initial (typed_case ∷ [])

abbrev answer : Response × Db model_digest.Hash
answer = post_review model_digest (of_id "R1") "TXN1" overriding queue

abbrev accepted_in : Response → Accepted
accepted_in (Response.accepted a) = a
accepted_in (Response.http_error code) = record {
  review_uuid = "";
  transaction_id = "";
  new_status = Status.pending;
  created_at = "";
}

is_accepted : answer ≡ (Response.accepted (accepted_in answer.0), answer.1)
unfolding post_review is_valid_submission submit_review find_case next_status derive_status
    get_reviews
is_accepted = refl

correction_block_for-post_review_example :
    (c : CaseRow) × ((find_case "TXN1" queue.cases ≡ some c)
      × (correction_block_for (some "unexplained_shortage") answer.1.corrections ≡ (
          if same_type c.matcher_exception_type (some "unexplained_shortage")
          then line_of (entry_of (of_id "R1") "TXN1" c overriding) ∷ []
          else correction_block_for (some "unexplained_shortage") queue.corrections)))
correction_block_for-post_review_example =
    correction_block_for-post_review model_digest (of_id "R1") "TXN1" overriding queue answer.1
      (accepted_in answer.0) (some "unexplained_shortage") is_accepted refl refl
