-- ===== src/Tests/BulkRuns.antt =====
-- The store and the requests of POST /api/cases/bulk-review: one approval for a case and for one
-- that does not exist.
use close_control.Base.{◌≡◌, refl, String, none, [], ◌∷◌, true}
use close_control.Tests.ModelDigest.{model_digest}
use close_control.Review.{Decision, Role}
use close_control.Review.Chain.{intact, verify_chain}
use close_control.Review.Cases.{CaseRow}
use close_control.Review.Store.{Outside, Db}
use close_control.Review.Store.Serve.{initial}
use close_control.Review.Bulk.{BulkReviewRequest, is_valid_bulk}

abbrev pub small_case : CaseRow
small_case = record {
  transaction_id = "TXN1";
  required_approval_tier = 1;
  matcher_exception_type = none;
  investigation_gate_decision = none;
  gate_final_decision = none;
  column = λ field. none;
}

abbrev bulk : BulkReviewRequest
bulk = record {
  transaction_ids = "TXN1" ∷ "TXN9" ∷ [];
  reviewer_name = "asha";
  reviewer_role = Role.analyst;
  decision = Decision.approved;
  notes = none;
}

abbrev pub of_id : String → Outside
of_id id = record { row_id = 1; review_uuid = id; now = "t"; log_writable = true }

abbrev pub queue : Db model_digest.Hash
queue = initial (small_case ∷ [])

pub queue_intact : intact (verify_chain model_digest queue.reviews) ≡ true
unfolding verify_chain
queue_intact = refl

accepted_bulk : is_valid_bulk bulk ≡ true
unfolding is_valid_bulk
accepted_bulk = refl
