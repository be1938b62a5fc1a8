-- ===== src/Tests/ReviewRuns.antt =====
-- review_backend: a queue of two cases, and requests on them.
use close_control.Base.{All, ◌≡◌, refl, ◌⊎◌, ◌↔◌, String, none, some, List, [], ◌∷◌, true, ℕ}
use close_control.Tests.ModelDigest.{model_digest, model_digest-CollisionFree}
use close_control.Review.{Status, Decision, Role, Transition, next_status}
use close_control.Review.Submission.{ReviewSubmission, is_valid_submission}
use close_control.Review.Chain.{Fields, Row, intact, verify_chain, append_row}
use close_control.Base.Int.{pos}
use close_control.Matching.LedgerCheck.{LedgerRow}
use close_control.Review.Chain.Audit.{IsAsInserted, with_before, verify_chain-IsAsInserted}
use close_control.Review.Chain.Tamper.{contents, same_head_same_history}
use close_control.Review.Store.Effect.{Effect, post_review-Effect}
use close_control.Review.Sla.{
  is_business_day, add_business_days, business_days_between, sla_for_case,
}
use close_control.Review.Sla.Days.{business_days_between-add_business_days}
use close_control.Review.Cases.{
  CaseRow, find_case, derive_status, get_reviews, prior_analyst_reviewer,
}
use close_control.Review.Cases.FourEyes.{AnalystApproval, ManagerApproval}
use close_control.Review.Store.{Outside, Db, submit_review, post_review}
use close_control.Review.Store.Serve.{Request, initial, serve, reviews_after, serve_four_eyes}

abbrev big_case : CaseRow
big_case = record {
  transaction_id = "TXN1";
  required_approval_tier = 2;
  matcher_exception_type = some "unexplained_shortage";
  investigation_gate_decision = none;
  gate_final_decision = some "escalate";
  column = λ field. none;
}

abbrev approval : String → Role → ReviewSubmission
approval name role = record {
  reviewer_name = name;
  reviewer_role = role;
  decision = Decision.approved;
  override_field = none;
  override_old_value = none;
  override_new_value = none;
  notes = none;
  expected_review_count = none;
}

abbrev outside : ℕ → Outside
outside n = record { row_id = n; review_uuid = "u"; now = "t"; log_writable = true }

-- An analyst, the same person as a manager, and another manager.
abbrev requests : List Request
requests =
    (outside 1, "TXN1", approval "asha" Role.analyst)
    ∷ (outside 2, "TXN1", approval "asha" Role.manager)
    ∷ (outside 3, "TXN1", approval "ravi" Role.manager)
    ∷ []

the_approval :
    derive_status big_case (reviews_after model_digest (big_case ∷ []) requests "TXN1")
    ≡ Status.approved
unfolding serve post_review submit_review is_valid_submission next_status derive_status get_reviews
    find_case append_row prior_analyst_reviewer
the_approval = refl

the_case :
    find_case "TXN1" (serve model_digest requests (initial (big_case ∷ []))).cases ≡ some big_case
unfolding serve post_review submit_review is_valid_submission next_status derive_status get_reviews
    find_case append_row prior_analyst_reviewer
the_case = refl

serve_four_eyes_example :
    (a m : Fields) × AnalystApproval (reviews_after model_digest (big_case ∷ []) requests "TXN1") a
    × ManagerApproval (reviews_after model_digest (big_case ∷ []) requests "TXN1") a m
serve_four_eyes_example =
    serve_four_eyes model_digest (big_case ∷ []) requests "TXN1" big_case the_case refl the_approval

abbrev empty_db : Db model_digest.Hash
empty_db = initial (big_case ∷ [])

empty_is_intact : intact (verify_chain model_digest []) ≡ true
unfolding verify_chain
empty_is_intact = refl

abbrev pub fields : String → Fields
fields uuid = record {
  review_uuid = uuid;
  transaction_id = "TXN1";
  reviewer_name = "asha";
  reviewer_role = Role.analyst;
  decision = Decision.approved;
  override_field = none;
  override_old_value = none;
  override_new_value = none;
  notes = none;
  previous_status = Status.pending;
  resulting_status = Status.pending_manager_approval;
  created_at = "t";
  application_version = "0.1.0";
}

-- A row of a chain, with the digest that it should have.
abbrev chained : ℕ → List (Row model_digest.Hash) → List (Row model_digest.Hash)
chained n rows = append_row model_digest n (fields "u") rows

abbrev first_hash : model_digest.Hash
first_hash = model_digest.compute_chain_hash model_digest.genesis (fields "u")

abbrev second_hash : model_digest.Hash
second_hash = model_digest.compute_chain_hash first_hash (fields "v")

abbrev two_rows : List (Row model_digest.Hash)
two_rows = (1, fields "u", some first_hash) ∷ (2, fields "v", some second_hash) ∷ []

abbrev two_rows_again : List (Row model_digest.Hash)
two_rows_again = (7, fields "u", some first_hash) ∷ (9, fields "v", some second_hash) ∷ []

two_rows-intact : intact (verify_chain model_digest two_rows) ≡ true
unfolding verify_chain
two_rows-intact = refl

two_rows_again-intact : intact (verify_chain model_digest two_rows_again) ≡ true
unfolding verify_chain
two_rows_again-intact = refl

same_head_same_history_example :
    contents model_digest two_rows ≡ contents model_digest two_rows_again
same_head_same_history_example =
    same_head_same_history model_digest model_digest-CollisionFree two_rows two_rows_again tt tt
      two_rows-intact two_rows_again-intact refl

verify_chain-IsAsInserted_example :
    (intact (verify_chain model_digest two_rows) ≡ true)
    ↔ All (IsAsInserted model_digest) (with_before model_digest [] two_rows)
verify_chain-IsAsInserted_example = verify_chain-IsAsInserted model_digest two_rows

post_review-Effect_example :
    Effect model_digest
      (outside 1)
      "TXN1"
      empty_db
      (post_review model_digest (outside 1) "TXN1" (approval "asha" Role.analyst) empty_db)
post_review-Effect_example =
    post_review-Effect model_digest (outside 1) "TXN1" (approval "asha" Role.analyst) empty_db

second_step :
    next_status Status.pending_manager_approval 2 Decision.approved Role.manager "ravi"
      (some "asha")
    ≡ Transition.to Status.approved
unfolding next_status
second_step = refl

closing_step :
    next_status Status.pending 1 Decision.auto_closed Role.analyst "job" none
    ≡ Transition.to Status.auto_closed
unfolding next_status
closing_step = refl

abbrev two_days : ℕ
two_days = 2

-- Two business days after Friday, 27 November 2026.
business_days_between-add_business_days_example :
    (business_days_between 739947 (add_business_days 739947 2) ≡ 2)
    × ((two_days ≡ 0) ⊎ (is_business_day (add_business_days 739947 2) ≡ true))
business_days_between-add_business_days_example = business_days_between-add_business_days 739947 2

abbrev pub led : LedgerRow
led = record {
  transaction_id = "TXN1";
  order_id = "O1";
  merchant_id = "M1";
  expected_net = pos 10000;
  expected_fee = pos 200;
  expected_tax = pos 36;
  expected_settlement_date = 739940;
}

-- The settlement was expected a week before: the deadline is the Wednesday between.
overdue_run : (sla_for_case (led ∷ []) "TXN1" 739947).days_overdue ≡ 2
unfolding sla_for_case business_days_between add_business_days
overdue_run = refl
