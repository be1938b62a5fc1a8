-- ===== src/Tests/OverlapRuns.antt =====
-- Two calls of POST /api/cases/{id}/review that overlap: an approval and an escalation of one case.
use close_control.Base.{◌≡◌, refl, String, none, some, [], ◌∷◌, true}
use close_control.Tests.ModelDigest.{model_digest}
use close_control.Tests.BulkRuns.{small_case, of_id, queue, queue_intact}
use close_control.Review.{Status, Decision, Role, next_status}
use close_control.Review.Chain.{append_row, intact, verify_chain}
use close_control.Review.Cases.{find_case, get_reviews, derive_status, prior_analyst_reviewer}
use close_control.Review.Submission.{ReviewSubmission}
use close_control.Review.Store.{Db, Response, submit_review}
use close_control.Review.Store.Interleaved.{Pending, Decided, decide, commit}
use close_control.Review.Store.Interleaved.Overlap.{
  ◌⇒*◌, commits, done, step, pending_fields, schedule-intact, overlapping_calls_both_commit,
}

abbrev review_by : String → Decision → ReviewSubmission
review_by name decision = record {
  reviewer_name = name;
  reviewer_role = Role.analyst;
  decision = decision;
  override_field = none;
  override_old_value = none;
  override_new_value = none;
  notes = some "seen";
  expected_review_count = some 0;
}

abbrev approval : ReviewSubmission
approval = review_by "asha" Decision.approved

abbrev closing : ReviewSubmission
closing = review_by "ravi" Decision.auto_closed

abbrev pending : String → ReviewSubmission → Status → Pending
pending uuid s new_status = record {
  outside = of_id uuid;
  transaction_id = "TXN1";
  case_row = small_case;
  submission = s;
  current_status = Status.pending;
  new_status = new_status;
}

abbrev approving : Pending
approving = pending "1" approval Status.approved

abbrev closing_too : Pending
closing_too = pending "2" closing Status.auto_closed

both_decide :
    (decide model_digest (of_id "1") "TXN1" approval queue ≡ Decided.decides approving)
    × (decide model_digest (of_id "2") "TXN1" closing queue ≡ Decided.decides closing_too)
unfolding decide next_status find_case get_reviews derive_status prior_analyst_reviewer
both_decide = (refl, refl)

overlapping_calls_both_commit_example :
    (after : Db model_digest.Hash) × ((◌⇒*◌ model_digest (queue, []) (after, []))
      × ((after.reviews
            ≡ append_row model_digest 1
                (pending_fields closing_too)
                (append_row model_digest 1 (pending_fields approving) queue.reviews))
          × ((pending_fields closing_too).previous_status
              ≡ (pending_fields approving).previous_status)))
overlapping_calls_both_commit_example =
    overlapping_calls_both_commit model_digest queue (of_id "1") (of_id "2") "TXN1" approval closing
      approving closing_too both_decide.0 both_decide.1

-- One after the other, the second is refused.
refused_in_turn :
    submit_review model_digest
      (of_id "2")
      "TXN1"
      closing
      (submit_review model_digest (of_id "1") "TXN1" approval queue).1
    ≡ (Response.http_error 409, (submit_review model_digest (of_id "1") "TXN1" approval queue).1)
unfolding submit_review next_status find_case get_reviews derive_status prior_analyst_reviewer
    append_row
refused_in_turn = refl

abbrev after_both : Db model_digest.Hash
after_both = (commit model_digest closing_too (commit model_digest approving queue).1).1

overlap : ◌⇒*◌ model_digest (queue, approving ∷ closing_too ∷ []) (after_both, [])
overlap = step (commits [] (closing_too ∷ []) approving) (step (commits [] [] closing_too) done)

schedule-intact_example : intact (verify_chain model_digest after_both.reviews) ≡ true
schedule-intact_example = schedule-intact model_digest overlap queue_intact
