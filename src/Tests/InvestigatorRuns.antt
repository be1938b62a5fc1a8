-- ===== src/Tests/InvestigatorRuns.antt =====
-- investigator/loop.py with a model that asks for a tool once, and then fails while it goes on
-- claiming sufficient evidence.
use close_control.Base.{
  refl, ℕ, String, Option, none, some, List, [], ◌∷◌, true, ◌==◌, if◌then◌else◌,
}
use close_control.Base.Int.{pos}
use close_control.Agent.{ExceptionResolution, ReportRow}
use close_control.Agent.Evidence.{FinalDecision}
use close_control.Agent.Gate.{apply_gate}
use close_control.Agent.Gate.Authority.{Decides}
use close_control.Investigator.{
  Outside, Reply, Parsed, StoppedReason, InvestigationResult, investigate, tool_rounds, after_reply,
  final_answer, tool_evidence_ids,
}
use close_control.Investigator.Bounds.{Keeps, investigate-Keeps}
use close_control.Investigator.Verdict.{failed_round_is_not_resolved}

abbrev claim : ExceptionResolution
claim = record {
  exception_type = "deemed_success_ambiguous";
  policy_id = "POLICY-006";
  root_cause = "presumed success";
  evidence_used = [];
  recommended_action = "close";
  confidence = record { digits = 99; scale = 2 };
  sufficient_evidence = true;
}

abbrev chat : ℕ → List String → Reply String
chat step messages =
    if step == 1
    then Reply.said "looking" (record { name = some "compute_delta"; arguments = "{}" } ∷ [])
    else Reply.round_failed "timeout"

abbrev model : Outside
model = record {
  Message = String;
  Result = String;
  chat_with_tools = chat;
  run_tool = λ name arguments. some "0.00";
  unknown_tool = λ name. "unknown tool";
  raised = λ name. "raised";
  tool_message = λ result. result;
  schema_instruction = "answer in JSON";
  final_call = λ messages. some "{}";
  retry_messages = λ content. content ∷ [];
  parse = λ content. Parsed.verdict claim;
  overridden_text = λ cause error. cause;
  tool_label = λ n. "TOOL";
}

abbrev result_in : Option (InvestigationResult model) → InvestigationResult model
result_in (some result) = result
result_in none = record {
  resolution = claim;
  investigation_log = [];
  tool_rounds_used = 0;
  stopped_reason = StoppedReason.model_finished;
}

abbrev result : InvestigationResult model
result = result_in (investigate model (some "deemed_success_ambiguous") [])

abbrev row : ReportRow
row = record {
  transaction_id = some "TXN1";
  merchant_id = some "M1";
  settlement_id = none;
  final_exception_type = some "deemed_success_ambiguous";
  all_signals = none;
  risk_class = some "medium";
  match_status = none;
  match_pass = none;
  ledger_expected_net = some (pos 10000);
  observed_net = none;
  net_delta = none;
}

investigate-Keeps_example : Keeps model (investigate model (some "deemed_success_ambiguous") [])
investigate-Keeps_example = investigate-Keeps model (some "deemed_success_ambiguous") []

failed_round_is_not_resolved_example :
    ¬ Decides
      (apply_gate result.resolution row (tool_evidence_ids model result))
      FinalDecision.auto_resolve
unfolding investigate tool_rounds after_reply final_answer
failed_round_is_not_resolved_example =
    failed_round_is_not_resolved model (some "deemed_success_ambiguous") [] result "timeout" row
      refl refl
