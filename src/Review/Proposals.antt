-- ===== src/Review/Proposals.antt =====
-- scripts/seed_review_queue.py: the lines of the two logs, the investigation that is on record for a
-- payment, and the proposal that a case is opened with.
-- The hash of a proposal (SHA-256 over JSON) and the label of a tool's result are parameters; a
-- missing root cause is an empty one. An amount at risk that is NaN is `none`.
use close_control.Base.{
  ℕ, suc, String, Option, none, some, List, [], ◌∷◌, ◌++◌, Bool, true, not, ◌||◌, str_eq, codes,
  starts, if◌then◌else◌,
}
use close_control.Base.Int.{ℤ}
use close_control.Agent.{ExceptionResolution, ReportRow}
use close_control.Agent.Evidence.{FinalDecision}
use close_control.Agent.Gate.{apply_gate, GateResult}
use close_control.Review.Submission.{OverrideField, is_truthy}

-- A line of audit_log.jsonl.
pub record AuditEntry : Type 0 where
  pub transaction_id : String
  pub agent_exception_type : String
  pub agent_root_cause : Option String
  pub agent_recommended_action : Option String
  pub agent_policy_id : Option String
  pub gate_final_decision : String
  pub gate_amount_at_risk : Option ℕ
  pub timestamp : Option String

-- A line of investigation_log.jsonl, with the names of the tools in its log.
pub record Investigation : Type 0 where
  pub transaction_id : String
  pub resolution : ExceptionResolution
  pub tool_names : List (Option String)
  pub gate_decision : Option String
  pub investigated_at : Option String

pub record Outside : Type 0 where
  pub canonical_hash : AuditEntry → ReportRow → String
  pub tool_label : ℕ → String

-- _is_failure_entry
unfoldable pub is_failure_entry : Investigation → Bool
unfolding starts
is_failure_entry e =
    starts (codes "[INVESTIGATION FAILED TO PRODUCE A FINAL ANSWER") (codes e.resolution.root_cause)

abbrev pub is_for : String → Investigation → Bool
is_for id e = str_eq e.transaction_id id

-- Whether a line replaces what is on record for its payment.
abbrev pub replaces : Option Investigation → Investigation → Bool
replaces none entry = true
replaces (some existing) entry = is_failure_entry existing || not (is_failure_entry entry)

abbrev pub pick : Option Investigation → Investigation → Option Investigation
pick existing entry = if replaces existing entry then some entry else existing

unfoldable pub best_from : Option Investigation → String → List Investigation → Option Investigation
unfolding is_failure_entry
best_from best id [] = best
best_from best id (entry ∷ log) =
    best_from (if is_for id entry then pick best entry else best) id log

-- `_load_investigations(path).get(id)`, over the lines of the file; no file is an empty one.
unfoldable pub load_investigations : List Investigation → String → Option Investigation
unfolding best_from
load_investigations log id = best_from none id log

-- The investigation that _investigation_fields has fields of.
abbrev pub real_one : Option Investigation → Option Investigation
real_one none = none
real_one (some e) = if is_failure_entry e then none else some e

pub data ResolutionSource : Type 0 where
  investigator agent : ResolutionSource

-- The fields of a proposal that the case keeps.
pub record Primary : Type 0 where
  pub column : OverrideField → Option String
  pub gate_final_decision : String
  pub amount_at_risk : Option ℕ
  pub timestamp : Option String

abbrev decision_text : FinalDecision → String
decision_text FinalDecision.auto_resolve = "auto_resolve"
decision_text FinalDecision.escalate = "escalate"

abbrev labels_from : Outside → ℕ → List (Option String) → List String
labels_from o n [] = []
labels_from o n (name ∷ names) = o.tool_label (suc n) ∷ labels_from o (suc n) names

abbrev names_in : List (Option String) → List String
names_in [] = []
names_in (none ∷ names) = names_in names
names_in (some name ∷ names) =
    let rest = names_in names in if is_truthy (some name) then name ∷ rest else rest

abbrev resolution_column : ExceptionResolution → OverrideField → Option String
resolution_column r OverrideField.agent_exception_type = some r.exception_type
resolution_column r OverrideField.agent_root_cause = some r.root_cause
resolution_column r OverrideField.agent_recommended_action = some r.recommended_action
resolution_column r OverrideField.agent_policy_id = some r.policy_id
resolution_column r (OverrideField.other _) = none

-- The amount at risk of a row of the frame: a missing delta is NaN there, and makes the maximum NaN.
abbrev amount_in : Option ℤ → ℕ → Option ℕ
amount_in none amount = none
amount_in (some net_delta) amount = some amount

abbrev pub primary_of_gate : Investigation → ReportRow → Option GateResult → Option Primary
primary_of_gate e row none = none
primary_of_gate e row (some gate) = some (record {
  column = resolution_column e.resolution;
  gate_final_decision = decision_text gate.final_decision;
  amount_at_risk = amount_in row.net_delta gate.amount_at_risk;
  timestamp = e.investigated_at;
})

-- _primary_from_investigation, with the gate recomputed; `none` where it raises.
unfoldable pub primary_from_investigation : Outside → Investigation → ReportRow → Option Primary
primary_from_investigation o e row =
    primary_of_gate e row
      (apply_gate e.resolution row (labels_from o 0 e.tool_names ++ names_in e.tool_names))

abbrev audit_column : AuditEntry → OverrideField → Option String
audit_column e OverrideField.agent_exception_type = some e.agent_exception_type
audit_column e OverrideField.agent_root_cause = e.agent_root_cause
audit_column e OverrideField.agent_recommended_action = e.agent_recommended_action
audit_column e OverrideField.agent_policy_id = e.agent_policy_id
audit_column e (OverrideField.other _) = none

-- _primary_from_audit_entry
unfoldable pub primary_from_audit_entry : AuditEntry → Primary
primary_from_audit_entry e = record {
  column = audit_column e;
  gate_final_decision = e.gate_final_decision;
  amount_at_risk = e.gate_amount_at_risk;
  timestamp = e.timestamp;
}
