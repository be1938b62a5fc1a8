-- ===== src/Agent/Gate.antt =====
-- agent/gate.py: `apply_gate`, the only code that decides between auto-resolving and escalating.
-- The numeric-grounding flags, which are shown to a reviewer and decide nothing, are left out, and
-- so are the texts of the reasons: a reason is a constructor.
pub mod Authority
pub mod Reasons
use Prim.Native.Nat.{max}
use close_control.Base.{
  ℕ, ◌+◌, String, Option, none, some, List, [], ◌∷◌, ◌++◌, Bool, true, false, not, ◌&&◌, ltb,
  str_eq, contains, if◌then◌else◌, is_some_text,
}
use close_control.Base.Int.{ℤ, pos_part, neg_part, abs}
use close_control.Agent.{
  ExceptionResolution, ReportRow, at_least_percent, confidence_threshold_percent, risk_ceiling,
  agent_auto_resolvable_types,
}
use close_control.Agent.Policy.{Policy, get_policy}
use close_control.Agent.Evidence.{
  FinalDecision, validate_evidence_citations, check_root_cause_contradiction,
}

pub data AgentStatus : Type 0 where
  normal_escalation policy_missing reclassification_overridden policy_id_mismatch success :
      AgentStatus

-- The entries of `gate_reasons`.
pub data GateReason : Type 0 where
  no_policy reclassification citation_mismatch not_allowlisted low_confidence insufficient_evidence
        over_ceiling all_satisfied :
      GateReason
  fabricated_citation : List String → GateReason

-- `gate_condition_checks`, in the order of the source.
pub data GateCondition : Type 0 where
  automation_allowlist policy_permits policy_id_match confidence_threshold sufficient_evidence
        under_ceiling citations_valid :
      GateCondition

pub record GateResult : Type 0 where
  pub final_decision : FinalDecision
  pub agent_status : AgentStatus
  pub reclassified : Bool
  pub policy_id_consistent : Bool
  pub gate_reasons : List GateReason
  pub gate_condition_checks : List (GateCondition × Bool)
  pub amount_at_risk : ℕ
  pub unknown_evidence_citations : List String
  pub root_cause_contradiction_flags : List String

-- `abs(x or 0)` of an amount or None. A NaN is not modelled here: Review/Proposals has the amount at
-- risk of a row whose delta is one, and no such row has a type that the gate can resolve.
abbrev magnitude : Option ℤ → ℕ
magnitude none = 0
magnitude (some x) = abs x

-- _compute_amount_at_risk
unfoldable pub compute_amount_at_risk : ReportRow → ℕ
compute_amount_at_risk row = max (magnitude row.net_delta) (magnitude row.ledger_expected_net)

abbrev pub is_allowlisted : Option String → Bool
is_allowlisted none = false
is_allowlisted (some name) = contains agent_auto_resolvable_types name

unfoldable pub is_investigation_worthwhile : ReportRow → Bool
unfolding compute_amount_at_risk
is_investigation_worthwhile row =
    if not (is_allowlisted row.final_exception_type)
    then false
    else ltb (compute_amount_at_risk row) risk_ceiling

abbrev is_nil : {A : Type 0} → List A → Bool
is_nil [] = true
is_nil (_ ∷ _) = false

-- `if c: reasons.append(reason)`
abbrev pub reason_if : Bool → GateReason → List GateReason
reason_if c reason = if c then reason ∷ [] else []

abbrev pub permits : Option Policy → Bool
permits none = false
permits (some p) = p.auto_resolvable

abbrev pub cites : Option Policy → String → Bool
cites none cited = false
cites (some p) cited = str_eq cited p.policy_id

abbrev is_known : Option Policy → Bool
is_known none = false
is_known (some _) = true

-- The first two assignments of `agent_status` that apply win over the later ones.
status_before : Option Policy → Bool → Bool → AgentStatus
status_before none reclassified consistent = policy_missing
status_before (some _) reclassified consistent =
    if reclassified
    then reclassification_overridden
    else if consistent
    then normal_escalation
    else policy_id_mismatch

-- `apply_gate` once the policy has been looked up by the matcher's type.
unfoldable pub decide :
    ExceptionResolution → ReportRow → List String → String → Option Policy → GateResult
unfolding status_before compute_amount_at_risk
decide r row extra matcher_type policy =
    let amount_at_risk = compute_amount_at_risk row in
    let policy_permits = permits policy in
    let reclassified = not (str_eq r.exception_type matcher_type) in
    let consistent = cites policy r.policy_id in
    let allowlisted = is_allowlisted (some matcher_type) in
    let confidence_ok = at_least_percent r.confidence confidence_threshold_percent in
    let risk_ok = ltb amount_at_risk risk_ceiling in
    let unknown = validate_evidence_citations r.evidence_used extra in
    let citations_ok = is_nil unknown in
    let auto_resolve =
      allowlisted && policy_permits && consistent && confidence_ok && r.sufficient_evidence
      && risk_ok && citations_ok in
    let decision = if auto_resolve then FinalDecision.auto_resolve else FinalDecision.escalate in
    record {
      final_decision = decision;
      agent_status = if auto_resolve then success else status_before policy reclassified consistent;
      reclassified = reclassified;
      policy_id_consistent = consistent;
      gate_reasons =
          if auto_resolve
          then all_satisfied ∷ []
          else (reason_if (not (is_known policy)) no_policy
              ++ (reason_if reclassified reclassification
                  ++ (reason_if (is_known policy && not consistent) citation_mismatch
                      ++ (reason_if (not allowlisted) not_allowlisted
                          ++ (reason_if (not confidence_ok) low_confidence
                              ++ (reason_if (not r.sufficient_evidence) insufficient_evidence
                                  ++ (reason_if (not risk_ok) over_ceiling
                                      ++ reason_if (not citations_ok)
                                          (fabricated_citation unknown))))))));
      gate_condition_checks =
          (automation_allowlist, allowlisted)
          ∷ (GateCondition.policy_permits, policy_permits)
          ∷ (policy_id_match, consistent)
          ∷ (confidence_threshold, confidence_ok)
          ∷ (sufficient_evidence, r.sufficient_evidence)
          ∷ (under_ceiling, risk_ok)
          ∷ (citations_valid, citations_ok)
          ∷ [];
      amount_at_risk = amount_at_risk;
      unknown_evidence_citations = unknown;
      root_cause_contradiction_flags = check_root_cause_contradiction r.root_cause decision;
    }

-- apply_gate(resolution, report_row, extra_valid_evidence_ids): `none` where a row without an
-- exception type raises AttributeError in `get_policy`.
unfoldable pub apply_gate : ExceptionResolution → ReportRow → List String → Option GateResult
unfolding decide
apply_gate r row extra = elim row.final_exception_type [
  | none ↦ none
  | some matcher_type ↦ some (decide r row extra matcher_type (get_policy matcher_type))
]
