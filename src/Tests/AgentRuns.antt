-- ===== src/Tests/AgentRuns.antt =====
-- agent/: one proposal for a case that the gate may resolve.
use close_control.Base.{◌≡◌, ◌↔◌, refl, String, Option, none, some, [], ◌∷◌, true, false}
use close_control.Base.Int.{ℤ, pos}
use close_control.Agent.{ExceptionResolution, ReportRow}
use close_control.Agent.Policy.{get_policy}
use close_control.Agent.Evidence.{FinalDecision, known_evidence_fields, validate_evidence_citations}
use close_control.Agent.Gate.{
  GateResult, decide, apply_gate, is_investigation_worthwhile, compute_amount_at_risk,
}
use close_control.Agent.Gate.Authority.{Decides, Authorised, auto_resolve-Authorised, decision_of}

abbrev pub proposal : ExceptionResolution
proposal = record {
  exception_type = "deemed_success_ambiguous";
  policy_id = "POLICY-006";
  root_cause = "The gateway has not confirmed the payment.";
  evidence_used = "net_delta_rupees" ∷ [];
  recommended_action = "Resolve.";
  confidence = record { digits = 92; scale = 2 };
  sufficient_evidence = true;
}

abbrev pub row_of : Option String → ℤ → ReportRow
row_of exception_type expected = record {
  transaction_id = some "TXN1";
  merchant_id = some "M1";
  settlement_id = none;
  final_exception_type = exception_type;
  all_signals = none;
  risk_class = some "medium";
  match_status = none;
  match_pass = none;
  ledger_expected_net = some expected;
  observed_net = some expected;
  net_delta = some (pos 0);
}

abbrev pub small_row : ReportRow
small_row = row_of (some "deemed_success_ambiguous") (pos 120000)

abbrev chargeback_row : ReportRow
chargeback_row = row_of (some "chargeback_received") (pos 120000)

auto_resolve-Authorised_example :
    Decides (apply_gate proposal small_row []) FinalDecision.auto_resolve
    ↔ Authorised proposal small_row []
auto_resolve-Authorised_example = auto_resolve-Authorised proposal small_row []

-- Both sides hold here.
resolves : decision_of (apply_gate proposal small_row []) ≡ some FinalDecision.auto_resolve
unfolding apply_gate decide validate_evidence_citations compute_amount_at_risk get_policy
    known_evidence_fields
resolves = refl

not_worth_it : is_investigation_worthwhile chargeback_row ≡ false
unfolding is_investigation_worthwhile
not_worth_it = refl

abbrev the_result : GateResult
the_result =
    decide proposal small_row [] "deemed_success_ambiguous" (get_policy "deemed_success_ambiguous")

result_is : apply_gate proposal small_row [] ≡ some the_result
unfolding apply_gate
result_is = refl
