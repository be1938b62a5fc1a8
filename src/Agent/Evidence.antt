-- ===== src/Agent/Evidence.antt =====
-- agent/evidence.py, the checks of citations and of the root cause, and agent/evidence_check.py.
pub mod Citations
use close_control.Base.{
  String, Option, none, some, List, [], ◌∷◌, ◌++◌, Bool, true, false, not, ◌||◌, str_eq, keep,
  contains, if◌then◌else◌, codes, lower, is_within,
}
use close_control.Base.Int.{ℤ}
use close_control.Agent.{ReportRow}

-- _KNOWN_EVIDENCE_FIELD_NAMES
abbrev known_evidence_field_names : List String
known_evidence_field_names =
    "transaction_id" ∷ "merchant_id" ∷ "settlement_id" ∷ "final_exception_type" ∷ "all_signals"
    ∷ "risk_class" ∷ "match_status" ∷ "match_pass" ∷ "ledger_expected_net_rupees"
    ∷ "observed_net_rupees" ∷ "net_delta_rupees" ∷ []

-- The labels EVIDENCE-1 to EVIDENCE-10, of EVIDENCE_LABEL_COUNT lines.
abbrev evidence_labels : List String
evidence_labels =
    "EVIDENCE-1" ∷ "EVIDENCE-2" ∷ "EVIDENCE-3" ∷ "EVIDENCE-4" ∷ "EVIDENCE-5" ∷ "EVIDENCE-6"
    ∷ "EVIDENCE-7" ∷ "EVIDENCE-8" ∷ "EVIDENCE-9" ∷ "EVIDENCE-10" ∷ []

-- KNOWN_EVIDENCE_FIELDS
unfoldable pub known_evidence_fields : List String
known_evidence_fields = known_evidence_field_names ++ evidence_labels

-- The cited names that were not shown to the agent.
unfoldable pub validate_evidence_citations : List String → List String → List String
validate_evidence_citations evidence_used extra_valid_ids =
    keep (λ name. not (contains (known_evidence_fields ++ extra_valid_ids) name)) evidence_used

-- The decision of the gate, as `final_decision` names it.
pub data FinalDecision : Type 0 where
  auto_resolve escalate : FinalDecision

abbrev contradicting_phrases : FinalDecision → List String
contradicting_phrases FinalDecision.escalate =
    "no further action needed" ∷ "no further action required" ∷ "fully resolved" ∷ "issue resolved"
    ∷ "matter resolved" ∷ "case resolved" ∷ "reconciliation complete"
    ∷ "nothing further to investigate" ∷ "safe to close" ∷ "safe to auto-resolve" ∷ []
contradicting_phrases FinalDecision.auto_resolve =
    "requires manual review" ∷ "requires human review" ∷ "needs manual intervention"
    ∷ "cannot be automatically resolved" ∷ "should be escalated" ∷ "escalate this case"
    ∷ "insufficient evidence to resolve" ∷ "needs further investigation" ∷ []

-- An empty root cause has no phrase in it.
unfoldable pub check_root_cause_contradiction : String → FinalDecision → List String
unfolding lower is_within
check_root_cause_contradiction root_cause decision =
    keep (λ phrase. is_within (codes phrase) (lower (codes root_cause)))
      (contradicting_phrases decision)

-- REQUIRED_EVIDENCE, with `.get(exc_type, [])`.
pub data EvidenceField : Type 0 where
  transaction_id settlement_id match_status all_signals net_delta ledger_expected_net observed_net :
      EvidenceField

amounts : List EvidenceField
amounts = net_delta ∷ ledger_expected_net ∷ observed_net ∷ []

required_evidence : List (String × List EvidenceField)
unfolding amounts
required_evidence =
    ("missing_bank_reference", settlement_id ∷ match_status ∷ [])
    ∷ ("partial_refund", amounts)
    ∷ ("fee_variance", amounts)
    ∷ ("unexplained_shortage", amounts)
    ∷ ("duplicate_payment_detected", transaction_id ∷ all_signals ∷ [])
    ∷ ("signature_verification_failed", transaction_id ∷ [])
    ∷ ("held_for_risk_review", [])
    ∷ ("deemed_success_ambiguous", match_status ∷ settlement_id ∷ [])
    ∷ ("ambiguous_bank_match", settlement_id ∷ match_status ∷ [])
    ∷ ("timing_lag_beyond_t2", settlement_id ∷ [])
    ∷ ("duplicate_retry", [])
    ∷ ("chargeback_received", transaction_id ∷ all_signals ∷ [])
    ∷ ("loan_recovery_deduction", amounts)
    ∷ []

required_for : String → List (String × List EvidenceField) → List EvidenceField
required_for name [] = []
required_for name ((key, fields) ∷ rest) =
    if str_eq key name then fields else required_for name rest

-- `row.get(field) is None or row.get(field) == ""`
abbrev no_text : Option String → Bool
no_text none = true
no_text (some text) = str_eq text ""

abbrev no_value : {A : Type 0} → Option A → Bool
no_value none = true
no_value (some _) = false

abbrev pub is_missing : ReportRow → EvidenceField → Bool
is_missing row transaction_id = no_text row.transaction_id
is_missing row settlement_id = no_text row.settlement_id
is_missing row match_status = no_text row.match_status
is_missing row all_signals = no_value row.all_signals
is_missing row net_delta = no_value row.net_delta
is_missing row ledger_expected_net = no_value row.ledger_expected_net
is_missing row observed_net = no_value row.observed_net

abbrev required : Option String → List EvidenceField
required none = []
required (some name) = required_for name required_evidence

-- check_evidence_complete(report_row)
unfoldable pub check_evidence_complete : ReportRow → Bool × List EvidenceField
unfolding required_for required_evidence
check_evidence_complete row =
    let missing = keep (is_missing row) (required row.final_exception_type) in
    (elim missing [ [] ↦ true | _ ↦ false ], missing)
