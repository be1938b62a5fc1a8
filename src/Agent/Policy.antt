-- ===== src/Agent/Policy.antt =====
-- agent/policy_kb.py: the policy table and its lookup. The texts of a policy that only the prompt
-- shows (description, typical cause, resolution action) are left out.
use close_control.Base.{
  ℕ, String, Option, none, some, List, [], ◌∷◌, Bool, true, false, if◌then◌else◌, codes, lower,
  strip, same_codes,
}

pub data RiskClass : Type 0 where
  low medium high : RiskClass

pub record Policy : Type 0 where
  pub policy_id : String
  pub auto_resolvable : Bool
  pub risk_class : RiskClass

unfoldable pub policy : String → Bool → RiskClass → Policy
policy id auto_resolvable risk_class = record {
  policy_id = id;
  auto_resolvable = auto_resolvable;
  risk_class = risk_class;
}

-- POLICY_KB
policy_kb : List (String × Policy)
unfolding policy
policy_kb =
    ("timing_lag_beyond_t2", policy "POLICY-001" true low)
    ∷ ("fee_variance", policy "POLICY-002" true low)
    ∷ ("duplicate_retry", policy "POLICY-003" true low)
    ∷ ("missing_bank_reference", policy "POLICY-004" false medium)
    ∷ ("partial_refund", policy "POLICY-005" false medium)
    ∷ ("deemed_success_ambiguous", policy "POLICY-006" true medium)
    ∷ ("unexplained_shortage", policy "POLICY-007" false high)
    ∷ ("held_for_risk_review", policy "POLICY-008" false high)
    ∷ ("duplicate_payment_detected", policy "POLICY-009" false high)
    ∷ ("signature_verification_failed", policy "POLICY-010" false high)
    ∷ ("chargeback_received", policy "POLICY-012" false high)
    ∷ ("loan_recovery_deduction", policy "POLICY-013" true low)
    ∷ ("ambiguous_bank_match", policy "POLICY-011" false medium)
    ∷ []

find : List ℕ → List (String × Policy) → Option Policy
unfolding lower same_codes
find key [] = none
find key ((name, p) ∷ rest) = if same_codes (lower (codes name)) key then some p else find key rest

-- get_policy(exception_type): `none` where it raises KeyError.
unfoldable pub get_policy : String → Option Policy
unfolding policy_kb find lower strip
get_policy exception_type = find (strip (lower (codes exception_type))) policy_kb
