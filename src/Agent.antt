-- ===== src/Agent.antt =====
-- agent/schema.py, agent/config.py and the rows of matching/report.py that the agent is given.
-- A sum in rupees is an integer number of paise; a confidence is a decimal fraction, which every
-- float is, compared exactly.
pub mod Policy
pub mod Evidence
pub mod Gate
use Prim.Native.Nat.{◌^◌}
use close_control.Base.{ℕ, ◌*◌, String, Option, List, [], ◌∷◌, Bool, leb}
use close_control.Base.Int.{ℤ}

-- digits / 10 ^ scale. The code compares floats: of decimals with up to fifteen digits the order is the
-- same.
pub record Decimal : Type 0 where
  pub digits : ℕ
  pub scale : ℕ

-- `x >= percent / 100`
abbrev pub at_least_percent : Decimal → ℕ → Bool
at_least_percent x percent = leb (percent * 10 ^ x.scale) (100 * x.digits)

pub record ExceptionResolution : Type 0 where
  pub exception_type : String
  pub policy_id : String
  pub root_cause : String
  pub evidence_used : List String
  pub recommended_action : String
  pub confidence : Decimal
  pub sufficient_evidence : Bool

-- The fields of a report row; `none` is None, or a missing key.
pub record ReportRow : Type 0 where
  pub transaction_id : Option String
  pub merchant_id : Option String
  pub settlement_id : Option String
  pub final_exception_type : Option String
  pub all_signals : Option (List String)
  pub risk_class : Option String
  pub match_status : Option String
  pub match_pass : Option String
  pub ledger_expected_net : Option ℤ
  pub observed_net : Option ℤ
  pub net_delta : Option ℤ

-- AUTO_RESOLVE_CONFIDENCE_THRESHOLD, 0.85
abbrev pub confidence_threshold_percent : ℕ
confidence_threshold_percent = 85

-- AUTO_RESOLVE_RISK_CEILING_RUPEES, 5000.00
abbrev pub risk_ceiling : ℕ
risk_ceiling = 500000

abbrev pub agent_auto_resolvable_types : List String
agent_auto_resolvable_types = "deemed_success_ambiguous" ∷ []
