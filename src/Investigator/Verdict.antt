-- ===== src/Investigator/Verdict.antt =====
-- An investigation that was cut short by a failure authorises nothing at agent/gate.py.
use mathlib.Core.Path.{subst}
use close_control.Base.{
  ◌≡◌, refl, ap, ◌∙◌, Option, none, some, String, List, [], false, arith, Bool-cases, inl, inr,
}
use close_control.Agent.{ExceptionResolution, ReportRow}
use close_control.Agent.Evidence.{FinalDecision}
use close_control.Agent.Gate.{apply_gate}
use close_control.Agent.Gate.Authority.{Decides, auto_resolve-Authorised}
use close_control.Investigator.{
  Outside, StoppedReason, Rounds, Parsed, InvestigationResult, investigate, validated, override,
  failed_round, tool_evidence_ids, tool_rounds, max_tool_rounds,
}

module _ (o : Outside) where
  open o use {Message}

  override-insufficient :
      (error : String) (r : ExceptionResolution)
      → (override o (some error) r).sufficient_evidence ≡ false
  override-insufficient error r = elim (Bool-cases r.sufficient_evidence) [
    | inl e ↦ simp e refl
    | inr e ↦ simp e refl
  ]

  -- A result after a failed round claims no sufficient evidence.
  abbrev IsHonest : Option (InvestigationResult o) → Type 0
  IsHonest none = Unit
  IsHonest (some result) =
      (error : String)
      → result.stopped_reason ≡ StoppedReason.tool_round_failed error
      → result.resolution.sufficient_evidence ≡ false

  overridden-IsHonest :
      (rounds : Rounds o) (r : ExceptionResolution) (error : String)
      → rounds.stopped_reason ≡ StoppedReason.tool_round_failed error
      → (override o (failed_round o rounds.stopped_reason) r).sufficient_evidence ≡ false
  overridden-IsHonest rounds r error e =
      ap (λ reason. (override o (failed_round o reason) r).sufficient_evidence) e
      ∙ override-insufficient error r

  validated-IsHonest :
      (rounds : Rounds o) (matcher_type : Option String) (parsed : Parsed)
      → IsHonest (validated o rounds matcher_type parsed)
  validated-IsHonest rounds matcher_type Parsed.not_json = overridden-IsHonest rounds _
  validated-IsHonest rounds matcher_type Parsed.refused = tt
  validated-IsHonest rounds matcher_type (Parsed.verdict r) = overridden-IsHonest rounds r

  investigate-IsHonest :
      (matcher_type : Option String) (messages : List Message)
      → IsHonest (investigate o matcher_type messages)
  unfolding investigate
  investigate-IsHonest matcher_type messages =
      validated-IsHonest
        (tool_rounds o max_tool_rounds 0 (record { messages = messages; investigation_log = [] }))
        matcher_type _

  -- After a round that failed, the gate does not auto-resolve the result of the investigation,
  -- whatever the final answer claims.
  pub failed_round_is_not_resolved :
      (matcher_type : Option String) (messages : List Message) (result : InvestigationResult o)
      (error : String) (row : ReportRow)
      → investigate o matcher_type messages ≡ some result
      → result.stopped_reason ≡ StoppedReason.tool_round_failed error
      → ¬ Decides
          (apply_gate result.resolution row (tool_evidence_ids o result))
          FinalDecision.auto_resolve
  failed_round_is_not_resolved matcher_type messages result error row given failed resolved =
      let honest = subst IsHonest given (investigate-IsHonest matcher_type messages) in
      let insufficient = honest error failed in
      let authorised =
        (auto_resolve-Authorised result.resolution row (tool_evidence_ids o result)).0 resolved in
      let enough = authorised.enough_evidence in ground (arith, insufficient, enough)
