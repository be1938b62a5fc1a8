-- ===== src/Agent/Gate/Reasons.antt =====
-- What agent/gate.py tells a reviewer: the table of the conditions agrees with the decision, and an
-- escalation always names a reason.
use mathlib.Core.Path.{subst}
use close_control.Base.{
  ◌≡◌, refl, sym, Option-cases, ◌↔◌, ◌≢◌, inl, inr, String, Option, some, List, [], ◌∷◌, ◌++◌, Bool,
  true, false, ◌&&◌, not, arith, All, if◌then◌else◌,
}
use close_control.Agent.{ExceptionResolution, ReportRow}
use close_control.Agent.Policy.{Policy, get_policy}
use close_control.Agent.Evidence.{FinalDecision}
use close_control.Agent.Gate.Authority.{allowlisted-eq, the_policy-permits}
use close_control.Agent.Gate.{
  GateReason, reason_if, GateCondition, GateResult, is_allowlisted, permits, decide, apply_gate,
}

-- Every condition of the table has passed.
abbrev pub AllPass : List (GateCondition × Bool) → Type 0
AllPass = All (λ check. check.1 ≡ true)

apply_gate_result :
    (r : ExceptionResolution) (row : ReportRow) (extra : List String) {result : GateResult}
    → apply_gate r row extra ≡ some result
    → (m : String) × (decide r row extra m (get_policy m) ≡ result)
unfolding apply_gate
apply_gate_result r row extra h = elim (Option-cases row.final_exception_type) [
  | inl e ↦ absurd (ground arith)
  | inr (m, e) ↦ (m, ground arith)
]

all_checks :
    (a b c d e f g : Bool)
    → ((a ≡ true)
        × ((b ≡ true)
            × ((c ≡ true) × ((d ≡ true) × ((e ≡ true) × ((f ≡ true) × ((g ≡ true) × Unit {0})))))))
      ↔ ((if a && b && c && d && e && f && g
            then FinalDecision.auto_resolve
            else FinalDecision.escalate)
          ≡ FinalDecision.auto_resolve)
all_checks false b c d e f g = ground arith
all_checks true false c d e f g = ground arith
all_checks true true false d e f g = ground arith
all_checks true true true d e f g = ground arith

decide_checks :
    (r : ExceptionResolution) (row : ReportRow) (extra : List String) (m : String)
    (p : Option Policy)
    → AllPass (decide r row extra m p).gate_condition_checks
      ↔ ((decide r row extra m p).final_decision ≡ FinalDecision.auto_resolve)
unfolding decide
decide_checks r row extra m p = all_checks _ _ _ _ _ _ _

-- Where the gate gives a result, its table of conditions has passed throughout exactly if the
-- decision is to auto-resolve.
pub checks_agree :
    (r : ExceptionResolution) (row : ReportRow) (extra : List String) {result : GateResult}
    → apply_gate r row extra ≡ some result
    → AllPass result.gate_condition_checks ↔ (result.final_decision ≡ FinalDecision.auto_resolve)
checks_agree r row extra h =
    let (m, e) = apply_gate_result r row extra h in
    subst (λ g. AllPass g.gate_condition_checks ↔ (g.final_decision ≡ FinalDecision.auto_resolve)) e
      (decide_checks r row extra m (get_policy m))

-- The reasons that `decide` lists, by the tests.
listed : Bool → Bool → Bool → Bool → Bool → Bool → Bool → Bool → List String → List GateReason
listed known reclassified consistent allowlisted confident enough small honest unknown =
    reason_if (not known) GateReason.no_policy
    ++ (reason_if reclassified GateReason.reclassification
        ++ (reason_if (known && not consistent) GateReason.citation_mismatch
            ++ (reason_if (not allowlisted) GateReason.not_allowlisted
                ++ (reason_if (not confident) GateReason.low_confidence
                    ++ (reason_if (not enough) GateReason.insufficient_evidence
                        ++ (reason_if (not small) GateReason.over_ceiling
                            ++ reason_if (not honest) (GateReason.fabricated_citation unknown)))))))

listed-ne :
    (known reclassified consistent allowlisted permitted confident enough small honest : Bool)
    (unknown : List String)
    → (allowlisted ≡ true → permitted ≡ true)
    → (if allowlisted && permitted && consistent && confident && enough && small && honest
        then GateReason.all_satisfied ∷ []
        else listed known reclassified consistent allowlisted confident enough small honest unknown)
      ≢ []
unfolding listed
listed-ne false r c a p f e s h unknown k = ground arith
listed-ne true true c a p f e s h unknown k = ground arith
listed-ne true false false a p f e s h unknown k = ground arith
listed-ne true false true false p f e s h unknown k = ground arith
listed-ne true false true true p f e s h unknown k = ground (arith, k refl)

allowlisted_permits : (m : String) → is_allowlisted (some m) ≡ true → permits (get_policy m) ≡ true
allowlisted_permits m h =
    subst (λ k. permits (get_policy k) ≡ true) (sym ((allowlisted-eq m).0 h)) the_policy-permits

decide_reasons :
    (r : ExceptionResolution) (row : ReportRow) (extra : List String) (m : String)
    → (decide r row extra m (get_policy m)).gate_reasons ≢ []
unfolding decide listed
decide_reasons r row extra m = listed-ne _ _ _ _ _ _ _ _ _ _ (allowlisted_permits m)

-- Every result of the gate names a reason, an escalation too.
pub gate_names_reason :
    (r : ExceptionResolution) (row : ReportRow) (extra : List String) {result : GateResult}
    → apply_gate r row extra ≡ some result
    → result.gate_reasons ≢ []
gate_names_reason r row extra h =
    let (m, e) = apply_gate_result r row extra h in
    subst (λ g. g.gate_reasons ≢ []) e (decide_reasons r row extra m)
