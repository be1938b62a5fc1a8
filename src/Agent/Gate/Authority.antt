-- ===== src/Agent/Gate/Authority.antt =====
-- Who authorises an auto-resolution in agent/gate.py: the matcher's type, the policy of that type,
-- and the bounds; never the type that the model proposes.
use Prim.Native.Nat.{◌^◌}
use mathlib.Core.Path.{subst}
use close_control.Base.{
  ◌*◌, ◌≤◌, ◌<◌, ◌≡◌, refl, sym, ap, ◌∙◌, ◌↔◌, ◌⊎◌, inl, inr, String, Option, none, some, List, [],
  ◌∷◌, Bool, true, false, arith, All, ltb, eq_iff, Option-cases, ◌&&◌, if◌then◌else◌, ltb→lt,
  lt→ltb,
}
use close_control.Agent.{
  ExceptionResolution, ReportRow, at_least_percent, confidence_threshold_percent, risk_ceiling,
}
use close_control.Agent.Policy.{Policy, get_policy, policy}
use close_control.Agent.Evidence.{FinalDecision, validate_evidence_citations}
use close_control.Agent.Evidence.Citations.{WasShown, validate_evidence_citations-nil}
use close_control.Agent.Gate.{
  GateResult, magnitude, compute_amount_at_risk, is_investigation_worthwhile, is_allowlisted,
  permits, cites, is_nil, decide, apply_gate,
}

-- `apply_gate` returns a result with this decision.
abbrev pub Decides : Option GateResult → FinalDecision → Type 0
Decides none d = ⊥
Decides (some result) d = result.final_decision ≡ d

-- What an auto-resolution rests on, independently of the code.
pub record Authorised (r : ExceptionResolution) (row : ReportRow) (extra : List String)
    : Type 0 where
  pub ambiguous_success : row.final_exception_type ≡ some "deemed_success_ambiguous"
  pub cites_its_policy : r.policy_id ≡ "POLICY-006"
  pub confident : 85 * 10 ^ r.confidence.scale ≤ 100 * r.confidence.digits
  pub enough_evidence : r.sufficient_evidence ≡ true
  pub small_delta : magnitude row.net_delta < risk_ceiling
  pub small_expected : magnitude row.ledger_expected_net < risk_ceiling
  pub honest_citations : All (WasShown extra) r.evidence_used

-- The seven tests of `apply_gate`.
record Passed (r : ExceptionResolution) (row : ReportRow) (extra : List String)
    (matcher_type : String) (p : Option Policy) : Type 0 where
  allowlisted : is_allowlisted (some matcher_type) ≡ true
  permitted : permits p ≡ true
  consistent : cites p r.policy_id ≡ true
  confident : at_least_percent r.confidence confidence_threshold_percent ≡ true
  enough : r.sufficient_evidence ≡ true
  small : ltb (compute_amount_at_risk row) risk_ceiling ≡ true
  honest : is_nil (validate_evidence_citations r.evidence_used extra) ≡ true

is_nil-eq : (xs : List String) → (is_nil xs ≡ true) ↔ (xs ≡ [])
is_nil-eq [] = (λ h. refl, λ h. refl)
is_nil-eq (x ∷ xs) = (λ h. absurd (ground arith), λ h. absurd (ground arith))

pub allowlisted-eq :
    (m : String) → (is_allowlisted (some m) ≡ true) ↔ (m ≡ "deemed_success_ambiguous")
allowlisted-eq m = ground (arith, eq_iff m "deemed_success_ambiguous")

abbrev pub the_policy : Option Policy
the_policy = get_policy "deemed_success_ambiguous"

the_policy-cites : (cited : String) → (cites the_policy cited ≡ true) ↔ (cited ≡ "POLICY-006")
unfolding get_policy policy
the_policy-cites cited = ground (arith, eq_iff cited "POLICY-006")

FinalDecision-cases :
    (d : FinalDecision) → (d ≡ FinalDecision.auto_resolve) ⊎ (d ≡ FinalDecision.escalate)
FinalDecision-cases FinalDecision.auto_resolve = inl refl
FinalDecision-cases FinalDecision.escalate = inr refl

pub the_policy-permits : permits the_policy ≡ true
unfolding get_policy policy
the_policy-permits = refl

all_seven :
    (a b c d e f g : Bool)
    → (if a && b && c && d && e && f && g
        then FinalDecision.auto_resolve
        else FinalDecision.escalate)
      ≡ FinalDecision.auto_resolve
    → (a ≡ true) × (b ≡ true) × (c ≡ true) × (d ≡ true) × (e ≡ true) × (f ≡ true) × (g ≡ true)
all_seven a b c d e f g h = ground arith

module _ (r : ExceptionResolution) (row : ReportRow) (extra : List String) where
  decide-Passed :
      (m : String) (p : Option Policy)
      → (decide r row extra m p).final_decision ≡ FinalDecision.auto_resolve
      → Passed r row extra m p
  unfolding decide
  decide-Passed m p h =
      let (a, b, c, d, e, f, g) = all_seven _ _ _ _ _ _ _ h in
      record {
        allowlisted = a;
        permitted = b;
        consistent = c;
        confident = d;
        enough = e;
        small = f;
        honest = g;
      }

  Passed-decide :
      (m : String) (p : Option Policy)
      → Passed r row extra m p
      → (decide r row extra m p).final_decision ≡ FinalDecision.auto_resolve
  unfolding decide
  Passed-decide m p h =
      simp (h.allowlisted, h.permitted, h.consistent, h.confident, h.enough, h.small, h.honest)

  small_iff : (ltb (compute_amount_at_risk row) risk_ceiling ≡ true) ↔ (
      (magnitude row.net_delta < risk_ceiling) × (magnitude row.ledger_expected_net < risk_ceiling))
  unfolding compute_amount_at_risk
  small_iff =
      (λ h. let small = ltb→lt _ _ h in (omega arith, omega arith), λ h. lt→ltb _ _ (omega arith))

  confident_iff :
      (at_least_percent r.confidence confidence_threshold_percent ≡ true)
      ↔ (85 * 10 ^ r.confidence.scale ≤ 100 * r.confidence.digits)
  confident_iff = ground arith

  Passed-Authorised :
      (m : String)
      → row.final_exception_type ≡ some m
      → Passed r row extra m (get_policy m)
      → Authorised r row extra
  Passed-Authorised m e p =
      let named = (allowlisted-eq m).0 p.allowlisted in
      let (small_delta, small_expected) = small_iff.0 p.small in
      record {
        ambiguous_success = e ∙ ap some named;
        cites_its_policy =
            (the_policy-cites r.policy_id).0
              (subst (λ k. cites (get_policy k) r.policy_id ≡ true) named p.consistent);
        confident = confident_iff.0 p.confident;
        enough_evidence = p.enough;
        small_delta = small_delta;
        small_expected = small_expected;
        honest_citations =
            (validate_evidence_citations-nil r.evidence_used extra).0 ((is_nil-eq _).0 p.honest);
      }

  Authorised-Passed :
      Authorised r row extra → Passed r row extra "deemed_success_ambiguous" the_policy
  unfolding get_policy policy
  Authorised-Passed a = record {
    allowlisted = refl;
    permitted = refl;
    consistent = (the_policy-cites r.policy_id).1 a.cites_its_policy;
    confident = confident_iff.1 a.confident;
    enough = a.enough_evidence;
    small = small_iff.1 (a.small_delta, a.small_expected);
    honest =
        (is_nil-eq _).1
          ((validate_evidence_citations-nil r.evidence_used extra).1 a.honest_citations);
  }

  apply_gate-none : row.final_exception_type ≡ none → apply_gate r row extra ≡ none
  unfolding apply_gate
  apply_gate-none e = rw e

  apply_gate-some :
      (m : String)
      → row.final_exception_type ≡ some m
      → apply_gate r row extra ≡ some (decide r row extra m (get_policy m))
  unfolding apply_gate
  apply_gate-some m e = rw e

  Decides-Authorised :
      Decides (apply_gate r row extra) FinalDecision.auto_resolve → Authorised r row extra
  Decides-Authorised h = elim (Option-cases row.final_exception_type) [
    | inl e ↦ absurd (rw (apply_gate-none e, Decides) at h)
    | inr (m, e) ↦
        Passed-Authorised m e (decide-Passed m _ (rw (apply_gate-some m e, Decides) at h))
  ]

  -- The gate auto-resolves exactly if the matcher's type is the ambiguous deemed success, the policy
  -- of that type is cited, the confidence is 0.85 or more, the evidence is called enough, the delta
  -- and the expected sum are each under the ceiling, and every citation names what was shown.
  pub auto_resolve-Authorised :
      Decides (apply_gate r row extra) FinalDecision.auto_resolve ↔ Authorised r row extra
  auto_resolve-Authorised = (
    Decides-Authorised,
    λ a.
        subst (λ g. Decides g FinalDecision.auto_resolve)
          (sym (apply_gate-some _ a.ambiguous_success)) (Passed-decide _ _ (Authorised-Passed a)),
  )

  decide_otherwise :
      (m : String) (p : Option Policy)
      → ¬ Passed r row extra m p
      → (decide r row extra m p).final_decision ≡ FinalDecision.escalate
  decide_otherwise m p h = elim (FinalDecision-cases (decide r row extra m p).final_decision) [
    | inl e ↦ absurd (h (decide-Passed m p e))
    | inr e ↦ e
  ]

  worthwhile :
      (m : String)
      → row.final_exception_type ≡ some m
      → is_allowlisted (some m) ≡ true
      → ltb (compute_amount_at_risk row) risk_ceiling ≡ true
      → is_investigation_worthwhile row ≡ true
  unfolding is_investigation_worthwhile
  worthwhile m e a small = rw (e, a, small)

  -- A case with an exception type that is not worth an investigation is escalated, whatever the
  -- model proposes.
  pub not_worthwhile_escalates :
      (m : String)
      → row.final_exception_type ≡ some m
      → is_investigation_worthwhile row ≡ false
      → Decides (apply_gate r row extra) FinalDecision.escalate
  not_worthwhile_escalates m e h =
      subst (λ g. Decides g FinalDecision.escalate) (sym (apply_gate-some m e))
        (decide_otherwise m _ (λ p. cc (worthwhile m e p.allowlisted p.small, h)))

-- The decision part of a result.
abbrev pub decision_of : Option GateResult → Option FinalDecision
decision_of none = none
decision_of (some result) = some result.final_decision

-- The exception type, the root cause and the action that the model proposes leave the decision of
-- the gate as it is.
pub opinion_is_ignored :
    (r : ExceptionResolution) (row : ReportRow) (extra : List String)
    (opinion cause action : String)
    → decision_of (
        apply_gate
          (record r { exception_type = opinion; root_cause = cause; recommended_action = action })
          row
          extra)
      ≡ decision_of (apply_gate r row extra)
unfolding apply_gate
opinion_is_ignored r row extra opinion cause action = ground arith
