-- ===== src/Agent/Evidence/Citations.antt =====
-- What `validate_evidence_citations` and `check_evidence_complete` report.
use close_control.Base.{
  ◌≡◌, refl, ◌↔◌, inl, inr, String, List, [], ◌∷◌, ◌++◌, true, keep, contains, arith, All,
  Bool-cases,
}
use close_control.Agent.Evidence.{known_evidence_fields, validate_evidence_citations}

-- The name was shown to the agent, in the evidence block or by a tool call.
abbrev pub WasShown : List String → String → Type 0
WasShown extra name = contains (known_evidence_fields ++ extra) name ≡ true

-- No citation is reported as unknown exactly if every cited name was shown.
pub validate_evidence_citations-nil :
    (used extra : List String)
    → (validate_evidence_citations used extra ≡ []) ↔ All (WasShown extra) used
unfolding validate_evidence_citations
validate_evidence_citations-nil [] extra = (λ h. tt, λ h. refl)
validate_evidence_citations-nil (name ∷ names) extra =
    let (there, back) = validate_evidence_citations-nil names extra in
    elim (Bool-cases (contains (known_evidence_fields ++ extra) name)) [
      | inl e ↦ (λ h. (e, there (rw (e, keep) at h)), λ h. rw (e, keep) (back h.1))
      | inr e ↦ (λ h. absurd (ground arith), λ h. absurd (ground arith))
    ]
