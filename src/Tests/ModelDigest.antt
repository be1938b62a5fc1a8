-- ===== src/Tests/ModelDigest.antt =====
-- A digest without collisions: it keeps the whole history, each review as texts.
use mathlib.Core.Path.{subst}
use close_control.Base.{
  ◌≡◌, refl, sym, ap, ◌∙◌, ◌↔◌, String, Option, none, some, List, [], ◌∷◌, Bool, true, false, ◌&&◌,
  arith, str_eq, eq_iff, and_true, ℕ, zero, suc, length,
}
use close_control.Review.{Status, Decision, Role}
use close_control.Review.Submission.{OverrideField}
use close_control.Review.Chain.{Fields, Digest}
use close_control.Review.Chain.Tamper.{CollisionFree}

-- Lists are the same if their elements are.
abbrev same_lists : {A : Type 0} → (A → A → Bool) → List A → List A → Bool
same_lists same [] [] = true
same_lists same (x ∷ xs) (y ∷ ys) = same x y && same_lists same xs ys
same_lists same _ _ = false

pub same_lists_iff :
    {A : Type 0} (same : A → A → Bool)
    → ((a b : A) → (same a b ≡ true) ↔ (a ≡ b))
    → (xs ys : List A) → (same_lists same xs ys ≡ true) ↔ (xs ≡ ys)
same_lists_iff same h [] [] = (λ e. refl, λ e. refl)
same_lists_iff same h [] (y ∷ ys) = (λ e. absurd (ground arith), λ e. absurd (ground arith))
same_lists_iff same h (x ∷ xs) [] = (λ e. absurd (ground arith), λ e. absurd (ground arith))
same_lists_iff same h (x ∷ xs) (y ∷ ys) =
    let rest = same_lists_iff same h xs ys in
    (
      λ e. let (first, others) = and_true _ _ e in cc ((h x y).0 first, rest.0 others),
      λ e.
          subst (λ zs. same_lists same (x ∷ xs) zs ≡ true) e
            (ground (arith, (h x x).1 refl, (same_lists_iff same h xs xs).1 refl)),
    )

abbrev Texts : Type 0
Texts = List String

abbrev of_option : Option String → Texts
of_option none = []
of_option (some text) = text ∷ []

abbrev to_option : Texts → Option String
to_option [] = none
to_option (text ∷ _) = some text

abbrev to_text : Texts → String
to_text [] = ""
to_text (text ∷ _) = text

abbrev of_role : Role → Texts
of_role Role.analyst = []
of_role Role.manager = "" ∷ "" ∷ []
of_role (Role.other text) = text ∷ []

abbrev to_role : Texts → Role
to_role [] = Role.analyst
to_role (_ ∷ _ ∷ []) = Role.manager
to_role (text ∷ _) = Role.other text

to_role-of_role : (x : Role) → to_role (of_role x) ≡ x
to_role-of_role Role.analyst = refl
to_role-of_role Role.manager = refl
to_role-of_role (Role.other text) = refl

abbrev of_decision : Decision → Texts
of_decision Decision.approved = []
of_decision Decision.overridden = "" ∷ "" ∷ []
of_decision Decision.escalated = "" ∷ "" ∷ "" ∷ []
of_decision Decision.reverted = "" ∷ "" ∷ "" ∷ "" ∷ []
of_decision Decision.auto_closed = "" ∷ "" ∷ "" ∷ "" ∷ "" ∷ []
of_decision (Decision.other text) = text ∷ []

abbrev to_decision : Texts → Decision
to_decision [] = Decision.approved
to_decision (_ ∷ _ ∷ []) = Decision.overridden
to_decision (_ ∷ _ ∷ _ ∷ []) = Decision.escalated
to_decision (_ ∷ _ ∷ _ ∷ _ ∷ []) = Decision.reverted
to_decision (_ ∷ _ ∷ _ ∷ _ ∷ _ ∷ []) = Decision.auto_closed
to_decision (text ∷ _) = Decision.other text

to_decision-of_decision : (x : Decision) → to_decision (of_decision x) ≡ x
to_decision-of_decision Decision.approved = refl
to_decision-of_decision Decision.overridden = refl
to_decision-of_decision Decision.escalated = refl
to_decision-of_decision Decision.reverted = refl
to_decision-of_decision Decision.auto_closed = refl
to_decision-of_decision (Decision.other text) = refl

abbrev of_status : Status → Texts
of_status Status.auto_resolved = []
of_status Status.pending = "" ∷ "" ∷ []
of_status Status.pending_manager_approval = "" ∷ "" ∷ "" ∷ []
of_status Status.approved = "" ∷ "" ∷ "" ∷ "" ∷ []
of_status Status.overridden = "" ∷ "" ∷ "" ∷ "" ∷ "" ∷ []
of_status Status.escalated = "" ∷ "" ∷ "" ∷ "" ∷ "" ∷ "" ∷ []
of_status Status.auto_closed = "" ∷ "" ∷ "" ∷ "" ∷ "" ∷ "" ∷ "" ∷ []
of_status (Status.other text) = text ∷ []

abbrev to_status : Texts → Status
to_status [] = Status.auto_resolved
to_status (_ ∷ _ ∷ []) = Status.pending
to_status (_ ∷ _ ∷ _ ∷ []) = Status.pending_manager_approval
to_status (_ ∷ _ ∷ _ ∷ _ ∷ []) = Status.approved
to_status (_ ∷ _ ∷ _ ∷ _ ∷ _ ∷ []) = Status.overridden
to_status (_ ∷ _ ∷ _ ∷ _ ∷ _ ∷ _ ∷ []) = Status.escalated
to_status (_ ∷ _ ∷ _ ∷ _ ∷ _ ∷ _ ∷ _ ∷ []) = Status.auto_closed
to_status (text ∷ _) = Status.other text

to_status-of_status : (x : Status) → to_status (of_status x) ≡ x
to_status-of_status Status.auto_resolved = refl
to_status-of_status Status.pending = refl
to_status-of_status Status.pending_manager_approval = refl
to_status-of_status Status.approved = refl
to_status-of_status Status.overridden = refl
to_status-of_status Status.escalated = refl
to_status-of_status Status.auto_closed = refl
to_status-of_status (Status.other text) = refl

abbrev of_field : OverrideField → Texts
of_field OverrideField.agent_exception_type = []
of_field OverrideField.agent_root_cause = "" ∷ "" ∷ []
of_field OverrideField.agent_recommended_action = "" ∷ "" ∷ "" ∷ []
of_field OverrideField.agent_policy_id = "" ∷ "" ∷ "" ∷ "" ∷ []
of_field (OverrideField.other text) = text ∷ []

abbrev to_field : Texts → OverrideField
to_field [] = OverrideField.agent_exception_type
to_field (_ ∷ _ ∷ []) = OverrideField.agent_root_cause
to_field (_ ∷ _ ∷ _ ∷ []) = OverrideField.agent_recommended_action
to_field (_ ∷ _ ∷ _ ∷ _ ∷ []) = OverrideField.agent_policy_id
to_field (text ∷ _) = OverrideField.other text

to_field-of_field : (x : OverrideField) → to_field (of_field x) ≡ x
to_field-of_field OverrideField.agent_exception_type = refl
to_field-of_field OverrideField.agent_root_cause = refl
to_field-of_field OverrideField.agent_recommended_action = refl
to_field-of_field OverrideField.agent_policy_id = refl
to_field-of_field (OverrideField.other text) = refl

abbrev of_override : Option OverrideField → Texts
of_override none = []
of_override (some field) = "" ∷ of_field field

abbrev to_override : Texts → Option OverrideField
to_override [] = none
to_override (_ ∷ texts) = some (to_field texts)

to_override-of_override : (x : Option OverrideField) → to_override (of_override x) ≡ x
to_override-of_override none = refl
to_override-of_override (some field) = ap some (to_field-of_field field)

to_option-of_option : (x : Option String) → to_option (of_option x) ≡ x
to_option-of_option none = refl
to_option-of_option (some text) = refl

abbrev encode : Fields → List Texts
encode f =
    (f.review_uuid ∷ f.transaction_id ∷ f.reviewer_name ∷ f.created_at ∷ f.application_version ∷ [])
    ∷ of_role f.reviewer_role
    ∷ of_decision f.decision
    ∷ of_override f.override_field
    ∷ of_option f.override_old_value
    ∷ of_option f.override_new_value
    ∷ of_option f.notes
    ∷ of_status f.previous_status
    ∷ of_status f.resulting_status
    ∷ []

abbrev at : ℕ → List Texts → Texts
at n [] = []
at zero (x ∷ xs) = x
at (suc n) (x ∷ xs) = at n xs

abbrev text_at : ℕ → Texts → String
text_at n [] = ""
text_at zero (x ∷ xs) = x
text_at (suc n) (x ∷ xs) = text_at n xs

decode : List Texts → Fields
decode l = record {
  review_uuid = text_at 0 (at 0 l);
  transaction_id = text_at 1 (at 0 l);
  reviewer_name = text_at 2 (at 0 l);
  reviewer_role = to_role (at 1 l);
  decision = to_decision (at 2 l);
  override_field = to_override (at 3 l);
  override_old_value = to_option (at 4 l);
  override_new_value = to_option (at 5 l);
  notes = to_option (at 6 l);
  previous_status = to_status (at 7 l);
  resulting_status = to_status (at 8 l);
  created_at = text_at 3 (at 0 l);
  application_version = text_at 4 (at 0 l);
}

decode-encode : (f : Fields) → decode (encode f) ≡ f
unfolding decode
decode-encode f =
    simp
      (
        to_role-of_role, to_decision-of_decision, to_override-of_override, to_option-of_option,
        to_status-of_status,
      )
      refl

abbrev pub model_digest : Digest
model_digest = record {
  Hash = List (List Texts);
  genesis = [];
  same = same_lists (same_lists (same_lists str_eq));
  same_iff = same_lists_iff _ (same_lists_iff _ (same_lists_iff str_eq eq_iff));
  compute_chain_hash = λ past f. encode f ∷ past;
}

tail_of : List (List Texts) → List (List Texts)
tail_of [] = []
tail_of (x ∷ xs) = xs

head_of : List (List Texts) → List Texts
head_of [] = []
head_of (x ∷ xs) = x

pub model_digest-CollisionFree : CollisionFree model_digest
unfolding tail_of head_of
model_digest-CollisionFree = record {
  injective = λ p q f g e.
      (ap tail_of e, sym (decode-encode f) ∙ ap (λ l. decode (head_of l)) e ∙ decode-encode g);
  never_genesis = λ p f e. absurd (ground (arith, ap length e));
}
