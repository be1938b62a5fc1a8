-- ===== src/Review/Submission.antt =====
-- review_backend/models.py: the body of POST /api/cases/{id}/review and its validation.
use Prim.Native.Char.{code}
use Prim.Native.String.{count}
use close_control.Base.{
  ℕ, String, Option, none, some, Bool, true, false, not, ◌&&◌, ◌||◌, leb, str_eq, is_space,
}
use close_control.Review.{Decision, Role}

-- OVERRIDABLE_FIELDS, and any other text.
pub data OverrideField : Type 0 where
  agent_exception_type agent_root_cause agent_recommended_action agent_policy_id : OverrideField
  other : String → OverrideField

-- `reviewer_role` and `decision` are `Literal` types; `expected_review_count` is optional.
pub record ReviewSubmission : Type 0 where
  pub reviewer_name : String
  pub reviewer_role : Role
  pub decision : Decision
  pub override_field : Option OverrideField
  pub override_old_value : Option String
  pub override_new_value : Option String
  pub notes : Option String
  pub expected_review_count : Option ℕ

-- `not text.strip()`
is_blank : String → Bool
unfolding is_space
is_blank String.[] = true
is_blank (String.◌∷◌ c text) = is_space (code c) && is_blank text

-- `not self.notes or not self.notes.strip()`
unfoldable pub has_no_reason : Option String → Bool
unfolding is_blank
has_no_reason none = true
has_no_reason (some notes) = is_blank notes

-- The truth value of an optional text: None and the empty text are false.
abbrev pub is_truthy : Option String → Bool
is_truthy none = false
is_truthy (some text) = not (str_eq text "")

is_present : {A : Type 0} → Option A → Bool
is_present none = false
is_present (some _) = true

is_named : Option OverrideField → Bool
is_named none = false
is_named (some (OverrideField.other name)) = not (str_eq name "")
is_named (some _) = true

is_overridable : Option OverrideField → Bool
is_overridable none = false
is_overridable (some (OverrideField.other name)) = false
is_overridable (some _) = true

has_override : ReviewSubmission → Bool
unfolding is_named
has_override s =
    is_named s.override_field || is_truthy s.override_old_value || is_truthy s.override_new_value

-- `_cross_field_rules`: false where a rule raises ValueError.
cross_field_rules : Decision → ReviewSubmission → Bool
unfolding is_present is_overridable has_no_reason has_override
cross_field_rules Decision.overridden s =
    is_present s.override_field
    && is_present s.override_old_value
    && is_present s.override_new_value
    && is_overridable s.override_field
    && not (has_no_reason s.notes)
cross_field_rules Decision.escalated s = not (has_no_reason s.notes)
cross_field_rules Decision.reverted s = not (has_no_reason s.notes) && not (has_override s)
cross_field_rules Decision.approved s = not (has_override s)
cross_field_rules Decision.auto_closed s = not (has_no_reason s.notes) && not (has_override s)
cross_field_rules (Decision.other _) s = false

unfoldable pub is_role : Role → Bool
is_role (Role.other _) = false
is_role _ = true

-- The whole validation: the lengths and literals of the fields, then the rules across them.
unfoldable pub is_valid_submission : ReviewSubmission → Bool
unfolding cross_field_rules is_role
is_valid_submission s =
    leb 1 (count s.reviewer_name)
    && leb (count s.reviewer_name) 200
    && is_role s.reviewer_role
    && cross_field_rules s.decision s
