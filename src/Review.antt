-- ===== src/Review.antt =====
-- review_backend/state_machine.py: the statuses of a review-queue case, and `next_status`, which
-- gives the status after a review event or the reason why the event is refused.
-- Python's texts are read as enumerations whose last constructor is any other text.
pub mod Rules
pub mod Chain
pub mod Submission
pub mod Cases
pub mod Store
pub mod Corrections
pub mod Sla
pub mod Bulk
pub mod Reverify
pub mod Listing
pub mod Proposals
pub mod Seed
pub mod CycleTime
pub mod Stats
use close_control.Base.{
  ℕ, String, Option, Bool, true, false, not, ◌||◌, ◌==◌, if◌then◌else◌, is_some_text,
}

pub data Status : Type 0 where
  auto_resolved pending pending_manager_approval approved overridden escalated auto_closed : Status
  other : String → Status

-- VALID_DECISIONS, and any other text.
pub data Decision : Type 0 where
  approved overridden escalated reverted auto_closed : Decision
  other : String → Decision

-- VALID_ROLES, and any other text.
pub data Role : Type 0 where
  analyst manager : Role
  other : String → Role

-- One for each `raise InvalidTransition`, in the order of the source.
pub data InvalidTransition : Type 0 where
  unknown_decision unknown_role unknown_tier revert_not_auto_resolved act_on_auto_resolved
        override_closed escalate_closed auto_close_not_open approve_closed unexpected_tier_one
        manager_before_analyst second_analyst same_person unexpected_tier_two :
      InvalidTransition

pub http_status : InvalidTransition → ℕ
http_status InvalidTransition.unknown_decision = 400
http_status InvalidTransition.unknown_role = 400
http_status InvalidTransition.unknown_tier = 400
http_status InvalidTransition.manager_before_analyst = 422
http_status InvalidTransition.second_analyst = 422
http_status InvalidTransition.same_person = 422
http_status _ = 409

pub data Transition : Type 0 where
  to : Status → Transition
  refused : InvalidTransition → Transition

abbrev is_valid_decision : Decision → Bool
is_valid_decision (Decision.other _) = false
is_valid_decision _ = true

abbrev is_valid_role : Role → Bool
is_valid_role (Role.other _) = false
is_valid_role _ = true

-- TERMINAL_STATUSES
abbrev pub is_terminal : Status → Bool
is_terminal Status.approved = true
is_terminal Status.overridden = true
is_terminal Status.escalated = true
is_terminal Status.auto_closed = true
is_terminal _ = false

-- OPEN_STATUSES
abbrev pub is_open : Status → Bool
is_open Status.pending = true
is_open Status.pending_manager_approval = true
is_open _ = false

-- The part of `next_status` after the last guard on a decision: `approved`, by the case's tier.
approve_tier_one : Status → Transition
approve_tier_one Status.pending = Transition.to Status.approved
approve_tier_one _ = Transition.refused InvalidTransition.unexpected_tier_one

approve_tier_two : Status → Role → String → Option String → Transition
approve_tier_two Status.pending Role.manager name prior =
    Transition.refused InvalidTransition.manager_before_analyst
approve_tier_two Status.pending _ name prior = Transition.to Status.pending_manager_approval
approve_tier_two Status.pending_manager_approval Role.analyst name prior =
    Transition.refused InvalidTransition.second_analyst
approve_tier_two Status.pending_manager_approval _ name prior =
    if is_some_text name prior
    then Transition.refused InvalidTransition.same_person
    else Transition.to Status.approved
approve_tier_two _ role name prior = Transition.refused InvalidTransition.unexpected_tier_two

approve : Status → ℕ → Role → String → Option String → Transition
unfolding approve_tier_one approve_tier_two
approve current tier role name prior =
    if is_terminal current
    then Transition.refused InvalidTransition.approve_closed
    else if tier == 1
    then approve_tier_one current
    else approve_tier_two current role name prior

revert : Status → Transition
revert Status.auto_resolved = Transition.to Status.pending
revert _ = Transition.refused InvalidTransition.revert_not_auto_resolved

override : Status → Transition
override current =
    if is_terminal current
    then Transition.refused InvalidTransition.override_closed
    else Transition.to Status.overridden

escalate : Status → Transition
escalate Status.approved = Transition.refused InvalidTransition.escalate_closed
escalate Status.overridden = Transition.refused InvalidTransition.escalate_closed
escalate _ = Transition.to Status.escalated

auto_close : Status → Transition
auto_close current =
    if is_open current
    then Transition.to Status.auto_closed
    else Transition.refused InvalidTransition.auto_close_not_open

-- The branches on the decision, once `reverted` is dealt with and the case is not auto-resolved.
decide : Status → ℕ → Decision → Role → String → Option String → Transition
unfolding approve override escalate auto_close
decide current tier Decision.overridden role name prior = override current
decide current tier Decision.escalated role name prior = escalate current
decide current tier Decision.auto_closed role name prior = auto_close current
decide current tier _ role name prior = approve current tier role name prior

dispatch : Status → ℕ → Decision → Role → String → Option String → Transition
unfolding revert decide
dispatch current tier Decision.reverted role name prior = revert current
dispatch Status.auto_resolved tier decision role name prior =
    Transition.refused InvalidTransition.act_on_auto_resolved
dispatch current tier decision role name prior = decide current tier decision role name prior

-- next_status(current_status, tier, decision, role, reviewer_name, prior_analyst_reviewer)
unfoldable pub next_status : Status → ℕ → Decision → Role → String → Option String → Transition
unfolding dispatch
next_status current tier decision role name prior =
    if not (is_valid_decision decision)
    then Transition.refused InvalidTransition.unknown_decision
    else if not (is_valid_role role)
    then Transition.refused InvalidTransition.unknown_role
    else if not (tier == 1 || tier == 2)
    then Transition.refused InvalidTransition.unknown_tier
    else dispatch current tier decision role name prior
