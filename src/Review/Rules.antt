-- ===== src/Review/Rules.antt =====
-- What `next_status` of review_backend/state_machine.py allows: the graph of the transitions, the
-- closed statuses, and the two people that a tier-2 approval takes.
use close_control.Base.{
  ℕ, String, ◌≡◌, refl, ◌≢◌, ◌⊎◌, Option, none, some, false, arith, is_some_text, eq_iff,
}
use close_control.Review.{Status, Decision, Role, Transition, next_status}

-- The graph of the statuses, without the guards.
infix 40 ◌⟶◌
pub data ◌⟶◌ : Status → Status → Type 0 where
  revert : Status.auto_resolved ⟶ Status.pending
  first_approval : Status.pending ⟶ Status.pending_manager_approval
  sole_approval : Status.pending ⟶ Status.approved
  second_approval : Status.pending_manager_approval ⟶ Status.approved
  override_pending : Status.pending ⟶ Status.overridden
  override_half_approved : Status.pending_manager_approval ⟶ Status.overridden
  override_unknown : {s : String} → Status.other s ⟶ Status.overridden
  escalate_pending : Status.pending ⟶ Status.escalated
  escalate_half_approved : Status.pending_manager_approval ⟶ Status.escalated
  escalate_again : Status.escalated ⟶ Status.escalated
  escalate_auto_closed : Status.auto_closed ⟶ Status.escalated
  escalate_unknown : {s : String} → Status.other s ⟶ Status.escalated
  close_pending : Status.pending ⟶ Status.auto_closed
  close_half_approved : Status.pending_manager_approval ⟶ Status.auto_closed

ruleset edges = (
  revert, first_approval, sole_approval, second_approval, override_pending, override_half_approved,
  override_unknown, escalate_pending, escalate_half_approved, escalate_again, escalate_auto_closed,
  escalate_unknown, close_pending, close_half_approved,
)

-- Every accepted event follows an edge of the graph.
pub next_status-⟶ :
    (current : Status) (tier : ℕ) (decision : Decision) (role : Role) (name : String)
    (prior : Option String) {s : Status}
    → next_status current tier decision role name prior ≡ Transition.to s
    → current ⟶ s
unfolding next_status
next_status-⟶ current tier decision role name prior h = grind (arith, edges)

abbrev Event : Type 0
Event = record { tier : ℕ; decision : Decision; role : Role; name : String; prior : Option String }

event : ℕ → Decision → Role → Event
event t d r = record { tier = t; decision = d; role = r; name = "m"; prior = none }

-- Every edge of the graph is taken by some event.
pub ⟶-next_status :
    {a b : Status}
    → a ⟶ b
    → (e : Event) × (next_status a e.tier e.decision e.role e.name e.prior ≡ Transition.to b)
unfolding next_status event
⟶-next_status revert = (event 1 Decision.reverted Role.analyst, refl)
⟶-next_status first_approval = (event 2 Decision.approved Role.analyst, refl)
⟶-next_status sole_approval = (event 1 Decision.approved Role.analyst, refl)
⟶-next_status second_approval = (event 2 Decision.approved Role.manager, refl)
⟶-next_status override_pending = (event 1 Decision.overridden Role.analyst, refl)
⟶-next_status override_half_approved = (event 2 Decision.overridden Role.analyst, refl)
⟶-next_status override_unknown = (event 1 Decision.overridden Role.analyst, refl)
⟶-next_status escalate_pending = (event 1 Decision.escalated Role.analyst, refl)
⟶-next_status escalate_half_approved = (event 2 Decision.escalated Role.analyst, refl)
⟶-next_status escalate_again = (event 1 Decision.escalated Role.analyst, refl)
⟶-next_status escalate_auto_closed = (event 1 Decision.escalated Role.analyst, refl)
⟶-next_status escalate_unknown = (event 1 Decision.escalated Role.analyst, refl)
⟶-next_status close_pending = (event 1 Decision.auto_closed Role.analyst, refl)
⟶-next_status close_half_approved = (event 2 Decision.auto_closed Role.analyst, refl)

-- No event moves a case that is approved or overridden.
pub closed_is_final :
    (current : Status) (tier : ℕ) (decision : Decision) (role : Role) (name : String)
    (prior : Option String) (s : Status)
    → (current ≡ Status.approved) ⊎ (current ≡ Status.overridden)
    → next_status current tier decision role name prior ≢ Transition.to s
unfolding next_status
closed_is_final current tier decision role name prior s h e = ground arith

is_some_text-ne :
    (name : String) (prior : Option String) → is_some_text name prior ≡ false → prior ≢ some name
is_some_text-ne name prior h e = ground (arith, eq_iff name name)

-- What an event that approves a tier-2 case shows.
pub record SecondApproval (current : Status) (decision : Decision) (role : Role) (name : String)
    (prior : Option String) : Type 0 where
  pub was_half_approved : current ≡ Status.pending_manager_approval
  pub approves : decision ≡ Decision.approved
  pub by_manager : role ≡ Role.manager
  pub by_another : prior ≢ some name

-- An event that approves a tier-2 case is an approval by a manager, on a case that is half approved,
-- and the analyst of that half approval has another name.
pub approved_needs_manager :
    (current : Status) (decision : Decision) (role : Role) (name : String) (prior : Option String)
    → next_status current 2 decision role name prior ≡ Transition.to Status.approved
    → SecondApproval current decision role name prior
unfolding next_status
approved_needs_manager current decision role name prior h = record {
  was_half_approved = ground arith;
  approves = ground arith;
  by_manager = ground arith;
  by_another = is_some_text-ne name prior (ground arith);
}

pub half_approved_needs_analyst :
    (current : Status) (tier : ℕ) (decision : Decision) (role : Role) (name : String)
    (prior : Option String)
    → next_status current tier decision role name prior
      ≡ Transition.to Status.pending_manager_approval
    → (current ≡ Status.pending)
      × (tier ≡ 2)
      × (decision ≡ Decision.approved)
      × (role ≡ Role.analyst)
unfolding next_status
half_approved_needs_analyst current tier decision role name prior h = ground arith

-- An event closes a case automatically only if it is the automatic closing and the case is pending
-- or half approved.
pub auto_closed_needs_open :
    (current : Status) (tier : ℕ) (decision : Decision) (role : Role) (name : String)
    (prior : Option String)
    → next_status current tier decision role name prior ≡ Transition.to Status.auto_closed
    → ((current ≡ Status.pending) ⊎ (current ≡ Status.pending_manager_approval))
      × (decision ≡ Decision.auto_closed)
unfolding next_status
auto_closed_needs_open current tier decision role name prior h = ground arith
