-- ===== src/Tests/SeedRuns.antt =====
-- scripts/seed_review_queue.py on two escalated proposals, of a case that is there and of a new one.
use close_control.Base.{
  arith, ◌≡◌, ◌↔◌, refl, ℕ, String, none, some, List, [], ◌∷◌, ◌++◌, inl, inr, length, keep,
  get_last?, Distinct,
}
use close_control.Review.Proposals.{
  AuditEntry, Investigation, Outside, ResolutionSource, real_one, load_investigations,
  primary_from_audit_entry,
}
use close_control.Review.Seed.{
  SeededCase, Outcome, SeedError, Report, Seeding, case_from, seed, escalated_entries, is_inserted,
  count,
}
use close_control.Review.Seed.Investigations.{is_real_for, real_one-load_investigations}
use close_control.Review.Seed.Queue.{Frozen}
use close_control.Review.Seed.Frozen.{proposals, IsQueue, AddsUp, seed-IsQueue, seed-proposals}
use close_control.Review.Seed.Repeated.{Succeeds, new_ids, seed-Succeeds}
use close_control.Tests.AgentRuns.{proposal, small_row}

abbrev outside : Outside
outside = record {
  canonical_hash = λ entry row. entry.agent_exception_type;
  tool_label = λ n. "TOOL-1";
}

abbrev entry : String → ℕ → AuditEntry
entry id amount = record {
  transaction_id = id;
  agent_exception_type = "deemed_success_ambiguous";
  agent_root_cause = none;
  agent_recommended_action = none;
  agent_policy_id = none;
  gate_final_decision = "escalate";
  gate_amount_at_risk = some amount;
  timestamp = none;
}

abbrev report : Report
report = ("TXN1", small_row) ∷ ("TXN2", small_row) ∷ []

abbrev answered : Investigation
answered = record {
  transaction_id = "TXN1";
  resolution = proposal;
  tool_names = some "search_bank_statement" ∷ [];
  gate_decision = some "escalate";
  investigated_at = some "t";
}

abbrev failed_retry : Investigation
failed_retry = record answered {
  resolution = record proposal {
    root_cause = "[INVESTIGATION FAILED TO PRODUCE A FINAL ANSWER: no model]";
  };
}

abbrev log : List Investigation
log = answered ∷ failed_retry ∷ []

abbrev audit : List AuditEntry
audit = entry "TXN1" 120000 ∷ entry "TXN2" 6000000 ∷ []

abbrev there : List SeededCase
there =
    case_from outside (entry "TXN1" 120000) small_row none
      (primary_from_audit_entry (entry "TXN1" 120000))
    ∷ []

-- The failed retry does not hide the answer before it.
real_one-load_investigations_example :
    real_one (load_investigations log "TXN1") ≡ get_last? (keep (is_real_for "TXN1") log)
real_one-load_investigations_example = real_one-load_investigations log "TXN1"

answer_is_kept : real_one (load_investigations log "TXN1") ≡ some answered
unfolding load_investigations
answer_is_kept = refl

abbrev outcomes_in : Seeding → List Outcome
outcomes_in (inl e) = []
outcomes_in (inr (outcomes, final)) = outcomes

abbrev table_in : Seeding → List SeededCase
table_in (inl e) = []
table_in (inr (outcomes, final)) = final

abbrev run : Seeding
run = seed outside report log audit there

run_ends : run ≡ inr (outcomes_in run, table_in run)
unfolding seed case_from primary_from_audit_entry
run_ends = refl

-- The first case gets its investigation, and the second is new.
outcomes_run : outcomes_in run ≡ Outcome.enriched ∷ Outcome.inserted ResolutionSource.agent ∷ []
unfolding seed case_from primary_from_audit_entry
outcomes_run = refl

there-IsQueue : IsQueue (proposals there)
unfolding case_from primary_from_audit_entry
there-IsQueue = record {
  apart = (refl, tt);
  tiered = (inr (refl, omega arith), tt);
  typed = (refl, tt);
}

seed-IsQueue_example : IsQueue (proposals (table_in run))
seed-IsQueue_example =
    seed-IsQueue outside report log audit there (table_in run) (outcomes_in run) run_ends
      there-IsQueue

seed-proposals_example :
    (new : List Frozen) × ((proposals (table_in run) ≡ proposals there ++ new)
      × ((length new ≡ count is_inserted (outcomes_in run))
          × AddsUp (length (escalated_entries audit)) (outcomes_in run)))
seed-proposals_example =
    seed-proposals outside report log audit there (table_in run) (outcomes_in run) run_ends

-- A case that is not there yet, proposed twice.
abbrev twice : List AuditEntry
twice = entry "TXN2" 6000000 ∷ entry "TXN2" 6000000 ∷ []

seed-Succeeds_example :
    Succeeds (seed outside report [] twice there)
    ↔ Distinct (new_ids report there (escalated_entries twice))
seed-Succeeds_example = seed-Succeeds outside report [] twice there (refl, (refl, tt))

twice_fails : seed outside report [] twice there ≡ inl SeedError.unique_violation
unfolding seed case_from primary_from_audit_entry
twice_fails = refl
