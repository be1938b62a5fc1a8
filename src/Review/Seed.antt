-- ===== src/Review/Seed.antt =====
-- scripts/seed_review_queue.py: the escalated proposals of the audit log become cases of the queue.
-- The columns that are only shown, and the evidence that is displayed, are left out.
pub mod Investigations
pub mod Queue
pub mod Frozen
pub mod Inserts
pub mod Repeated
use close_control.Base.{
  ℕ, suc, ◌+◌, String, Option, none, some, List, [], ◌∷◌, ◌++◌, map, Bool, true, false, not, ◌&&◌,
  ◌⊎◌, inl, inr, ◌||◌, leb, str_eq, length, keep, contains, codes, starts, if◌then◌else◌,
}
use close_control.Agent.{ExceptionResolution, ReportRow}
use close_control.Agent.Evidence.{FinalDecision}
use close_control.Agent.Gate.{apply_gate, GateResult}
use close_control.Review.Submission.{OverrideField, is_truthy}
use close_control.Review.Cases.{CaseRow}
use close_control.Review.Proposals.{
  AuditEntry, Investigation, Outside, is_failure_entry, is_for, replaces, pick, best_from,
  load_investigations, real_one, ResolutionSource, Primary, primary_of_gate,
  primary_from_investigation, primary_from_audit_entry,
}

-- A row of `cases`, with the columns that a later run reads or updates.
pub record SeededCase : Type 0 where
  pub case_row : CaseRow
  pub amount_at_risk : Option ℕ
  pub audit_record_hash : String
  pub investigated : Bool
  pub investigated_at : Option String
  pub agent_decided_at : Option String
  pub resolution_source : ResolutionSource

abbrev pub id_of : SeededCase → String
id_of c = c.case_row.transaction_id

-- MANAGER_APPROVAL_THRESHOLD_RUPEES, 50000.00
abbrev pub manager_approval_threshold : ℕ
manager_approval_threshold = 5000000

-- `2 if amount >= threshold else 1`; no NaN is as great as the threshold.
abbrev pub tier_of : Option ℕ → ℕ
tier_of none = 1
tier_of (some amount) = if leb manager_approval_threshold amount then 2 else 1

abbrev gate_decision_of : Option Investigation → Option String
gate_decision_of none = none
gate_decision_of (some e) = e.gate_decision

abbrev investigated_at_of : Option Investigation → Option String
investigated_at_of none = none
investigated_at_of (some e) = e.investigated_at

abbrev pub is_there : {A : Type 0} → Option A → Bool
is_there none = false
is_there (some _) = true

abbrev pub source_of : Option Investigation → ResolutionSource
source_of none = ResolutionSource.agent
source_of (some _) = ResolutionSource.investigator

-- The row of the INSERT.
unfoldable pub case_from :
    Outside → AuditEntry → ReportRow → Option Investigation → Primary → SeededCase
case_from o entry row real primary = record {
  case_row = record {
    transaction_id = entry.transaction_id;
    required_approval_tier = tier_of primary.amount_at_risk;
    matcher_exception_type = row.final_exception_type;
    investigation_gate_decision = gate_decision_of real;
    gate_final_decision = some primary.gate_final_decision;
    column = primary.column;
  };
  amount_at_risk = primary.amount_at_risk;
  audit_record_hash = o.canonical_hash entry row;
  investigated = is_there real;
  investigated_at = investigated_at_of real;
  agent_decided_at = primary.timestamp;
  resolution_source = source_of real;
}

abbrev pub primary_for : Outside → AuditEntry → ReportRow → Option Investigation → Option Primary
primary_for o entry row none = some (primary_from_audit_entry entry)
primary_for o entry row (some e) = primary_from_investigation o e row

pub data Outcome : Type 0 where
  skipped_no_report conflict : Outcome
  unchanged enriched backfilled : Outcome
  inserted : ResolutionSource → Outcome

pub data SeedError : Type 0 where
  attribute_error not_null_violation unique_violation : SeedError

-- `UPDATE cases SET ... WHERE transaction_id = id`
abbrev pub update_where : (SeededCase → SeededCase) → String → List SeededCase → List SeededCase
update_where f id [] = []
update_where f id (c ∷ cases) = (if str_eq (id_of c) id then f c else c) ∷ update_where f id cases

abbrev pub decided_at : Option String → SeededCase → SeededCase
decided_at timestamp c = record c { agent_decided_at = timestamp }

abbrev pub with_investigation : Investigation → SeededCase → SeededCase
with_investigation e c = record c {
  case_row = record (c.case_row) { investigation_gate_decision = e.gate_decision };
  investigated = true;
  investigated_at = e.investigated_at;
}

abbrev pub with_gate_decision : Investigation → SeededCase → SeededCase
with_gate_decision e c = record c {
  case_row = record (c.case_row) { investigation_gate_decision = e.gate_decision };
  investigated_at = e.investigated_at;
}

-- A case that is there with the same hash, by what the run's first query has of it.
abbrev pub enrich :
    SeededCase → Option Investigation → String → List SeededCase → Outcome × List SeededCase
enrich existing none id cases = (Outcome.unchanged, cases)
enrich existing (some e) id cases =
    if not existing.investigated
    then (Outcome.enriched, update_where (with_investigation e) id cases)
    else if is_there existing.case_row.investigation_gate_decision
    then (Outcome.unchanged, cases)
    else (Outcome.backfilled, update_where (with_gate_decision e) id cases)

abbrev pub stamp : SeededCase → AuditEntry → List SeededCase → List SeededCase
stamp existing entry cases =
    if not (is_there existing.agent_decided_at) && is_truthy entry.timestamp
    then update_where (decided_at entry.timestamp) entry.transaction_id cases
    else cases

pub data Step : Type 0 where
  failed : SeedError → Step
  done : Outcome → List SeededCase → Step

abbrev pub done_with : Outcome × List SeededCase → Step
done_with (outcome, cases) = Step.done outcome cases

-- The INSERT, with the NOT NULL constraint on the exception type and the UNIQUE one on the
-- transaction id.
abbrev pub insert : ResolutionSource → SeededCase → List SeededCase → Step
insert source c cases =
    if not (is_there c.case_row.matcher_exception_type)
    then Step.failed SeedError.not_null_violation
    else if contains (map id_of cases) (id_of c)
    then Step.failed SeedError.unique_violation
    else Step.done (Outcome.inserted source) (cases ++ c ∷ [])

abbrev pub insert_if :
    Outside
    → AuditEntry
    → ReportRow
    → Option Investigation
    → Option Primary
    → List SeededCase
    → Step
insert_if o entry row real none cases = Step.failed SeedError.attribute_error
insert_if o entry row real (some primary) cases =
    insert (source_of real) (case_from o entry row real primary) cases

abbrev pub find_seeded : List SeededCase → String → Option SeededCase
find_seeded [] id = none
find_seeded (c ∷ cases) id =
    let rest = find_seeded cases id in if str_eq (id_of c) id then some c else rest

-- The rows of the report by their ids, which are different: `to_dict` raises where they are not.
abbrev pub Report : Type 0
Report = List (String × ReportRow)

-- `report_by_txn.get(id)`
abbrev pub row_for : Report → String → Option ReportRow
row_for [] id = none
row_for ((key, row) ∷ report) id =
    let rest = row_for report id in if str_eq key id then some row else rest

-- The exception, or the outcomes and the table.
abbrev pub Seeding : Type 0
Seeding = SeedError ⊎ (List Outcome × List SeededCase)

abbrev pub prepend : Outcome → Seeding → Seeding
prepend outcome (inl e) = inl e
prepend outcome (inr (outcomes, final)) = inr (outcome ∷ outcomes, final)

abbrev pub and_then : Step → (List SeededCase → Seeding) → Seeding
and_then (Step.failed e) rest = inl e
and_then (Step.done outcome cases) rest = prepend outcome (rest cases)

module _ (o : Outside) (report : Report) (log : List Investigation)
    (existing_rows : List SeededCase) where
  abbrev pub real_for : AuditEntry → Option Investigation
  real_for entry = real_one (load_investigations log entry.transaction_id)

  -- An entry with its report row, by the case that the first query has of it.
  unfoldable pub seed_row : AuditEntry → ReportRow → Option SeededCase → List SeededCase → Step
  unfolding primary_from_investigation primary_from_audit_entry case_from load_investigations
  seed_row entry row none cases =
      insert_if o entry row (real_for entry) (primary_for o entry row (real_for entry)) cases
  seed_row entry row (some existing) cases =
      if not (str_eq existing.audit_record_hash (o.canonical_hash entry row))
      then Step.done Outcome.conflict cases
      else done_with
          (enrich existing (real_for entry) entry.transaction_id (stamp existing entry cases))

  abbrev pub seed_found : AuditEntry → Option ReportRow → List SeededCase → Step
  seed_found entry none cases = Step.done Outcome.skipped_no_report cases
  seed_found entry (some row) cases =
      seed_row entry row (find_seeded existing_rows entry.transaction_id) cases

  -- One turn of the loop.
  abbrev pub seed_entry : AuditEntry → List SeededCase → Step
  seed_entry entry cases = seed_found entry (row_for report entry.transaction_id) cases

  -- The loop over the escalated entries; an exception ends it, and nothing is committed.
  unfoldable pub seed_all : List AuditEntry → List SeededCase → Seeding
  unfolding seed_row
  seed_all [] cases = inr ([], cases)
  seed_all (entry ∷ entries) cases = and_then (seed_entry entry cases) (seed_all entries)

abbrev pub is_escalated : AuditEntry → Bool
is_escalated e = str_eq e.gate_final_decision "escalate"

abbrev pub escalated_entries : List AuditEntry → List AuditEntry
escalated_entries = keep is_escalated

-- seed(...): the outcome of each escalated entry and the table, or the exception.
unfoldable pub seed :
    Outside → Report → List Investigation → List AuditEntry → List SeededCase → Seeding
unfolding seed_all
seed o report log audit cases = seed_all o report log cases (escalated_entries audit) cases

-- The counts that `seed` returns.
abbrev pub count : (Outcome → Bool) → List Outcome → ℕ
count p outcomes = length (keep p outcomes)

abbrev pub is_inserted : Outcome → Bool
is_inserted (Outcome.inserted _) = true
is_inserted _ = false

abbrev pub is_unchanged : Outcome → Bool
is_unchanged Outcome.unchanged = true
is_unchanged Outcome.enriched = true
is_unchanged Outcome.backfilled = true
is_unchanged _ = false

abbrev pub is_conflict : Outcome → Bool
is_conflict Outcome.conflict = true
is_conflict _ = false

abbrev pub is_skipped : Outcome → Bool
is_skipped Outcome.skipped_no_report = true
is_skipped _ = false
