-- ===== src/Review/Seed/Queue.antt =====
-- What a run of scripts/seed_review_queue.py does to the table of cases: it adds cases under new ids,
-- with the tier of their amount, and keeps what is frozen of the others.
use mathlib.Core.Path.{subst}
use close_control.Base.{
  ◌≡◌, ◌≤◌, ◌<◌, ◌*◌, ◌⊎◌, arith, leb, refl, sym, ap, ◌∙◌, ℕ, String, Option, none, some, List, [],
  ◌∷◌, ◌++◌, map, true, false, not, ◌&&◌, inl, inr, str_eq, contains, Bool-cases, Option-cases,
}
use close_control.Agent.{ReportRow}
use close_control.Review.Submission.{OverrideField, is_truthy}
use close_control.Review.Proposals.{AuditEntry, Investigation, Outside, ResolutionSource, Primary}
use close_control.Review.Seed.{
  SeededCase, id_of, manager_approval_threshold, tier_of, case_from, Outcome, update_where,
  decided_at, with_investigation, with_gate_decision, enrich, stamp, Step, done_with, insert_if,
  find_seeded, Report, row_for, real_for, seed_row, seed_entry, is_inserted, is_there,
}

-- What a later run never changes of a case.
pub record Frozen : Type 0 where
  pub transaction_id : String
  pub required_approval_tier : ℕ
  pub matcher_exception_type : Option String
  pub gate_final_decision : Option String
  pub column : OverrideField → Option String
  pub amount_at_risk : Option ℕ
  pub audit_record_hash : String
  pub resolution_source : ResolutionSource

abbrev pub frozen : SeededCase → Frozen
frozen c = record {
  transaction_id = c.case_row.transaction_id;
  required_approval_tier = c.case_row.required_approval_tier;
  matcher_exception_type = c.case_row.matcher_exception_type;
  gate_final_decision = c.case_row.gate_final_decision;
  column = c.case_row.column;
  amount_at_risk = c.amount_at_risk;
  audit_record_hash = c.audit_record_hash;
  resolution_source = c.resolution_source;
}

-- The second tier from 50,000 rupees on, and the first below, or where the amount is NaN.
abbrev pub IsTier : ℕ → Option ℕ → Type 0
IsTier tier none = tier ≡ 1
IsTier tier (some amount) =
    ((tier ≡ 2) × (50000 * 100 ≤ amount)) ⊎ ((tier ≡ 1) × (amount < 50000 * 100))

abbrev pub HasTier : Frozen → Type 0
HasTier f = IsTier f.required_approval_tier f.amount_at_risk

abbrev pub HasType : Frozen → Type 0
HasType f = is_there f.matcher_exception_type ≡ true

tier_of-IsTier : (amount : Option ℕ) → IsTier (tier_of amount) amount
tier_of-IsTier none = refl
tier_of-IsTier (some amount) = elim (Bool-cases (leb manager_approval_threshold amount)) [
  | inl e ↦ inl (rw e refl, ground (arith, e))
  | inr e ↦ inr (rw e refl, ground (arith, e))
]

abbrev pub ids : List SeededCase → List String
ids = map id_of

frozen-update_where :
    (f : SeededCase → SeededCase) (id : String) (cases : List SeededCase)
    → ((c : SeededCase) → frozen (f c) ≡ frozen c)
    → map frozen (update_where f id cases) ≡ map frozen cases
frozen-update_where f id [] h = refl
frozen-update_where f id (c ∷ cases) h =
    let rest = frozen-update_where f id cases h in
    elim (Bool-cases (str_eq (id_of c) id)) [
      | inl e ↦ rw e (cc (h c, rest))
      | inr e ↦ rw e (ap (λ more. frozen c ∷ more) rest)
    ]

-- A case added under an id that is not there yet, with the tier of its amount.
pub record Added (id : String) (cases cases' : List SeededCase) : Type 0 where
  pub added : SeededCase
  pub of_entry : id_of added ≡ id
  pub fresh : contains (ids cases) id ≡ false
  pub tiered : HasTier (frozen added)
  pub typed : HasType (frozen added)
  pub appended : cases' ≡ cases ++ added ∷ []

-- The effect of one turn: an exception, a case added, or no frozen column changed.
abbrev pub StepEffect : String → List SeededCase → Step → Type 0
StepEffect id cases (Step.failed e) = Unit {0}
StepEffect id cases (Step.done (Outcome.inserted s) cases') = Added id cases cases'
StepEffect id cases (Step.done _ cases') = map frozen cases' ≡ map frozen cases

stamp-frozen :
    (existing : SeededCase) (entry : AuditEntry) (cases : List SeededCase)
    → map frozen (stamp existing entry cases) ≡ map frozen cases
stamp-frozen existing entry cases =
    elim (Bool-cases (not (is_there existing.agent_decided_at) && is_truthy entry.timestamp)) [
      | inl e ↦
          rw e (
            frozen-update_where (decided_at entry.timestamp) entry.transaction_id cases (λ c. refl))
      | inr e ↦ rw e refl
    ]

-- A turn that ends and adds no case: no frozen column changes.
pub record Keeps (cases : List SeededCase) (step : Step) : Type 0 where
  pub outcome : Outcome
  pub cases' : List SeededCase
  pub ends : step ≡ Step.done outcome cases'
  pub adds_none : is_inserted outcome ≡ false
  pub same : map frozen cases' ≡ map frozen cases

Keeps-Effect :
    (id : String) (cases : List SeededCase) (step : Step)
    → Keeps cases step
    → StepEffect id cases step
Keeps-Effect id cases step k =
    subst (StepEffect id cases) (sym k.ends) (by_outcome k.outcome k.cases' k.adds_none k.same)
  where
    by_outcome :
        (outcome : Outcome) (cases' : List SeededCase)
        → is_inserted outcome ≡ false
        → map frozen cases' ≡ map frozen cases
        → StepEffect id cases (Step.done outcome cases')
    by_outcome (Outcome.inserted s) cases' other same = cc other
    by_outcome Outcome.skipped_no_report cases' other same = same
    by_outcome Outcome.conflict cases' other same = same
    by_outcome Outcome.unchanged cases' other same = same
    by_outcome Outcome.enriched cases' other same = same
    by_outcome Outcome.backfilled cases' other same = same

pub done_Keeps :
    (cases cases' : List SeededCase) (outcome : Outcome)
    → is_inserted outcome ≡ false
    → map frozen cases' ≡ map frozen cases
    → Keeps cases (Step.done outcome cases')
done_Keeps cases cases' outcome other same = record {
  outcome = outcome;
  cases' = cases';
  ends = refl;
  adds_none = other;
  same = same;
}

enrich-Keeps :
    (existing : SeededCase) (real : Option Investigation) (id : String)
    (cases before : List SeededCase)
    → map frozen cases ≡ map frozen before
    → Keeps before (done_with (enrich existing real id cases))
enrich-Keeps existing none id cases before h = done_Keeps before cases _ refl h
enrich-Keeps existing (some e) id cases before h = elim (Bool-cases existing.investigated) [
  | inr fresh ↦ rw fresh (
      done_Keeps before _ _ refl
        (frozen-update_where (with_investigation e) id cases (λ c. refl) ∙ h))
  | inl again ↦ elim (Bool-cases (is_there existing.case_row.investigation_gate_decision)) [
    | inl known ↦ rw (again, known) (done_Keeps before cases _ refl h)
    | inr unknown ↦
        rw (again, unknown)
          (done_Keeps before _ _ refl
            (frozen-update_where (with_gate_decision e) id cases (λ c. refl) ∙ h))
  ]
]

insert_if-Effect :
    (o : Outside) (entry : AuditEntry) (row : ReportRow) (real : Option Investigation)
    (primary : Option Primary) (cases : List SeededCase)
    → StepEffect entry.transaction_id cases (insert_if o entry row real primary cases)
unfolding case_from
insert_if-Effect o entry row real none cases = tt
insert_if-Effect o entry row real (some primary) cases =
    elim (Bool-cases (is_there row.final_exception_type)) [
      | inl typed ↦ elim (Bool-cases (contains (ids cases) entry.transaction_id)) [
        | inl e ↦ rw (typed, e, StepEffect) tt
        | inr e ↦
            rw (typed, e, StepEffect)
              (record {
                added = case_from o entry row real primary;
                of_entry = refl;
                fresh = e;
                tiered = tier_of-IsTier primary.amount_at_risk;
                typed = typed;
                appended = refl;
              })
      ]
      | inr untyped ↦ rw (untyped, StepEffect) tt
    ]

module _ (o : Outside) (report : Report) (log : List Investigation)
    (existing_rows : List SeededCase) where
  pub seed_row-Keeps :
      (entry : AuditEntry) (row : ReportRow) (existing : SeededCase) (cases : List SeededCase)
      → Keeps cases (seed_row o report log existing_rows entry row (some existing) cases)
  unfolding seed_row
  seed_row-Keeps entry row existing cases =
      elim (Bool-cases (str_eq existing.audit_record_hash (o.canonical_hash entry row))) [
        | inl e ↦ rw e (
            enrich-Keeps existing (real_for o report log existing_rows entry) entry.transaction_id
              (stamp existing entry cases) cases (stamp-frozen existing entry cases))
        | inr e ↦ rw e (done_Keeps cases cases _ refl refl)
      ]

  seed_row-Effect :
      (entry : AuditEntry) (row : ReportRow) (existing : Option SeededCase)
      (cases : List SeededCase)
      → StepEffect entry.transaction_id cases
          (seed_row o report log existing_rows entry row existing cases)
  unfolding seed_row
  seed_row-Effect entry row none cases = insert_if-Effect o entry row _ _ cases
  seed_row-Effect entry row (some existing) cases =
      Keeps-Effect entry.transaction_id cases _ (seed_row-Keeps entry row existing cases)

  pub seed_entry-Effect :
      (entry : AuditEntry) (cases : List SeededCase)
      → StepEffect entry.transaction_id cases (seed_entry o report log existing_rows entry cases)
  seed_entry-Effect entry cases = elim (Option-cases (row_for report entry.transaction_id)) [
    | inl e ↦ rw e refl
    | inr (row, e) ↦
        rw e (seed_row-Effect entry row (find_seeded existing_rows entry.transaction_id) cases)
  ]
