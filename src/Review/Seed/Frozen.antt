-- ===== src/Review/Seed/Frozen.antt =====
-- The queue after a run of scripts/seed_review_queue.py.
use mathlib.Core.Path.{subst}
use mathlib.Core.List.{map-append, append-nil, append_assoc}
use close_control.Base.{
  ◌≡◌, refl, sym, ap, ◌∙◌, ℕ, suc, ◌+◌, String, List, [], ◌∷◌, ◌++◌, map, Bool, false, inl, inr,
  arith, contains, length, length-append, All, All-append, Distinct, Distinct-append,
}
use close_control.Review.Proposals.{AuditEntry, Investigation, Outside, ResolutionSource}
use close_control.Review.Seed.{
  SeededCase, id_of, Outcome, Step, Report, Seeding, prepend, and_then, seed_entry, seed_all, seed,
  escalated_entries, is_inserted, is_unchanged, is_conflict, is_skipped, count,
}
use close_control.Review.Seed.Queue.{
  Frozen, frozen, HasTier, HasType, ids, Added, StepEffect, seed_entry-Effect,
}

abbrev pub proposals : List SeededCase → List Frozen
proposals = map frozen

abbrev pub proposal_ids : List Frozen → List String
proposal_ids = map (λ f. f.transaction_id)

-- The cases have different ids, and each has an exception type and the tier of its amount.
pub record IsQueue (fs : List Frozen) : Type 0 where
  pub apart : Distinct (proposal_ids fs)
  pub tiered : All HasTier fs
  pub typed : All HasType fs

pub ids_of_proposals : (cases : List SeededCase) → proposal_ids (proposals cases) ≡ ids cases
ids_of_proposals [] = refl
ids_of_proposals (c ∷ cases) = ap (λ more. id_of c ∷ more) (ids_of_proposals cases)

-- What a run has made of the table.
pub record Grown (cases final : List SeededCase) (outcomes : List Outcome) : Type 0 where
  pub new : List Frozen
  pub grown : proposals final ≡ proposals cases ++ new
  pub counted : length new ≡ count is_inserted outcomes
  pub queue : IsQueue (proposals cases) → IsQueue (proposals final)

pub record Turn (id : String) (cases cases' : List SeededCase) (outcome : Outcome) : Type 0 where
  pub new : List Frozen
  pub grown : proposals cases' ≡ proposals cases ++ new
  pub counted : length new ≡ count is_inserted (outcome ∷ [])
  pub queue : IsQueue (proposals cases) → IsQueue (proposals cases')

add-IsQueue :
    (cases : List SeededCase) (c : SeededCase)
    → contains (ids cases) (id_of c) ≡ false
    → HasTier (frozen c)
    → HasType (frozen c)
    → IsQueue (proposals cases)
    → IsQueue (proposals cases ++ frozen c ∷ [])
add-IsQueue cases c fresh tiered typed q = record {
  apart =
      subst Distinct (sym (map-append (λ f. f.transaction_id) (proposals cases) (frozen c ∷ []))) (
        Distinct-append (proposal_ids (proposals cases)) (id_of c ∷ []) q.apart (refl, tt)
          (ap (λ names. contains names (id_of c)) (ids_of_proposals cases) ∙ fresh, tt));
  tiered = All-append HasTier (proposals cases) (frozen c ∷ []) q.tiered (tiered, tt);
  typed = All-append HasType (proposals cases) (frozen c ∷ []) q.typed (typed, tt);
}

Added-Turn :
    (id : String) (cases cases' : List SeededCase) (s : ResolutionSource)
    → Added id cases cases'
    → Turn id cases cases' (Outcome.inserted s)
Added-Turn id cases cases' s a =
    let grown = ap proposals a.appended ∙ map-append frozen cases (a.added ∷ []) in
    record {
      new = frozen a.added ∷ [];
      grown = grown;
      counted = refl;
      queue = λ q. subst IsQueue (sym grown) (
          add-IsQueue cases a.added (ap (contains (ids cases)) a.of_entry ∙ a.fresh) a.tiered
            a.typed q);
    }

kept-Turn :
    (id : String) (cases cases' : List SeededCase) (outcome : Outcome)
    → is_inserted outcome ≡ false
    → proposals cases' ≡ proposals cases
    → Turn id cases cases' outcome
kept-Turn id cases cases' outcome other same = record {
  new = [];
  grown = same ∙ sym (append-nil (proposals cases));
  counted = rw other refl;
  queue = λ q. subst IsQueue (sym same) q;
}

pub step-Turn :
    (id : String) (cases cases' : List SeededCase) (outcome : Outcome)
    → StepEffect id cases (Step.done outcome cases')
    → Turn id cases cases' outcome
step-Turn id cases cases' (Outcome.inserted s) h = Added-Turn id cases cases' s h
step-Turn id cases cases' Outcome.skipped_no_report h = kept-Turn id cases cases' _ refl h
step-Turn id cases cases' Outcome.conflict h = kept-Turn id cases cases' _ refl h
step-Turn id cases cases' Outcome.unchanged h = kept-Turn id cases cases' _ refl h
step-Turn id cases cases' Outcome.enriched h = kept-Turn id cases cases' _ refl h
step-Turn id cases cases' Outcome.backfilled h = kept-Turn id cases cases' _ refl h

-- The parts of a run that ends well.
pub record Ends (step : Step) (rest : List SeededCase → Seeding) (outcomes : List Outcome)
    (final : List SeededCase) : Type 0 where
  pub outcome : Outcome
  pub cases' : List SeededCase
  pub others : List Outcome
  pub first : step ≡ Step.done outcome cases'
  pub then_ends : rest cases' ≡ inr (others, final)
  pub listed : outcomes ≡ outcome ∷ others

prepend-Ends :
    (outcome : Outcome) (cases' : List SeededCase) (rest : List SeededCase → Seeding) (s : Seeding)
    (outcomes : List Outcome) (final : List SeededCase)
    → rest cases' ≡ s
    → prepend outcome s ≡ inr (outcomes, final)
    → Ends (Step.done outcome cases') rest outcomes final
prepend-Ends outcome cases' rest (inl e) outcomes final r h = cc
prepend-Ends outcome cases' rest (inr (others, last)) outcomes final r h = record {
  outcome = outcome;
  cases' = cases';
  others = others;
  first = refl;
  then_ends = cc;
  listed = cc;
}

pub and_then-Ends :
    (step : Step) (rest : List SeededCase → Seeding) (outcomes : List Outcome)
    (final : List SeededCase)
    → and_then step rest ≡ inr (outcomes, final)
    → Ends step rest outcomes final
and_then-Ends (Step.failed e) rest outcomes final h = cc
and_then-Ends (Step.done outcome cases') rest outcomes final h =
    prepend-Ends outcome cases' rest (rest cases') outcomes final refl h

count-cons :
    (p : Outcome → Bool) (outcome : Outcome) (others : List Outcome)
    → count p (outcome ∷ others) ≡ count p (outcome ∷ []) + count p others
count-cons p outcome others = ground arith

join_Grown :
    (id : String) (cases cases' final : List SeededCase) (outcome : Outcome) (others : List Outcome)
    → Turn id cases cases' outcome
    → Grown cases' final others
    → Grown cases final (outcome ∷ others)
join_Grown id cases cases' final outcome others t g = record {
  new = t.new ++ g.new;
  grown = g.grown ∙ (ap (λ fs. fs ++ g.new) t.grown ∙ append_assoc (proposals cases) t.new g.new);
  counted = omega (
    arith,
    length-append t.new g.new,
    t.counted,
    g.counted,
    count-cons is_inserted outcome others,
  );
  queue = λ q. g.queue (t.queue q);
}

-- How many turns ended each way.
abbrev pub AddsUp : ℕ → List Outcome → Type 0
AddsUp n outcomes =
    count is_inserted outcomes
      + count is_unchanged outcomes
      + count is_conflict outcomes
      + count is_skipped outcomes
    ≡ n

AddsUp-cons :
    (n : ℕ) (outcome : Outcome) (others : List Outcome)
    → AddsUp n others
    → AddsUp (suc n) (outcome ∷ others)
AddsUp-cons n (Outcome.inserted s) others h = omega arith
AddsUp-cons n Outcome.skipped_no_report others h = omega arith
AddsUp-cons n Outcome.conflict others h = omega arith
AddsUp-cons n Outcome.unchanged others h = omega arith
AddsUp-cons n Outcome.enriched others h = omega arith
AddsUp-cons n Outcome.backfilled others h = omega arith

module _ (o : Outside) (report : Report) (log : List Investigation)
    (existing_rows : List SeededCase) where
  seed_all-Grown :
      (entries : List AuditEntry) (cases final : List SeededCase) (outcomes : List Outcome)
      → seed_all o report log existing_rows entries cases ≡ inr (outcomes, final)
      → Grown cases final outcomes × AddsUp (length entries) outcomes
  unfolding seed_all
  seed_all-Grown [] cases final outcomes h =
      let no_outcomes : [] ≡ outcomes = cc h in
      let same : cases ≡ final = cc h in
      subst (λ os. Grown cases final os × AddsUp 0 os) no_outcomes
        (
          record {
            new = [];
            grown = ap proposals (sym same) ∙ sym (append-nil (proposals cases));
            counted = refl;
            queue = λ q. subst (λ cs. IsQueue (proposals cs)) same q;
          },
          refl,
        )
  seed_all-Grown (entry ∷ entries) cases final outcomes h =
      let e =
        and_then-Ends (seed_entry o report log existing_rows entry cases)
          (seed_all o report log existing_rows entries) outcomes final h in
      let id = entry.transaction_id in
      let effect =
        subst (StepEffect id cases) e.first
          (seed_entry-Effect o report log existing_rows entry cases) in
      let turn = step-Turn id cases e.cases' e.outcome effect in
      let (rest, adds) = seed_all-Grown entries e.cases' final e.others e.then_ends in
      subst (λ os. Grown cases final os × AddsUp (length (entry ∷ entries)) os) (sym e.listed)
        (
          join_Grown id cases e.cases' final e.outcome e.others turn rest,
          AddsUp-cons (length entries) e.outcome e.others adds,
        )

module _ (o : Outside) (report : Report) (log : List Investigation) (audit : List AuditEntry)
    (cases final : List SeededCase) (outcomes : List Outcome)
    (ends : seed o report log audit cases ≡ inr (outcomes, final)) where
  ends_well : Grown cases final outcomes × AddsUp (length (escalated_entries audit)) outcomes
  unfolding seed
  ends_well = seed_all-Grown o report log cases (escalated_entries audit) cases final outcomes ends

  -- A run that ends well keeps the cases under different ids, each with the tier that its amount asks
  -- for: the second where it is 50,000 rupees or more.
  pub seed-IsQueue : IsQueue (proposals cases) → IsQueue (proposals final)
  seed-IsQueue = ends_well.0.queue

  -- A run that ends well leaves the proposal, the tier, the amount and the hash of each case that was
  -- there as they were, and puts the new ones after them, as many as it counts as inserted; the
  -- inserted, unchanged, conflicting and skipped ones are together the escalated entries.
  pub seed-proposals :
      (new : List Frozen) × ((proposals final ≡ proposals cases ++ new)
        × ((length new ≡ count is_inserted outcomes)
            × AddsUp (length (escalated_entries audit)) outcomes))
  seed-proposals = let (g, adds) = ends_well in (g.new, (g.grown, (g.counted, adds)))
