-- ===== src/Review/Seed/Repeated.antt =====
-- When a run of scripts/seed_review_queue.py ends well: the first query is a snapshot, so a new case
-- that stands twice among the escalated entries is inserted twice.
use mathlib.Core.Path.{subst}
use close_control.Base.{
  ◌≡◌, ◌↔◌, refl, sym, ap, ◌∙◌, String, none, some, List, [], ◌∷◌, map, Bool, true, false, not,
  ◌&&◌, inl, inr, keep, Apart, Distinct, Bool-cases, Option-cases,
}
use close_control.Agent.{ReportRow}
use close_control.Review.Proposals.{AuditEntry, Investigation, Outside}
use close_control.Review.Seed.{
  SeededCase, primary_for, Outcome, Step, insert_if, find_seeded, Report, row_for, real_for,
  Seeding, prepend, and_then, seed_row, seed_entry, seed_all, seed, escalated_entries, is_there,
}
use close_control.Review.Seed.Queue.{ids, Keeps, done_Keeps, seed_row-Keeps}
use close_control.Review.Seed.Frozen.{proposal_ids, ids_of_proposals, and_then-Ends}
use close_control.Review.Seed.Inserts.{
  IsTyped, row_for-typed, gate_answers, insert_done, insert_ends, not_found, Fresh, Fresh-cons,
}

-- The run ends without an exception.
abbrev pub Succeeds : Seeding → Type 0
Succeeds s = (p : List Outcome × List SeededCase) × (s ≡ inr p)

-- An entry with a report row, of a case that the first query does not have.
abbrev pub is_new : Report → List SeededCase → AuditEntry → Bool
is_new report existing_rows entry =
    is_there (row_for report entry.transaction_id)
    && not (is_there (find_seeded existing_rows entry.transaction_id))

abbrev pub new_ids : Report → List SeededCase → List AuditEntry → List String
new_ids report existing_rows entries =
    map (λ e. e.transaction_id) (keep (is_new report existing_rows) entries)

module _ (o : Outside) (report : Report) (log : List Investigation)
    (existing_rows : List SeededCase) where
  abbrev turn : AuditEntry → List SeededCase → Step
  turn = seed_entry o report log existing_rows

  new_row :
      (entry : AuditEntry)
      → is_new report existing_rows entry ≡ true
      → (row : ReportRow) × ((row_for report entry.transaction_id ≡ some row)
          × (find_seeded existing_rows entry.transaction_id ≡ none))
  new_row entry h = elim (Option-cases (row_for report entry.transaction_id)) [
    | inl e ↦ cc (rw e at h)
    | inr (row, e) ↦ elim (Option-cases (find_seeded existing_rows entry.transaction_id)) [
      | inl absent ↦ (row, (e, absent))
      | inr (c, there) ↦ cc (rw (e, there) at h)
    ]
  ]

  -- A new entry is inserted.
  turn_is_insert :
      (entry : AuditEntry) (cases : List SeededCase)
      → is_new report existing_rows entry ≡ true
      → (row : ReportRow) × ((row_for report entry.transaction_id ≡ some row)
          × (turn entry cases
              ≡ insert_if o entry row
                  (real_for o report log existing_rows entry)
                  (primary_for o entry row (real_for o report log existing_rows entry))
                  cases))
  unfolding seed_row
  turn_is_insert entry cases h =
      let (row, (e, absent)) = new_row entry h in (row, (e, rw (e, absent) refl))

  old_Keeps :
      (entry : AuditEntry) (cases : List SeededCase)
      → is_new report existing_rows entry ≡ false
      → Keeps cases (turn entry cases)
  old_Keeps entry cases h = elim (Option-cases (row_for report entry.transaction_id)) [
    | inl e ↦ rw e (done_Keeps cases cases _ refl refl)
    | inr (row, e) ↦ elim (Option-cases (find_seeded existing_rows entry.transaction_id)) [
      | inl absent ↦ cc (rw (e, absent) at h)
      | inr (c, there) ↦ rw (e, there) (seed_row-Keeps o report log existing_rows entry row c cases)
    ]
  ]

  old_ids :
      (cases : List SeededCase) (step : Step) (k : Keeps cases step) → ids k.cases' ≡ ids cases
  old_ids cases step k =
      sym (ids_of_proposals k.cases') ∙ (ap proposal_ids k.same ∙ ids_of_proposals cases)

  -- A run that ends well has inserted no case twice.
  succeeds_once :
      (entries : List AuditEntry) (cases final : List SeededCase) (outcomes : List Outcome)
      → seed_all o report log existing_rows entries cases ≡ inr (outcomes, final)
      → Fresh (ids cases) (new_ids report existing_rows entries)
  unfolding seed_all
  succeeds_once [] cases final outcomes h = (tt, tt)
  succeeds_once (entry ∷ entries) cases final outcomes h =
      let e =
        and_then-Ends (turn entry cases) (seed_all o report log existing_rows entries) outcomes
          final h in
      let rest = succeeds_once entries e.cases' final e.others e.then_ends in
      let new = new_ids report existing_rows entries in
      elim (Bool-cases (is_new report existing_rows entry)) [
        | inl fresh ↦
            let (row, (found, is_insert)) = turn_is_insert entry cases fresh in
            let (absent, now) =
              insert_done o entry row _ _ cases e.cases' e.outcome (sym is_insert ∙ e.first) in
            rw fresh (
              (Fresh-cons (ids cases) new entry.transaction_id).1
                (absent, subst (λ names. Fresh names new) now rest))
        | inr old ↦
            let k = old_Keeps entry cases old in
            let same : k.cases' ≡ e.cases' = cc (k.ends, e.first) in
            let now = sym (ap ids same) ∙ old_ids cases _ k in
            rw old (subst (λ names. Fresh names new) now rest)
      ]

  ends_with :
      (entry : AuditEntry) (entries : List AuditEntry) (cases cases' : List SeededCase)
      (outcome : Outcome)
      → turn entry cases ≡ Step.done outcome cases'
      → Succeeds (seed_all o report log existing_rows entries cases')
      → Succeeds (seed_all o report log existing_rows (entry ∷ entries) cases)
  unfolding seed_all
  ends_with entry entries cases cases' outcome first ((outcomes, final), e) = (
    (outcome ∷ outcomes, final),
    ap (λ step. and_then step (seed_all o report log existing_rows entries)) first
        ∙ ap (prepend outcome) e,
  )

  once-Succeeds :
      (entries : List AuditEntry) (cases : List SeededCase)
      → IsTyped report
      → Fresh (ids cases) (new_ids report existing_rows entries)
      → Succeeds (seed_all o report log existing_rows entries cases)
  unfolding seed_all
  once-Succeeds [] cases typed fresh = (([], cases), refl)
  once-Succeeds (entry ∷ entries) cases typed fresh =
      let new = new_ids report existing_rows entries in
      elim (Bool-cases (is_new report existing_rows entry)) [
        | inl is_fresh ↦
            let (absent, rest) =
              (Fresh-cons (ids cases) new entry.transaction_id).0 (rw is_fresh at fresh) in
            let (row, (found, is_insert)) = turn_is_insert entry cases is_fresh in
            let row_typed = row_for-typed report entry.transaction_id row typed found in
            let (primary, answers) =
              gate_answers o entry row (real_for o report log existing_rows entry) row_typed in
            let (cases', (inserts, now)) =
              insert_ends o entry row (real_for o report log existing_rows entry) primary cases
                row_typed absent in
            ends_with entry entries cases cases' _
              (is_insert
                ∙ (ap
                      (λ p.
                        insert_if o entry row (real_for o report log existing_rows entry) p cases)
                      answers
                    ∙ inserts))
              (once-Succeeds entries cases' typed (subst (λ names. Fresh names new) (sym now) rest))
        | inr old ↦
            let k = old_Keeps entry cases old in
            ends_with entry entries cases k.cases' k.outcome k.ends (
              once-Succeeds entries k.cases' typed
                (subst (λ names. Fresh names new) (sym (old_ids cases _ k)) (rw old at fresh)))
      ]

  new_are_absent :
      (entries : List AuditEntry) → Apart (ids existing_rows) (new_ids report existing_rows entries)
  new_are_absent [] = tt
  new_are_absent (entry ∷ entries) = elim (Bool-cases (is_new report existing_rows entry)) [
    | inl fresh ↦
        let (row, (found, absent)) = new_row entry fresh in
        rw fresh (not_found existing_rows entry.transaction_id absent, new_are_absent entries)
    | inr old ↦ rw old (new_are_absent entries)
  ]

-- Where every row of the report has an exception type, a run ends without an exception exactly if no
-- case that is not there yet stands twice among the escalated entries with a report row.
pub seed-Succeeds :
    (o : Outside) (report : Report) (log : List Investigation) (audit : List AuditEntry)
    (cases : List SeededCase)
    → IsTyped report
    → Succeeds (seed o report log audit cases)
      ↔ Distinct (new_ids report cases (escalated_entries audit))
unfolding seed
seed-Succeeds o report log audit cases typed = (
  λ ((outcomes, final), e).
      (succeeds_once o report log cases (escalated_entries audit) cases final outcomes e).1,
  λ apart.
      once-Succeeds o report log cases (escalated_entries audit) cases typed
        (new_are_absent o report log cases (escalated_entries audit), apart),
)
