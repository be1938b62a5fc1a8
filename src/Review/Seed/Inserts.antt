-- ===== src/Review/Seed/Inserts.antt =====
-- The INSERT of scripts/seed_review_queue.py: when the gate answers, and when the constraint refuses.
use mathlib.Core.Path.{subst}
use mathlib.Core.List.{map-append}
use close_control.Base.{
  ◌≡◌, ◌↔◌, refl, sym, ap, ◌∙◌, String, Option, none, some, List, [], ◌∷◌, ◌++◌, true, false, inl,
  inr, arith, str_eq, eq_iff, contains, contains-append, All, Apart, Apart-head, Apart-append,
  Distinct, Bool-cases, Option-cases,
}
use close_control.Agent.{ExceptionResolution, ReportRow}
use close_control.Agent.Gate.{GateResult, apply_gate, decide}
use close_control.Agent.Policy.{get_policy}
use close_control.Review.Proposals.{
  AuditEntry, Investigation, Outside, Primary, primary_from_investigation, primary_from_audit_entry,
  primary_of_gate,
}
use close_control.Review.Seed.{
  SeededCase, id_of, case_from, primary_for, source_of, Outcome, Step, insert_if, find_seeded,
  Report, row_for, is_there,
}
use close_control.Review.Seed.Queue.{ids}

-- Every row of the report has an exception type.
abbrev pub IsTyped : Report → Type 0
IsTyped = All (λ entry. is_there entry.1.final_exception_type ≡ true)

pub row_for-typed :
    (report : Report) (id : String) (row : ReportRow)
    → IsTyped report
    → row_for report id ≡ some row
    → is_there row.final_exception_type ≡ true
row_for-typed [] id row t e = cc
row_for-typed ((key, found) ∷ report) id row t e = elim (Bool-cases (str_eq key id)) [
  | inl k ↦
      let same : found ≡ row = cc (rw k at e) in
      subst (λ r. is_there r.final_exception_type ≡ true) same t.0
  | inr k ↦ row_for-typed report id row t.1 (rw k at e)
]

apply_gate-some :
    (r : ExceptionResolution) (row : ReportRow) (extra : List String) (type : String)
    → row.final_exception_type ≡ some type
    → apply_gate r row extra ≡ some (decide r row extra type (get_policy type))
unfolding apply_gate
apply_gate-some r row extra type e =
    ap
      (λ (final : Option String). elim final as (λ _. Option GateResult) [
        | none ↦ none
        | some matcher_type ↦ some (decide r row extra matcher_type (get_policy matcher_type))
      ])
      e

pub gate_answers :
    (o : Outside) (entry : AuditEntry) (row : ReportRow) (real : Option Investigation)
    → is_there row.final_exception_type ≡ true
    → (p : Primary) × (primary_for o entry row real ≡ some p)
unfolding primary_from_investigation
gate_answers o entry row none t = (primary_from_audit_entry entry, refl)
gate_answers o entry row (some e) t = elim (Option-cases row.final_exception_type) [
  | inl untyped ↦ cc (rw untyped at t)
  | inr (type, typed) ↦
      (_, ap (primary_of_gate e row) (apply_gate-some e.resolution row _ type typed))
]

pub insert_done :
    (o : Outside) (entry : AuditEntry) (row : ReportRow) (real : Option Investigation)
    (primary : Option Primary) (cases cases' : List SeededCase) (outcome : Outcome)
    → insert_if o entry row real primary cases ≡ Step.done outcome cases'
    → (contains (ids cases) entry.transaction_id ≡ false)
      × (ids cases' ≡ ids cases ++ entry.transaction_id ∷ [])
unfolding case_from
insert_done o entry row real none cases cases' outcome h = cc
insert_done o entry row real (some primary) cases cases' outcome h =
    elim (Bool-cases (is_there row.final_exception_type)) [
      | inl typed ↦ elim (Bool-cases (contains (ids cases) entry.transaction_id)) [
        | inl e ↦ cc (rw (typed, e) at h)
        | inr e ↦
            let same : cases ++ case_from o entry row real primary ∷ [] ≡ cases' =
              cc (rw (typed, e) at h) in
            (
              e,
              ap ids (sym same) ∙ map-append id_of cases (case_from o entry row real primary ∷ []),
            )
      ]
      | inr untyped ↦ cc (rw untyped at h)
    ]

pub insert_ends :
    (o : Outside) (entry : AuditEntry) (row : ReportRow) (real : Option Investigation)
    (primary : Primary) (cases : List SeededCase)
    → is_there row.final_exception_type ≡ true
    → contains (ids cases) entry.transaction_id ≡ false
    → (cases' : List SeededCase) × ((insert_if o entry row real (some primary) cases
          ≡ Step.done (Outcome.inserted (source_of real)) cases')
        × (ids cases' ≡ ids cases ++ entry.transaction_id ∷ []))
unfolding case_from
insert_ends o entry row real primary cases typed h = (
  cases ++ case_from o entry row real primary ∷ [],
  (rw (typed, h) refl, map-append id_of cases (case_from o entry row real primary ∷ [])),
)

Apart-concat :
    (xs ys : List String) (x : String)
    → Apart xs ys
    → contains ys x ≡ false
    → Apart (xs ++ x ∷ []) ys
Apart-concat xs [] x a h = tt
Apart-concat xs (y ∷ ys) x a h = (
  ground (arith, contains-append xs (x ∷ []) y, eq_iff x y, eq_iff y x, h, a.0),
  Apart-concat xs ys x a.1 (ground (arith, h)),
)

pub not_found :
    (cases : List SeededCase) (id : String)
    → find_seeded cases id ≡ none
    → contains (ids cases) id ≡ false
not_found [] id h = refl
not_found (c ∷ cases) id h = elim (Bool-cases (str_eq (id_of c) id)) [
  | inl e ↦ cc (rw e at h)
  | inr e ↦
      let rest = not_found cases id (rw e at h) in
      ground (arith, rest, e, eq_iff id (id_of c), eq_iff (id_of c) id)
]

-- No id of the second list stands in the first, and none of them twice.
abbrev pub Fresh : List String → List String → Type 0
Fresh names new = Apart names new × Distinct new

pub Fresh-cons :
    (names new : List String) (id : String)
    → Fresh names (id ∷ new) ↔ ((contains names id ≡ false) × Fresh (names ++ id ∷ []) new)
Fresh-cons names new id = (
  λ h. (h.0.0, (Apart-concat names new id h.0.1 h.1.0, h.1.1)),
  λ h.
      let (before, after) = Apart-append names (id ∷ []) new h.1.0 in
      ((h.0, before), (Apart-head id [] new after, h.1.1)),
)
