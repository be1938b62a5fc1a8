-- ===== src/Review/Cases/FourEyes.antt =====
-- The four-eyes rule of review_backend/main.py: a tier-2 case is approved by two people.
use mathlib.Core.Path.{subst}
use close_control.Base.{
  ℕ, ◌≡◌, refl, sym, ap, ◌∙◌, ◌≢◌, ◌⊎◌, inl, inr, Option, some, List, [], ◌∷◌, ◌++◌, arith,
}
use close_control.Review.{Status, Decision, Role, Transition, next_status}
use close_control.Review.Rules.{approved_needs_manager, half_approved_needs_analyst, SecondApproval}
use close_control.Review.Chain.{Fields, Row}
use close_control.Review.Cases.{CaseRow, derive_status, prior_analyst_reviewer}
use close_control.Review.Cases.History.{
  Allowed, History, start, next, derive_status-concat, prior_analyst_reviewer-concat,
}

not_initially :
    (Hash : Type 0) (c : CaseRow) {s : Status}
    → derive_status {Hash = Hash} c [] ≡ s
    → (s ≡ Status.pending) ⊎ (s ≡ Status.auto_resolved)
unfolding derive_status
not_initially Hash c h = ground arith

module _ {Hash : Type 0} where
  -- A row of the table holds these fields.
  abbrev pub Recorded : Fields → List (Row Hash) → Type 0
  Recorded f [] = ⊥
  Recorded f (row ∷ rows) = (row.1 ≡ f) ⊎ Recorded f rows

  pub Recorded-append :
      (f : Fields) (rows more : List (Row Hash)) → Recorded f rows → Recorded f (rows ++ more)
  Recorded-append f [] more h = absurd h
  Recorded-append f (row ∷ rows) more (inl e) = inl e
  Recorded-append f (row ∷ rows) more (inr r) = inr (Recorded-append f rows more r)

  pub Recorded-concat :
      (f : Fields) (id : ℕ) (h : Option Hash) (rows : List (Row Hash))
      → Recorded f (rows ++ (id, f, h) ∷ [])
  Recorded-concat f id h [] = inl refl
  Recorded-concat f id h (row ∷ rows) = inr (Recorded-concat f id h rows)

  -- An analyst's approval that awaits a manager.
  pub record AnalystApproval (rows : List (Row Hash)) (a : Fields) : Type 0 where
    pub analyst_recorded : Recorded a rows
    pub analyst_approves : a.decision ≡ Decision.approved
    pub analyst_role : a.reviewer_role ≡ Role.analyst

  -- A manager's approval by someone other than the analyst.
  pub record ManagerApproval (rows : List (Row Hash)) (a m : Fields) : Type 0 where
    pub manager_recorded : Recorded m rows
    pub manager_approves : m.decision ≡ Decision.approved
    pub manager_role : m.reviewer_role ≡ Role.manager
    pub other_person : a.reviewer_name ≢ m.reviewer_name

  last_status :
      (c : CaseRow) (rows : List (Row Hash)) {all : List (Row Hash)} (id : ℕ) (f : Fields)
      (h : Option Hash) {s : Status}
      → all ≡ rows ++ (id, f, h) ∷ []
      → derive_status c all ≡ s
      → f.resulting_status ≡ s
  last_status c rows id f h {s} e st =
      sym (derive_status-concat c rows id f h) ∙ subst (λ l. derive_status c l ≡ s) e st

  half_approved_by :
      (c : CaseRow) {rows : List (Row Hash)}
      → History c rows
      → derive_status c rows ≡ Status.pending_manager_approval
      → (a : Fields) × AnalystApproval rows a × (prior_analyst_reviewer rows ≡ some a.reviewer_name)
  half_approved_by c start s = absurd (ground (arith, not_initially Hash c s))
  half_approved_by c (next {rows} {all} id f h past ok e) s =
      let r = last_status c rows id f h e s in
      let (_, _, approves, analyst) =
        half_approved_needs_analyst _ _ _ _ _ _ (ok.allowed ∙ ap Transition.to r) in
      (
        f,
        record {
          analyst_recorded = subst (λ l. Recorded f l) (sym e) (Recorded-concat f id h rows);
          analyst_approves = approves;
          analyst_role = analyst;
        },
        subst (λ l. prior_analyst_reviewer l ≡ some f.reviewer_name) (sym e)
            (prior_analyst_reviewer-concat rows id f h approves analyst r),
      )

  second_approval :
      (c : CaseRow) {rows : List (Row Hash)} {f : Fields}
      → Allowed c rows f
      → c.required_approval_tier ≡ 2
      → f.resulting_status ≡ Status.approved
      → SecondApproval
          (derive_status c rows)
          f.decision
          f.reviewer_role
          f.reviewer_name
          (prior_analyst_reviewer rows)
  second_approval c {rows} {f} ok t r = approved_needs_manager _ _ _ _ _ (
      subst
        (λ tier.
          next_status (derive_status c rows) tier f.decision f.reviewer_role f.reviewer_name
            (prior_analyst_reviewer rows)
          ≡ Transition.to Status.approved)
        t (ok.allowed ∙ ap Transition.to r))

  -- In every history of a tier-2 case that is approved, an analyst has approved it, and a manager
  -- of another name.
  pub two_approvers :
      (c : CaseRow) {rows : List (Row Hash)}
      → History c rows
      → c.required_approval_tier ≡ 2
      → derive_status c rows ≡ Status.approved
      → (a m : Fields) × AnalystApproval rows a × ManagerApproval rows a m
  two_approvers c start t s = absurd (ground (arith, not_initially Hash c s))
  two_approvers c (next {rows} {all} id f h past ok e) t s =
      let second = second_approval c ok t (last_status c rows id f h e s) in
      let (a, by, prior) = half_approved_by c past second.was_half_approved in
      (
        a,
        f,
        record {
          analyst_recorded =
              subst (λ l. Recorded a l) (sym e) (Recorded-append a rows _ by.analyst_recorded);
          analyst_approves = by.analyst_approves;
          analyst_role = by.analyst_role;
        },
        record {
          manager_recorded = subst (λ l. Recorded f l) (sym e) (Recorded-concat f id h rows);
          manager_approves = second.approves;
          manager_role = second.by_manager;
          other_person = λ same. second.by_another (prior ∙ ap some same);
        },
      )
