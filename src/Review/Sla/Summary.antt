-- ===== src/Review/Sla/Summary.antt =====
-- The summary of review_backend/sla.py is that of its cases.
use Prim.Native.Nat.{max}
use close_control.Base.{
  ◌≡◌, refl, ℕ, ◌+◌, ◌*◌, String, Option, none, some, List, [], ◌∷◌, false, arith, ltb, Bool-cases,
  inl, inr, if◌then◌else◌,
}
use close_control.Matching.LedgerCheck.{LedgerRow}
use close_control.Review.Sla.{
  deadline_of, business_days_between, position, sla_for_case, Tally, tally_case, tally, sla_summary,
  worst_days, worse_case, compensation_per_day,
}

-- Over the cases, the sum of a number and the greatest number.
abbrev pub sum_of : (String → ℕ) → List String → ℕ
sum_of f [] = 0
sum_of f (id ∷ ids) = f id + sum_of f ids

abbrev pub greatest : (String → ℕ) → List String → ℕ
greatest f [] = 0
greatest f (id ∷ ids) = max (f id) (greatest f ids)

worse_case-max :
    (worst : Option (String × ℕ)) (id : String) (n : ℕ)
    → worst_days (worse_case worst id n) ≡ max (worst_days worst) n
worse_case-max none id n = omega arith
worse_case-max (some (a, b)) id n = ground arith

not_late : (n : ℕ) → ltb 0 n ≡ false → n ≡ 0
not_late n h = ground arith

module _ (ledger : List LedgerRow) (as_of : ℕ) where
  abbrev pub overdue : String → ℕ
  overdue id = (sla_for_case ledger id as_of).days_overdue

  abbrev pub breaches : String → ℕ
  breaches id = if (sla_for_case ledger id as_of).breached then 1 else 0

  abbrev pub compensation : String → ℕ
  compensation id = (sla_for_case ledger id as_of).compensation_accrued

  tally_case-lem :
      (t : Tally) (id : String) (deadline : Option ℕ)
      → ((tally_case t id as_of deadline).breached
          ≡ t.breached + (if (position deadline as_of).breached then 1 else 0))
        × (((tally_case t id as_of deadline).total_days
              ≡ t.total_days + (position deadline as_of).days_overdue)
            × (worst_days (tally_case t id as_of deadline).worst
                ≡ max (worst_days t.worst) (position deadline as_of).days_overdue))
  unfolding tally_case position
  tally_case-lem t id none = (omega arith, (omega arith, omega arith))
  tally_case-lem t id (some deadline) =
      elim (Bool-cases (ltb 0 (business_days_between deadline as_of))) [
        | inl late ↦ simp late (omega arith, (refl, worse_case-max t.worst id _))
        | inr on_time ↦
            simp on_time
              (omega arith, (omega (arith, not_late _ on_time), omega (arith, not_late _ on_time)))
      ]

  tally-lem :
      (ids : List String) (t : Tally)
      → ((tally ledger as_of ids t).breached ≡ t.breached + sum_of breaches ids)
        × (((tally ledger as_of ids t).total_days ≡ t.total_days + sum_of overdue ids)
            × (worst_days (tally ledger as_of ids t).worst
                ≡ max (worst_days t.worst) (greatest overdue ids)))
  unfolding tally sla_for_case
  tally-lem [] t = (omega arith, (omega arith, omega arith))
  tally-lem (id ∷ ids) t =
      let (b, (d, w)) = tally_case-lem t id (deadline_of ledger id) in
      let (bs, (ds, ws)) = tally-lem ids (tally_case t id as_of (deadline_of ledger id)) in
      (omega (arith, b, bs), (omega (arith, d, ds), omega (arith, w, ws)))

  compensation-position :
      (deadline : Option ℕ)
      → (position deadline as_of).compensation_accrued
        ≡ (position deadline as_of).days_overdue * compensation_per_day
  unfolding position
  compensation-position none = omega arith
  compensation-position (some deadline) = refl

  compensation-overdue :
      (ids : List String) → sum_of compensation ids ≡ sum_of overdue ids * compensation_per_day
  unfolding sla_for_case
  compensation-overdue [] = refl
  compensation-overdue (id ∷ ids) =
      let rest = compensation-overdue ids in
      let one = compensation-position (deadline_of ledger id) in omega (arith, rest, one)

  -- The summary counts the breached cases, adds up their days overdue and the compensation that has
  -- accrued, and names the most days overdue, as the cases have them one by one.
  pub sla_summary-cases :
      (ids : List String)
      → ((sla_summary ledger ids as_of).breached_count ≡ sum_of breaches ids)
        × (((sla_summary ledger ids as_of).total_days_overdue ≡ sum_of overdue ids)
            × (((sla_summary ledger ids as_of).compensation_exposure ≡ sum_of compensation ids)
                × ((sla_summary ledger ids as_of).worst_case_days_overdue ≡ greatest overdue ids)))
  unfolding sla_summary
  sla_summary-cases ids =
      let (b, (d, w)) = tally-lem ids (record { breached = 0; total_days = 0; worst = none }) in
      (
        omega (arith, b),
        (omega (arith, d), (omega (arith, d, compensation-overdue ids), omega (arith, w))),
      )
