-- ===== src/Review/Sla/Days.antt =====
-- The business days of review_backend/sla.py.
use close_control.Base.{◌≡◌, ap, ◌∙◌, ℕ, suc, ◌-◌, ◌*◌, ◌<◌, ◌⊎◌, true, arith, if◌then◌else◌}
use close_control.Calendar.{count_days}
use close_control.Calendar.Walks.{weekend_days, advance-Walks}
use close_control.Review.Sla.{is_business_day, add_business_days, business_days_between}

abbrev bound_of : ℕ → ℕ → ℕ
bound_of d n = 3 * n - weekend_days d

bound_of_lowers :
    (d n : ℕ) → bound_of (suc d) (if is_business_day (suc d) then n else suc n) < bound_of d (suc n)
bound_of_lowers d n = ground arith

-- The date that is `n` business days after `d` has `n` business days up to it, and is one for `n > 0`.
pub business_days_between-add_business_days :
    (d n : ℕ)
    → (business_days_between d (add_business_days d n) ≡ n)
      × ((n ≡ 0) ⊎ (is_business_day (add_business_days d n) ≡ true))
unfolding business_days_between add_business_days
business_days_between-add_business_days d n =
    let w = advance-Walks is_business_day bound_of bound_of_lowers (3 * n) d n (omega arith) in
    (
      ap (λ k. count_days is_business_day k d) (omega (arith, w.arrives)) ∙ w.counts,
      w.on_business_day,
    )
