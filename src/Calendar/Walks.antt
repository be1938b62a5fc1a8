-- ===== src/Calendar/Walks.antt =====
-- The walk over the business days of a calendar ends, and it has counted as many as were asked for.
use close_control.Base.{
  ◌≡◌, refl, ap, ◌∙◌, ℕ, zero, suc, ◌+◌, ◌-◌, ◌*◌, ◌≤◌, ◌<◌, ◌⊎◌, Bool, true, arith, ltb,
  Bool-cases, inl, inr, if◌then◌else◌,
}
use close_control.Calendar.{
  weekday, advance, count_days, last_holiday, is_business_day, add_business_days,
}

module _ (works : ℕ → Bool) where
  -- The walk from `cur` to `last` counts `n` business days, and it ends on one.
  pub record Walks (cur n last : ℕ) : Type 0 where
    pub days : ℕ
    pub arrives : last ≡ days + cur
    pub counts : count_days works days cur ≡ n
    pub stays : n ≡ 0 → last ≡ cur
    pub on_business_day : (n ≡ 0) ⊎ (works last ≡ true)

  stay : (cur : ℕ) → Walks cur 0 cur
  unfolding count_days
  stay cur = record {
    days = 0;
    arrives = omega arith;
    counts = refl;
    stays = λ h. refl;
    on_business_day = inl refl;
  }

  -- One day more before a walk.
  walk_on :
      (cur n last : ℕ)
      → Walks (suc cur) (if works (suc cur) then n else suc n) last
      → Walks cur (suc n) last
  unfolding count_days
  walk_on cur n last w = elim (Bool-cases (works (suc cur))) [
    | inl work ↦ record {
      days = suc w.days;
      arrives = omega (arith, w.arrives);
      counts = simp work (ap suc (w.counts ∙ simp work refl));
      stays = λ h. absurd (omega (arith, h));
      on_business_day = inr (elim w.on_business_day [
        | inl last_one ↦ ap works (w.stays last_one) ∙ work
        | inr done ↦ done
      ]);
    }
    | inr rest ↦ record {
      days = suc w.days;
      arrives = omega (arith, w.arrives);
      counts = simp rest (w.counts ∙ simp rest refl);
      stays = λ h. absurd (omega (arith, h));
      on_business_day = inr (elim w.on_business_day [
        | inl never ↦ absurd (ground (arith, never, rest))
        | inr done ↦ done
      ]);
    }
  ]

  -- Each day of the walk lowers the bound on the days that are left, which the fuel covers.
  pub advance-Walks :
      (bound : ℕ → ℕ → ℕ)
      → ((d n : ℕ) → bound (suc d) (if works (suc d) then n else suc n) < bound d (suc n))
      → (fuel cur n : ℕ) → bound cur n ≤ fuel
      → Walks cur n (advance works fuel cur n)
  unfolding advance
  advance-Walks bound lowers fuel cur zero h = stay cur
  advance-Walks bound lowers zero cur (suc n) h = absurd (omega (arith, lowers cur n))
  advance-Walks bound lowers (suc fuel) cur (suc n) h =
      walk_on cur n _ (advance-Walks bound lowers fuel (suc cur) _ (omega (arith, lowers cur n)))

-- How many days of a weekend are past.
abbrev pub weekend_days : ℕ → ℕ
weekend_days d = if ltb (weekday d) 5 then 0 else weekday d - 4

abbrev bound_of : ℕ → ℕ → ℕ
bound_of d n = 3 * (last_holiday - d) + (3 * n - weekend_days d)

bound_of_lowers :
    (d n : ℕ) → bound_of (suc d) (if is_business_day (suc d) then n else suc n) < bound_of d (suc n)
bound_of_lowers d n = ground arith

pub add_business_days-Walks : (d n : ℕ) → Walks is_business_day d n (add_business_days d n)
unfolding add_business_days
add_business_days-Walks d n =
    advance-Walks is_business_day bound_of bound_of_lowers _ d n (omega arith)
