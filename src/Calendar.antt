-- ===== src/Calendar.antt =====
-- data_generation/utils.py: the calendar of business days, and the loops over days that it shares
-- with review_backend/sla.py. A date is its ordinal (`date.toordinal()`), and the ordinal 1 is a
-- Monday.
pub mod Walks
use Prim.Native.Nat.{◌%◌}
use close_control.Base.{
  ℕ, zero, suc, ◌+◌, ◌-◌, ◌*◌, List, [], ◌∷◌, Bool, false, not, ◌&&◌, ◌||◌, ◌==◌, ltb,
  if◌then◌else◌,
}

-- `d.weekday()`, 0 for a Monday.
abbrev pub weekday : ℕ → ℕ
weekday d = (d + 6) % 7

module _ (works : ℕ → Bool) where
  -- `while added < n`, with `n` days left to add.
  unfoldable pub advance : ℕ → ℕ → ℕ → ℕ
  advance fuel cur zero = cur
  advance zero cur (suc n) = cur
  advance (suc fuel) cur (suc n) = advance fuel (suc cur) (if works (suc cur) then n else suc n)

  -- How many of the `left` days after `cur` are business days.
  unfoldable pub count_days : ℕ → ℕ → ℕ
  count_days zero cur = 0
  count_days (suc left) cur =
      let rest = count_days left (suc cur) in if works (suc cur) then suc rest else rest

-- `d in days`
abbrev pub is_one_of : List ℕ → ℕ → Bool
is_one_of [] d = false
is_one_of (x ∷ xs) d = d == x || is_one_of xs d

-- INDIA_HOLIDAYS_2026: 15 August, 2 October, 20 October, 5 November and 26 January.
abbrev pub india_holidays_2026 : List ℕ
india_holidays_2026 = 739843 ∷ 739891 ∷ 739909 ∷ 739925 ∷ 739642 ∷ []

-- The last of the holidays.
abbrev pub last_holiday : ℕ
last_holiday = 739925

abbrev pub is_business_day : ℕ → Bool
is_business_day d = ltb (weekday d) 5 && not (is_one_of india_holidays_2026 d)

-- add_business_days(d, n): after the holidays, of any three days in a row one is a business day.
unfoldable pub add_business_days : ℕ → ℕ → ℕ
unfolding advance
add_business_days d n = advance is_business_day (3 * (last_holiday - d) + 3 * n) d n
