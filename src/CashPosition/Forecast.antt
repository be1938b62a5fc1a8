-- ===== src/CashPosition/Forecast.antt =====
-- The forecast of cash_position/engine.py has all the cash in transit that settles by its horizon.
use close_control.Base.{
  ◌≡◌, refl, sym, ap, ◌∙◌, ℕ, zero, suc, ◌+◌, ◌-◌, List, [], ◌∷◌, Bool, true, false, not, ◌&&◌,
  arith, length, keep, Option, none, some, All, Bool-cases, inl, inr, leb,
}
use close_control.Base.Int.{ℤ, pos, ◌+ℤ◌, int_laws, +ℤ_assoc}
use close_control.Calendar.{is_business_day, add_business_days, count_days}
use close_control.Calendar.Walks.{add_business_days-Walks}
use close_control.Matching.LedgerCheck.{GatewayRow, successes}
use close_control.Matching.Report.{PaymentRow, first_success}
use close_control.CashPosition.{
  classify, classify_positions, is_captured, captured_date_of, settle_date_of, is_confirmed,
  summarize_snapshot, CashRow, sum_of, cash_total, in_transit_rows, bucket_of, is_in_transit_bucket,
  plus,
}
use close_control.CashPosition.Daily.{
  build_cash_position, settles_after, settles_on, is_after, is_on, ForecastDay, forecast_days,
  build_daily_forecast, forecast_horizon_coverage,
}
use close_control.CashPosition.Totals.{sum_of-both, plus-left, plus-right}

-- What the loop has reached: the day, the counter and the running total.
pub record Reached : Type 0 where
  pub day : ℕ
  pub business_days : ℕ
  pub cumulative : ℤ

-- What the last row of a forecast says, and what it starts from when there is none.
abbrev pub reached : Reached → List ForecastDay → Reached
reached start [] = start
reached start (row ∷ rows) =
    reached
      (record {
        day = row.forecast_date;
        business_days = row.business_days_from_as_of;
        cumulative = row.cumulative_forecasted_net;
      })
      rows

-- The date is after `last` and no more than `left` days after it.
abbrev is_within : ℕ → ℕ → Option ℕ → Bool
is_within left last settles = is_after last settles && not (is_after (left + last) settles)

abbrev settles_within : ℕ → ℕ → CashRow → Bool
settles_within left last row = is_within left last row.settle_date

never_within : (last : ℕ) (settles : Option ℕ) → is_within 0 last settles ≡ false
never_within last none = refl
never_within last (some d) = ground arith

keep-none : (rows : List CashRow) (last : ℕ) → keep (settles_within 0 last) rows ≡ []
keep-none [] last = refl
keep-none (row ∷ rows) last = simp (never_within last row.settle_date) (keep-none rows last)

-- A day more: the next day, or one of the days after it.
within_next :
    (left last : ℕ) (settles : Option ℕ)
    → is_on (suc last) settles ≡ true
    → (is_within (suc left) last settles ≡ true) × (is_within left (suc last) settles ≡ false)
within_next left last none h = absurd (ground (arith, h))
within_next left last (some d) h = (ground arith, ground arith)

within_later :
    (left last : ℕ) (settles : Option ℕ)
    → is_on (suc last) settles ≡ false
    → is_within (suc left) last settles ≡ is_within left (suc last) settles
within_later left last none h = refl
within_later left last (some d) h = ground arith

next_day :
    (left last : ℕ) (rows : List CashRow)
    → cash_total (keep (settles_on (suc last)) rows)
        +ℤ cash_total (keep (settles_within left (suc last)) rows)
      ≡ cash_total (keep (settles_within (suc left) last) rows)
unfolding sum_of
next_day left last [] = grind int_laws
next_day left last (row ∷ rows) =
    let rest = next_day left last rows in
    let x = row.cash_amount in
    elim (Bool-cases (settles_on (suc last) row)) [
      | inl e ↦
          let (now, later) = within_next left last row.settle_date e in
          simp (e, now, later) (plus-left x _ _ ∙ ap (plus x) rest)
      | inr e ↦
          let same = within_later left last row.settle_date e in
          elim (Bool-cases (settles_within left (suc last) row)) [
            | inl later ↦ simp (e, same, later) (plus-right x _ _ ∙ ap (plus x) rest)
            | inr never ↦ simp (e, same, never) rest
          ]
    ]

abbrev pub at : ℕ → ℕ → ℤ → Reached
at day counter cumulative = record { day = day; business_days = counter; cumulative = cumulative }

at_eq :
    (day day' counter counter' : ℕ) (total total' : ℤ)
    → day ≡ day'
    → counter ≡ counter'
    → total ≡ total'
    → at day counter total ≡ at day' counter' total'
at_eq day day' counter counter' total total' d c t = cc (d, c, t)

forecast_days-reached :
    (rows : List CashRow) (left last counter : ℕ) (cumulative : ℤ)
    → reached (at last counter cumulative) (forecast_days rows left last counter cumulative)
      ≡ at
          (left + last)
          (counter + count_days is_business_day left last)
          (cumulative +ℤ cash_total (keep (settles_within left last) rows))
unfolding forecast_days count_days sum_of
forecast_days-reached rows zero last counter cumulative =
    at_eq _ _ _ _ _ _ (omega arith) (omega arith)
      (grind int_laws ∙ ap (λ due. cumulative +ℤ cash_total due) (sym (keep-none rows last)))
forecast_days-reached rows (suc left) last counter cumulative =
    forecast_days-reached rows left (suc last) _ _
    ∙ at_eq _ _ _ _ _ _ (omega arith) (ground arith)
        (+ℤ_assoc cumulative _ _ ∙ ap (λ due. cumulative +ℤ due) (next_day left last rows))

forecast_days-length :
    (rows : List CashRow) (left last counter : ℕ) (cumulative : ℤ)
    → length (forecast_days rows left last counter cumulative) ≡ left
unfolding forecast_days
forecast_days-length rows zero last counter cumulative = refl
forecast_days-length rows (suc left) last counter cumulative =
    ap suc (forecast_days-length rows left (suc last) _ _)

-- What is in transit settles after the date.
bucket_of-in_transit :
    (captured safe : Bool) (settles : Option ℕ) (as_of : ℕ)
    → is_in_transit_bucket (bucket_of captured settles as_of safe) ≡ true
    → is_after as_of settles ≡ true
unfolding bucket_of
bucket_of-in_transit true true none as_of h = h
bucket_of-in_transit true false none as_of h = h
bucket_of-in_transit false safe none as_of h = h
bucket_of-in_transit false safe (some d) as_of h = absurd (ground (arith, h))
bucket_of-in_transit true safe (some d) as_of h = elim (Bool-cases (leb d as_of)) [
  | inl e ↦ absurd (ground (arith, e, h))
  | inr e ↦ ground arith
]

All-settles_after :
    (report : List PaymentRow) (gateway : List GatewayRow) (as_of : ℕ)
    → All
        (λ row. settles_after as_of row ≡ true)
        (in_transit_rows (classify_positions report gateway as_of))
unfolding classify_positions classify
All-settles_after [] gateway as_of = tt
All-settles_after (row ∷ report) gateway as_of =
    let primary = first_success (successes gateway row.transaction_id) in
    let captured = is_captured (captured_date_of primary) as_of in
    let settles = settle_date_of primary in
    let rest = All-settles_after report gateway as_of in
    elim (Bool-cases (is_in_transit_bucket (bucket_of captured settles as_of (is_confirmed row)))) [
      | inl e ↦ rw (e, All) (bucket_of-in_transit captured (is_confirmed row) settles as_of e, rest)
      | inr e ↦ rw (e, All) rest
    ]

up_to_horizon :
    (left as_of : ℕ) (rows : List CashRow)
    → All (λ row. settles_after as_of row ≡ true) rows
    → keep (λ row. not (settles_after (left + as_of) row)) rows
      ≡ keep (settles_within left as_of) rows
up_to_horizon left as_of [] h = refl
up_to_horizon left as_of (row ∷ rows) h =
    let rest = up_to_horizon left as_of rows h.1 in
    elim (Bool-cases (settles_after (left + as_of) row)) [
      | inl e ↦ simp (h.0, e) rest
      | inr e ↦ simp (h.0, e) (ap (λ more. row ∷ more) rest)
    ]

zero_add : (n : ℕ) → 0 + n ≡ n
zero_add n = omega arith

zero_first : (a b : ℤ) → (pos 0 +ℤ a) +ℤ b ≡ b +ℤ a
zero_first a b = grind int_laws

-- The forecast has a day for each day up to the horizon, its last day is the horizon, which is
-- `horizon` business days after the date, and what it adds up to there, with what settles beyond the
-- horizon, is the sum in transit of the snapshot.
pub build_cash_position-forecast :
    (report : List PaymentRow) (gateway : List GatewayRow) (as_of horizon : ℕ)
    → let position = build_cash_position report gateway as_of horizon in
      (length position.forecast + as_of ≡ position.coverage.horizon_end)
      × (((reached (at as_of 0 (pos 0)) position.forecast).day ≡ position.coverage.horizon_end)
          × (((reached (at as_of 0 (pos 0)) position.forecast).business_days ≡ horizon)
              × ((reached (at as_of 0 (pos 0)) position.forecast).cumulative
                    +ℤ position.coverage.beyond_horizon_sum
                  ≡ position.snapshot.in_transit_sum)))
unfolding build_cash_position build_daily_forecast forecast_horizon_coverage summarize_snapshot
build_cash_position-forecast report gateway as_of horizon =
    let rows = in_transit_rows (classify_positions report gateway as_of) in
    let w = add_business_days-Walks as_of horizon in
    let left = add_business_days as_of horizon - as_of in
    let ends : left + as_of ≡ add_business_days as_of horizon = omega (arith, w.arrives) in
    let walked : left ≡ w.days = omega (arith, w.arrives) in
    let run = forecast_days-reached rows left as_of 0 (pos 0) in
    let by_then = keep (settles_within left as_of) rows in
    let beyond = keep (settles_after (add_business_days as_of horizon)) rows in
    let others : keep (λ row. not (settles_after (add_business_days as_of horizon) row)) rows
        ≡ by_then =
      ap (λ end. keep (λ row. not (settles_after end row)) rows) (sym ends)
      ∙ up_to_horizon left as_of rows (All-settles_after report gateway as_of) in
    (
      ap (λ n. n + as_of) (forecast_days-length rows left as_of 0 (pos 0)) ∙ ends,
      (
        ap (λ r. r.day) run ∙ ends,
        (
          ap (λ r. r.business_days) run
              ∙ zero_add (count_days is_business_day left as_of)
              ∙ ap (λ days. count_days is_business_day days as_of) walked
              ∙ w.counts,
          ap (λ r. r.cumulative +ℤ cash_total beyond) run
              ∙ zero_first (cash_total by_then) (cash_total beyond)
              ∙ ap (λ kept. cash_total beyond +ℤ cash_total kept) (sym others)
              ∙ sum_of-both (λ row. row.cash_amount)
                  (settles_after (add_business_days as_of horizon)) rows,
        ),
      ),
    )
