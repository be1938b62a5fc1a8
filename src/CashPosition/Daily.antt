-- ===== src/CashPosition/Daily.antt =====
-- cash_position/engine.py: the forecast of the days that follow, and the whole cash position.
use close_control.Base.{
  ℕ, zero, suc, ◌-◌, Option, none, some, List, [], ◌∷◌, Bool, false, ltb, ◌==◌, length, keep,
  if◌then◌else◌,
}
use close_control.Base.Int.{ℤ, pos, ◌+ℤ◌}
use close_control.Calendar.{is_business_day, add_business_days}
use close_control.Matching.LedgerCheck.{GatewayRow}
use close_control.Matching.Report.{PaymentRow}
use close_control.CashPosition.{
  CashRow, Snapshot, in_transit_rows, sum_of, cash_total, classify_positions, summarize_snapshot,
}

-- `settle_date > day` and `settle_date == day`, false for NaT.
abbrev pub is_after : ℕ → Option ℕ → Bool
is_after day none = false
is_after day (some d) = ltb day d

abbrev pub is_on : ℕ → Option ℕ → Bool
is_on day none = false
is_on day (some d) = d == day

abbrev pub settles_after : ℕ → CashRow → Bool
settles_after day row = is_after day row.settle_date

abbrev pub settles_on : ℕ → CashRow → Bool
settles_on day row = is_on day row.settle_date

pub record Coverage : Type 0 where
  pub horizon_end : ℕ
  pub transactions_beyond_horizon_count : ℕ
  pub beyond_horizon_sum : ℤ
  pub forecast_complete : Bool

-- _forecast_horizon_coverage(detail, as_of, horizon_business_days)
unfoldable pub forecast_horizon_coverage : List CashRow → ℕ → ℕ → Coverage
unfolding add_business_days sum_of
forecast_horizon_coverage detail as_of horizon =
    let horizon_end = add_business_days as_of horizon in
    let beyond = keep (settles_after horizon_end) (in_transit_rows detail) in
    record {
      horizon_end = horizon_end;
      transactions_beyond_horizon_count = length beyond;
      beyond_horizon_sum = cash_total beyond;
      forecast_complete = length beyond == 0;
    }

pub record ForecastDay : Type 0 where
  pub forecast_date : ℕ
  pub business_days_from_as_of : ℕ
  pub is_business_day : Bool
  pub transaction_count : ℕ
  pub forecasted_net : ℤ
  pub cumulative_forecasted_net : ℤ

-- The loop of build_daily_forecast with `left` days left after `last`, its counter and its running
-- total; `rows` are those in transit.
unfoldable pub forecast_days : List CashRow → ℕ → ℕ → ℕ → ℤ → List ForecastDay
unfolding sum_of
forecast_days rows zero last counter cumulative = []
forecast_days rows (suc left) last counter cumulative =
    let day = suc last in
    let due = keep (settles_on day) rows in
    let counted = if is_business_day day then suc counter else counter in
    let total = cumulative +ℤ cash_total due in
    record {
      forecast_date = day;
      business_days_from_as_of = counted;
      is_business_day = is_business_day day;
      transaction_count = length due;
      forecasted_net = cash_total due;
      cumulative_forecasted_net = total;
    }
    ∷ forecast_days rows left day counted total

-- build_daily_forecast(detail, as_of, horizon_business_days), less its warning.
unfoldable pub build_daily_forecast : List CashRow → ℕ → ℕ → List ForecastDay
unfolding forecast_horizon_coverage forecast_days
build_daily_forecast detail as_of horizon =
    let coverage = forecast_horizon_coverage detail as_of horizon in
    forecast_days (in_transit_rows detail) (coverage.horizon_end - as_of) as_of 0 (pos 0)

pub record CashPosition : Type 0 where
  pub detail : List CashRow
  pub snapshot : Snapshot
  pub forecast : List ForecastDay
  pub coverage : Coverage

-- build_cash_position(report, gateway, as_of, horizon_business_days)
unfoldable pub build_cash_position : List PaymentRow → List GatewayRow → ℕ → ℕ → CashPosition
unfolding classify_positions forecast_horizon_coverage summarize_snapshot build_daily_forecast
build_cash_position report gateway as_of horizon =
    let detail = classify_positions report gateway as_of in
    record {
      detail = detail;
      snapshot = summarize_snapshot detail;
      forecast = build_daily_forecast detail as_of horizon;
      coverage = forecast_horizon_coverage detail as_of horizon;
    }
