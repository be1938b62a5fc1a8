-- ===== src/CashPosition.antt =====
-- cash_position/engine.py: the bucket of each payment on a date, and the totals of the buckets. Sums are paise; a missing sum is left out of a total, as pandas
-- does.
pub mod Totals
pub mod Daily
pub mod Forecast
pub mod Confirmed
pub mod BankSide
pub mod ReconciliationStatement
use close_control.Base.{
  ℕ, zero, suc, ◌+◌, ◌-◌, String, Option, none, some, List, [], ◌∷◌, Bool, true, false, not, ◌&&◌,
  ◌||◌, ltb, leb, ◌==◌, length, keep, if◌then◌else◌,
}
use close_control.Base.Int.{ℤ, pos, ◌+ℤ◌}
use close_control.Calendar.{is_business_day, add_business_days}
use close_control.Matching.Exceptions.{ExceptionType, code}
use close_control.Matching.LedgerCheck.{GatewayRow, successes}
use close_control.Matching.Report.{PaymentRow, first_success, is_none}

pub data CashBucket : Type 0 where
  confirmed in_transit at_risk not_yet_captured : CashBucket

-- A row of the detail: the row of the report, and the columns that classify_positions adds.
pub record CashRow : Type 0 where
  pub payment : PaymentRow
  pub captured_date : Option ℕ
  pub settle_date : Option ℕ
  pub is_held : Bool
  pub cash_bucket : CashBucket
  pub cash_amount : Option ℤ

-- The two columns of _primary_gateway_dates, with NaT for a payment that it does not have.
abbrev pub captured_date_of : Option GatewayRow → Option ℕ
captured_date_of none = none
captured_date_of (some primary) = primary.captured_on

abbrev pub settle_date_of : Option GatewayRow → Option ℕ
settle_date_of none = none
settle_date_of (some primary) = primary.settled_on

-- `captured_date.notna() & (captured_date <= as_of)`
abbrev pub is_captured : Option ℕ → ℕ → Bool
is_captured none as_of = false
is_captured (some d) as_of = leb d as_of

-- `is_clean | (final_exception_type.notna() & auto_resolve_eligible)`
abbrev pub is_confirmed : PaymentRow → Bool
is_confirmed row =
    row.is_clean || (not (is_none row.final_exception_type) && row.auto_resolve_eligible)

-- The masks over cash_bucket, for a row that is captured or not, with its settle date.
unfoldable pub bucket_of : Bool → Option ℕ → ℕ → Bool → CashBucket
bucket_of captured none as_of safe =
    if captured then CashBucket.at_risk else CashBucket.not_yet_captured
bucket_of captured (some d) as_of safe =
    if captured
    then if leb d as_of
      then if safe then CashBucket.confirmed else CashBucket.at_risk
      else CashBucket.in_transit
    else CashBucket.not_yet_captured

abbrev pub amount_of : CashBucket → PaymentRow → Option ℤ
amount_of CashBucket.confirmed row = row.observed_net
amount_of _ row = some row.expected_net

abbrev pub row_in : PaymentRow → Option ℕ → Option ℕ → CashBucket → CashRow
row_in row captured settles bucket = record {
  payment = row;
  captured_date = captured;
  settle_date = settles;
  is_held = is_none settles;
  cash_bucket = bucket;
  cash_amount = amount_of bucket row;
}

-- One row of classify_positions.
unfoldable pub classify : List GatewayRow → ℕ → PaymentRow → CashRow
unfolding bucket_of
classify gateway as_of row =
    let primary = first_success (successes gateway row.transaction_id) in
    let captured = captured_date_of primary in
    let settles = settle_date_of primary in
    row_in row captured settles
      (bucket_of (is_captured captured as_of) settles as_of (is_confirmed row))

-- classify_positions(report, gateway, as_of)
unfoldable pub classify_positions : List PaymentRow → List GatewayRow → ℕ → List CashRow
classify_positions [] gateway as_of = []
classify_positions (row ∷ report) gateway as_of =
    classify gateway as_of row ∷ classify_positions report gateway as_of

-- `cash_bucket == BUCKET_...`
abbrev pub is_confirmed_bucket : CashBucket → Bool
is_confirmed_bucket CashBucket.confirmed = true
is_confirmed_bucket _ = false

abbrev pub is_in_transit_bucket : CashBucket → Bool
is_in_transit_bucket CashBucket.in_transit = true
is_in_transit_bucket _ = false

abbrev pub is_at_risk_bucket : CashBucket → Bool
is_at_risk_bucket CashBucket.at_risk = true
is_at_risk_bucket _ = false

abbrev pub is_not_yet_captured_bucket : CashBucket → Bool
is_not_yet_captured_bucket CashBucket.not_yet_captured = true
is_not_yet_captured_bucket _ = false

abbrev pub confirmed_rows : List CashRow → List CashRow
confirmed_rows = keep (λ row. is_confirmed_bucket row.cash_bucket)

abbrev pub in_transit_rows : List CashRow → List CashRow
in_transit_rows = keep (λ row. is_in_transit_bucket row.cash_bucket)

abbrev pub at_risk_rows : List CashRow → List CashRow
at_risk_rows = keep (λ row. is_at_risk_bucket row.cash_bucket)

abbrev pub held_rows : List CashRow → List CashRow
held_rows detail = keep (λ row. row.is_held) (at_risk_rows detail)

abbrev pub at_risk_due_rows : List CashRow → List CashRow
at_risk_due_rows detail = keep (λ row. not row.is_held) (at_risk_rows detail)

abbrev pub plus : Option ℤ → ℤ → ℤ
plus none total = total
plus (some x) total = x +ℤ total

-- `rows[column].sum()`
unfoldable pub sum_of : (CashRow → Option ℤ) → List CashRow → ℤ
sum_of column [] = pos 0
sum_of column (row ∷ rows) = plus (column row) (sum_of column rows)

abbrev pub cash_total : List CashRow → ℤ
cash_total = sum_of (λ row. row.cash_amount)

abbrev has_type : ExceptionType → Option ExceptionType → Bool
has_type e none = false
has_type e (some final) = code final == code e

pub record Snapshot : Type 0 where
  pub confirmed_count : ℕ
  pub confirmed_clean_count : ℕ
  pub confirmed_auto_resolved_count : ℕ
  pub confirmed_sum : ℤ
  pub in_transit_count : ℕ
  pub in_transit_sum : ℤ
  pub held_count : ℕ
  pub held_sum : ℤ
  pub at_risk_due_count : ℕ
  pub at_risk_due_nominal : ℤ
  pub at_risk_due_known_delta : ℤ
  pub at_risk_by_exception_type : ExceptionType → ℕ
  pub not_yet_captured_count : ℕ
  pub projected_cash_position : ℤ

-- summarize_snapshot(detail); a type that `at_risk_by_exception_type` does not list is counted 0.
unfoldable pub summarize_snapshot : List CashRow → Snapshot
unfolding sum_of
summarize_snapshot detail =
    let confirmed = confirmed_rows detail in
    let in_transit = in_transit_rows detail in
    let held = held_rows detail in
    let at_risk_due = at_risk_due_rows detail in
    record {
      confirmed_count = length confirmed;
      confirmed_clean_count = length (keep (λ row. row.payment.is_clean) confirmed);
      confirmed_auto_resolved_count = length (keep (λ row. not row.payment.is_clean) confirmed);
      confirmed_sum = cash_total confirmed;
      in_transit_count = length in_transit;
      in_transit_sum = cash_total in_transit;
      held_count = length held;
      held_sum = cash_total held;
      at_risk_due_count = length at_risk_due;
      at_risk_due_nominal = cash_total at_risk_due;
      at_risk_due_known_delta = sum_of (λ row. row.payment.net_delta) at_risk_due;
      at_risk_by_exception_type =
          λ e. length (keep (λ row. has_type e row.payment.final_exception_type) at_risk_due);
      not_yet_captured_count =
          length (keep (λ row. is_not_yet_captured_bucket row.cash_bucket) detail);
      projected_cash_position = cash_total confirmed +ℤ cash_total in_transit;
    }
