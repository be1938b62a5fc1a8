-- ===== src/Review/Sla.antt =====
-- review_backend/sla.py: the deadline of a case in business days, and how far past it a date is. A
-- date is its ordinal.
pub mod Days
pub mod Summary
use Prim.Native.Nat.{◌%◌}
use close_control.Base.{
  ℕ, zero, suc, ◌+◌, ◌-◌, ◌*◌, String, Option, none, some, List, [], ◌∷◌, Bool, true, false, ltb,
  str_eq, length, if◌then◌else◌,
}
use close_control.Calendar.{weekday, advance, count_days}
use close_control.Matching.LedgerCheck.{LedgerRow}

abbrev pub is_business_day : ℕ → Bool
is_business_day d = ltb (weekday d) 5

-- add_business_days(d, n): of any three days in a row one is a business day.
unfoldable pub add_business_days : ℕ → ℕ → ℕ
unfolding advance
add_business_days d n = advance is_business_day (3 * n) d n

unfoldable pub business_days_between : ℕ → ℕ → ℕ
unfolding count_days
business_days_between start end = count_days is_business_day (end - start) start

-- RBI_TAT_BUSINESS_DAYS less the two days that the ledger's date has.
abbrev pub business_days_from_expected_to_deadline : ℕ
business_days_from_expected_to_deadline = 5 - 2

-- RBI_COMPENSATION_PER_DAY_RUPEES, in paise.
abbrev pub compensation_per_day : ℕ
compensation_per_day = 10000

-- `deadlines_for(data_dir).get(transaction_id)`: of two rows of one payment, the later one is kept.
pub deadline_of : List LedgerRow → String → Option ℕ
unfolding add_business_days
deadline_of [] id = none
deadline_of (led ∷ ledger) id = elim (deadline_of ledger id) [
  | some deadline ↦ some deadline
  | none ↦
      if str_eq led.transaction_id id
      then some
          (add_business_days led.expected_settlement_date business_days_from_expected_to_deadline)
      else none
]

pub record Sla : Type 0 where
  pub deadline : Option ℕ
  pub days_overdue : ℕ
  pub breached : Bool
  pub compensation_accrued : ℕ

position : Option ℕ → ℕ → Sla
unfolding business_days_between
position none as_of = record {
  deadline = none;
  days_overdue = 0;
  breached = false;
  compensation_accrued = 0;
}
position (some deadline) as_of =
    let overdue = business_days_between deadline as_of in
    record {
      deadline = some deadline;
      days_overdue = overdue;
      breached = ltb 0 overdue;
      compensation_accrued = overdue * compensation_per_day;
    }

-- sla_for_case(transaction_id, as_of, data_dir), on the rows of the ledger.
unfoldable pub sla_for_case : List LedgerRow → String → ℕ → Sla
unfolding position deadline_of
sla_for_case ledger id as_of = position (deadline_of ledger id) as_of

-- The variables of the loop of sla_summary.
pub record Tally : Type 0 where
  pub breached : ℕ
  pub total_days : ℕ
  pub worst : Option (String × ℕ)

abbrev pub worse_case : Option (String × ℕ) → String → ℕ → Option (String × ℕ)
worse_case none id overdue = some (id, overdue)
worse_case (some (worst_id, worst)) id overdue =
    if ltb worst overdue then some (id, overdue) else some (worst_id, worst)

pub tally_case : Tally → String → ℕ → Option ℕ → Tally
unfolding business_days_between
tally_case t id as_of none = t
tally_case t id as_of (some deadline) =
    let overdue = business_days_between deadline as_of in
    if ltb 0 overdue
    then record {
      breached = suc t.breached;
      total_days = t.total_days + overdue;
      worst = worse_case t.worst id overdue;
    }
    else t

pub tally : List LedgerRow → ℕ → List String → Tally → Tally
unfolding tally_case deadline_of
tally ledger as_of [] t = t
tally ledger as_of (id ∷ ids) t =
    tally ledger as_of ids (tally_case t id as_of (deadline_of ledger id))

pub record SlaSummary : Type 0 where
  pub open_cases_checked : ℕ
  pub breached_count : ℕ
  pub total_days_overdue : ℕ
  pub compensation_exposure : ℕ
  pub worst_case : Option String
  pub worst_case_days_overdue : ℕ

abbrev worst_id : Option (String × ℕ) → Option String
worst_id none = none
worst_id (some (id, days)) = some id

abbrev pub worst_days : Option (String × ℕ) → ℕ
worst_days none = 0
worst_days (some (id, days)) = days

-- sla_summary(open_transaction_ids, as_of, data_dir), on the rows of the ledger.
unfoldable pub sla_summary : List LedgerRow → List String → ℕ → SlaSummary
unfolding tally
sla_summary ledger open_ids as_of =
    let t = tally ledger as_of open_ids (record { breached = 0; total_days = 0; worst = none }) in
    record {
      open_cases_checked = length open_ids;
      breached_count = t.breached;
      total_days_overdue = t.total_days;
      compensation_exposure = t.total_days * compensation_per_day;
      worst_case = worst_id t.worst;
      worst_case_days_overdue = worst_days t.worst;
    }
