-- ===== src/Matching.antt =====
-- matching/: the rows of the sources, and the thresholds of matching/config.py.
-- A sum in rupees is an integer number of paise, and a tolerance in rupees or in per cent is
-- multiplied out; a date is the number of its day, counted from any fixed day.
pub mod Blocking
pub mod Engine
pub mod Exceptions
pub mod LedgerCheck
pub mod Report
pub mod SettlementBuilder
pub mod RootCause
pub mod Diagnostics
use close_control.Base.{ℕ, ◌+◌, ◌*◌, String, Option, List, Bool, leb, ltb}
use close_control.Base.Int.{ℤ, pos_part, neg_part}

-- A row of the bank statement; `utr` may be missing.
pub record BankRow : Type 0 where
  pub bank_txn_id : String
  pub bank_account_id : String
  pub credit_date : ℕ
  pub credit_amount : ℤ
  pub utr : Option String

-- A settlement candidate of matching/settlement_builder.py.
pub record Settlement : Type 0 where
  pub settlement_id : String
  pub merchant_id : String
  pub member_count : ℕ
  pub expected_total : ℤ
  pub settle_date : ℕ

-- `k * a <= m * b`, for natural factors.
abbrev pub scaled_leb : ℕ → ℤ → ℕ → ℤ → Bool
scaled_leb k a m b = leb (k * pos_part a + m * neg_part b) (m * pos_part b + k * neg_part a)

-- EXACT_MATCH_TOLERANCE_RUPEES, 0.02
abbrev pub exact_match_tolerance : ℕ
exact_match_tolerance = 2

-- DATE_BLOCK_WINDOW_DAYS
abbrev pub date_block_window_days : ℕ
date_block_window_days = 4
