-- ===== src/JournalEntries.antt =====
-- journal_entries.py: the double-entry journal entry that is drafted for a row of the report.
-- The narration and the time stamp are left out, and an account is a constructor for its code. An
-- amount that is NaN is `none`.
pub mod Balance
use close_control.Base.{
  ℕ, String, Option, none, some, List, [], ◌∷◌, ◌++◌, Bool, true, false, ◌||◌, ltb, leb,
  if◌then◌else◌,
}
use close_control.Base.Int.{ℤ, pos, ◌+ℤ◌, ◌-ℤ◌, abs, ltb_ℤ}
use close_control.Matching.Exceptions.{ExceptionType}
use close_control.Matching.Report.{PaymentRow}

-- CHART_OF_ACCOUNTS: 1010, 1200, 1900, 2100, 5100, 5200, 5300, 5400 and 5900.
pub data Account : Type 0 where
  bank_account gateway_settlement_receivable reconciliation_suspense loan_payable
        payment_processing_fee_expense refunds_and_returns chargeback_loss_expense
        duplicate_payment_clearing other_settlement_variance :
      Account

pub data Side : Type 0 where
  debit credit : Side

pub record Line : Type 0 where
  pub account : Account
  pub side : Side
  pub amount : Option ℤ

pub record JournalEntry : Type 0 where
  pub transaction_id : String
  pub exception_type : Option ExceptionType
  pub lines : List Line
  pub total_debits : Option ℤ
  pub total_credits : Option ℤ
  pub balanced : Bool

-- VARIANCE_ACCOUNT_BY_EXCEPTION_TYPE; an entry that is None, and a key that is missing, is the
-- default account, 1900.
abbrev pub variance_account : Option ExceptionType → Account
variance_account (some ExceptionType.fee_variance) = Account.payment_processing_fee_expense
variance_account (some ExceptionType.loan_recovery_deduction) = Account.loan_payable
variance_account (some ExceptionType.partial_refund) = Account.refunds_and_returns
variance_account (some ExceptionType.chargeback_received) = Account.chargeback_loss_expense
variance_account (some ExceptionType.duplicate_payment_detected) =
    Account.duplicate_payment_clearing
variance_account _ = Account.reconciliation_suspense

abbrev is_debit : Side → Bool
is_debit Side.debit = true
is_debit Side.credit = false

-- A sum of floats is NaN as soon as one of them is.
abbrev pub add : Option ℤ → Option ℤ → Option ℤ
add none b = none
add (some a) none = none
add (some a) (some b) = some (a +ℤ b)

-- The sums over the lines of a side.
pub total_debits : List Line → Option ℤ
total_debits [] = some (pos 0)
total_debits (l ∷ lines) =
    let rest = total_debits lines in if is_debit l.side then add l.amount rest else rest

pub total_credits : List Line → Option ℤ
total_credits [] = some (pos 0)
total_credits (l ∷ lines) =
    let rest = total_credits lines in if is_debit l.side then rest else add l.amount rest

-- `abs(total_dr - total_cr) <= 0.02`, which is false of a NaN.
abbrev pub are_close : Option ℤ → Option ℤ → Bool
are_close (some debits) (some credits) = leb (abs (debits -ℤ credits)) 2
are_close _ _ = false

-- validate_balanced(entry), within 0.02.
unfoldable pub validate_balanced : List Line → Bool
validate_balanced lines = are_close (total_debits lines) (total_credits lines)

abbrev pub is_held : Option ExceptionType → Bool
is_held (some ExceptionType.held_for_risk_review) = true
is_held _ = false

-- The lines where nothing has settled.
abbrev pub held_lines : ℤ → List Line
held_lines expected =
    record { account = Account.reconciliation_suspense; side = Side.debit; amount = some expected }
    ∷ record {
      account = Account.gateway_settlement_receivable;
      side = Side.credit;
      amount = some expected;
    }
    ∷ []

-- The variance line, for a delta of a paisa or more.
unfoldable pub variance_lines : Account → ℤ → List Line
variance_lines account delta =
    if ltb 0 (abs delta)
    then if ltb_ℤ delta (pos 0)
      then record { account = account; side = Side.debit; amount = some (pos (abs delta)) } ∷ []
      else record { account = account; side = Side.credit; amount = some delta } ∷ []
    else []

-- `abs(delta) > 0.005` is false of a NaN.
abbrev pub variance_of : Account → Option ℤ → List Line
variance_of account none = []
variance_of account (some delta) = variance_lines account delta

abbrev pub settled_lines : Account → ℤ → Option ℤ → Option ℤ → List Line
settled_lines account expected observed delta =
    record { account = Account.bank_account; side = Side.debit; amount = observed }
      ∷ variance_of account delta
    ++ record {
      account = Account.gateway_settlement_receivable;
      side = Side.credit;
      amount = some expected;
    }
      ∷ []

-- A value of the dictionary that is passed: None, a NaN, or an amount.
pub data Cell : Type 0 where
  missing nan : Cell
  amount : ℤ → Cell

-- `_round(delta) if delta is not None else _round(observed - expected)`
abbrev pub delta_or : Cell → Option ℤ → ℤ → Option ℤ
delta_or nan observed expected = none
delta_or (amount delta) observed expected = some delta
delta_or missing none expected = none
delta_or missing (some observed) expected = some (observed -ℤ expected)

abbrev lines_for : Option ExceptionType → ℤ → Option ℤ → Cell → List Line
lines_for exception expected observed delta =
    if is_held exception
    then held_lines expected
    else settled_lines (variance_account exception) expected observed
        (delta_or delta observed expected)

unfoldable pub lines_of : Option ExceptionType → ℤ → Cell → Cell → List Line
unfolding variance_lines
lines_of exception expected missing delta = held_lines expected
lines_of exception expected nan delta = lines_for exception expected none delta
lines_of exception expected (amount observed) delta =
    lines_for exception expected (some observed) delta

-- The entries of the dictionary that are read.
pub record JournalRow : Type 0 where
  pub transaction_id : String
  pub final_exception_type : Option ExceptionType
  pub ledger_expected_net : ℤ
  pub observed_net : Cell
  pub net_delta : Cell

-- build_journal_entry(report_row)
unfoldable pub build_journal_entry : JournalRow → JournalEntry
unfolding total_debits total_credits lines_of validate_balanced
build_journal_entry row =
    let lines =
      lines_of row.final_exception_type row.ledger_expected_net row.observed_net row.net_delta in
    record {
      transaction_id = row.transaction_id;
      exception_type = row.final_exception_type;
      lines = lines;
      total_debits = total_debits lines;
      total_credits = total_credits lines;
      balanced = validate_balanced lines;
    }

-- A column of the frame with a number in it is one of floats, whose missing values are NaN; in a
-- column of nothing but None they are None.
abbrev pub cell_of : Bool → Option ℤ → Cell
cell_of is_numeric none = if is_numeric then nan else missing
cell_of is_numeric (some x) = amount x

abbrev pub has_amount : List PaymentRow → Bool
has_amount [] = false
has_amount (row ∷ rows) =
    let rest = has_amount rows in elim row.observed_net [ none ↦ rest | some _ ↦ true ]

-- A row of the report's frame as a dictionary. A delta is missing exactly where the amount is.
abbrev pub journal_row : List PaymentRow → PaymentRow → JournalRow
journal_row report row = record {
  transaction_id = row.transaction_id;
  final_exception_type = row.final_exception_type;
  ledger_expected_net = row.expected_net;
  observed_net = cell_of (has_amount report) row.observed_net;
  net_delta = cell_of (has_amount report) row.net_delta;
}
