-- ===== src/CashPosition/ReconciliationStatement.antt =====
-- cash_position/reconciliation_statement.py: the bridge from the books to the bank statement, on the
-- detail of the cash position, the rows of the bank and the matches of the settlements.
pub mod Books
use Prim.Native.Nat.{max}
use close_control.Base.{
  ℕ, zero, suc, ◌+◌, ◌*◌, String, Option, none, some, List, [], ◌∷◌, ◌++◌, Bool, true, false, not,
  ◌&&◌, ◌||◌, leb, str_eq, ◌==◌, length, keep, contains, map, if◌then◌else◌,
}
use close_control.Base.Int.{ℤ, pos, ◌+ℤ◌, ◌-ℤ◌, abs}
use close_control.Matching.{BankRow, Settlement}
use close_control.Matching.Blocking.{build_blocks}
use close_control.Matching.Engine.{MatchResult, MatchStatus}
use close_control.Matching.Engine.Loop.{Blocks}
use close_control.Matching.LedgerCheck.{GatewayRow}
use close_control.Matching.Report.{PaymentRow}
use close_control.Matching.SettlementBuilder.{
  Grouping, Candidate, Built, build_settlement_candidates,
}
use close_control.CashPosition.{
  CashRow, sum_of, confirmed_rows, in_transit_rows, held_rows, at_risk_due_rows,
  is_confirmed_bucket, is_not_yet_captured_bucket, classify_positions,
}
use close_control.CashPosition.BankSide.{Bucket, BankSide, Covered, bank_side_coverage}

abbrev pub has_id_in : List String → Option String → Bool
has_id_in ids none = false
has_id_in ids (some id) = contains ids id

abbrev pub expected_column : CashRow → Option ℤ
expected_column row = some row.payment.expected_net

abbrev pub observed_column : CashRow → Option ℤ
observed_column row = row.payment.observed_net

-- `dropna()`
abbrev pub known : List (Option String) → List String
known [] = []
known (none ∷ ids) = known ids
known (some id ∷ ids) = id ∷ known ids

abbrev pub settlement_ids : List CashRow → List String
settlement_ids rows = known (map (λ row. row.payment.settlement_id) rows)

-- `nunique()`
abbrev pub count_unique : List String → ℕ
count_unique [] = 0
count_unique (id ∷ ids) = let rest = count_unique ids in if contains ids id then rest else suc rest

pub record Mixed : Type 0 where
  pub amount : ℤ
  pub count : ℕ
  pub settlement_count : ℕ

-- _mixed_settlement_adjustment(detail, confirmed_settlement_ids)
unfoldable pub mixed_settlement_adjustment : List CashRow → List String → Mixed
unfolding sum_of
mixed_settlement_adjustment detail confirmed_ids =
    let rows =
      keep
        (λ row.
          has_id_in confirmed_ids row.payment.settlement_id
          && not (is_confirmed_bucket row.cash_bucket))
        detail in
    record {
      amount = sum_of expected_column rows;
      count = length rows;
      settlement_count = count_unique (settlement_ids rows);
    }

-- What is deducted from the books: a sum and how many payments it has.
pub record Deduction : Type 0 where
  pub amount : ℤ
  pub count : ℕ

pub record BooksSide : Type 0 where
  pub books_ending_balance : ℤ
  pub captured_count : ℕ
  pub deposits_in_transit : Deduction
  pub held_for_review : Deduction
  pub other_at_risk : Deduction
  pub expected_confirmed_balance : ℤ
  pub net_variance_on_confirmed : ℤ
  pub net_variance_on_confirmed_count : ℕ
  pub adjusted_confirmed_balance : ℤ
  pub mixed : Mixed
  pub adjusted_confirmed_balance_mixed_aware : ℤ

abbrev pub deduct : List CashRow → Deduction
deduct rows = record { amount = sum_of expected_column rows; count = length rows }

-- The books' side of build_reconciliation_statement, with _confirmed_bucket_totals.
unfoldable pub books_side_of : List CashRow → List String → BooksSide
unfolding mixed_settlement_adjustment sum_of
books_side_of detail confirmed_ids =
    let captured = keep (λ row. not (is_not_yet_captured_bucket row.cash_bucket)) detail in
    let confirmed = confirmed_rows detail in
    let ending = sum_of expected_column captured in
    let transit = deduct (in_transit_rows detail) in
    let held = deduct (held_rows detail) in
    let other = deduct (at_risk_due_rows detail) in
    let variance = sum_of observed_column confirmed -ℤ sum_of expected_column confirmed in
    let expected = ((ending -ℤ transit.amount) -ℤ held.amount) -ℤ other.amount in
    let adjusted = expected +ℤ variance in
    let mixed = mixed_settlement_adjustment detail confirmed_ids in
    record {
      books_ending_balance = ending;
      captured_count = length captured;
      deposits_in_transit = transit;
      held_for_review = held;
      other_at_risk = other;
      expected_confirmed_balance = expected;
      net_variance_on_confirmed = variance;
      net_variance_on_confirmed_count = length confirmed;
      adjusted_confirmed_balance = adjusted;
      mixed = mixed;
      adjusted_confirmed_balance_mixed_aware = adjusted +ℤ mixed.amount;
    }

pub record Bridge : Type 0 where
  pub as_of : ℕ
  pub books_side : BooksSide
  pub bank_side : BankSide
  pub reconciliation_variance : ℤ
  pub reconciliation_tied : Bool

-- The errors that it passes on, or the statement.
pub data Statement : Type 0 where
  value_error : List String → Statement
  invariant_error : Bucket → Statement
  statement : Bridge → Statement

-- Within RECONCILIATION_TIE_TOLERANCE_RUPEES, or within half a per cent of what is matched.
abbrev pub is_tied : ℤ → ℤ → Bool
is_tied variance matched = leb (200 * abs variance) (max (200 * 100) (abs matched))

abbrev pub bridge_of : ℕ → BooksSide → BankSide → Bridge
bridge_of as_of books bank =
    let variance = books.adjusted_confirmed_balance_mixed_aware -ℤ bank.matched_confirmed.amount in
    record {
      as_of = as_of;
      books_side = books;
      bank_side = bank;
      reconciliation_variance = variance;
      reconciliation_tied = is_tied variance bank.matched_confirmed.amount;
    }

abbrev pub with_coverage : ℕ → BooksSide → Covered → Statement
with_coverage as_of books (Covered.invariant_error rows) = Statement.invariant_error rows
with_coverage as_of books (Covered.covered bank) = Statement.statement (bridge_of as_of books bank)

unfoldable pub with_settlements :
    List CashRow → List BankRow → List MatchResult → ℕ → Built → Statement
unfolding books_side_of bank_side_coverage
with_settlements detail bank results as_of (Built.spans_merchants bad) = Statement.value_error bad
with_settlements detail bank results as_of (Built.built candidates) =
    let confirmed_ids = settlement_ids (confirmed_rows detail) in
    with_coverage as_of (books_side_of detail confirmed_ids)
      (bank_side_coverage (map (λ c. c.settlement) candidates) bank results confirmed_ids)

-- build_reconciliation_statement(report, gateway, bank, settlement_matches, as_of)
unfoldable pub build_reconciliation_statement :
    Grouping → List PaymentRow → List GatewayRow → List BankRow → List MatchResult → ℕ → Statement
unfolding classify_positions build_settlement_candidates with_settlements
build_reconciliation_statement grouping report gateway bank results as_of =
    with_settlements (classify_positions report gateway as_of) bank results as_of
      (build_settlement_candidates grouping gateway)
