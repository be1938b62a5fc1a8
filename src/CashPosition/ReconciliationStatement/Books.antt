-- ===== src/CashPosition/ReconciliationStatement/Books.antt =====
-- The books' side of the bridge of cash_position/reconciliation_statement.py.
use close_control.Base.{◌≡◌, ap, ◌∙◌, String, List}
use close_control.Base.Int.{ℤ, ◌+ℤ◌, ◌-ℤ◌, int_laws}
use close_control.CashPosition.{
  CashRow, sum_of, confirmed_rows, in_transit_rows, held_rows, at_risk_due_rows,
}
use close_control.CashPosition.Totals.{captured_rows, sums_add_up}
use close_control.CashPosition.ReconciliationStatement.{
  books_side_of, expected_column, observed_column,
}

deduced :
    (ending confirmed transit held other : ℤ)
    → confirmed +ℤ (transit +ℤ (held +ℤ other)) ≡ ending
    → ((ending -ℤ transit) -ℤ held) -ℤ other ≡ confirmed
deduced ending confirmed transit held other h = grind int_laws

with_variance : (a b : ℤ) → a +ℤ (b -ℤ a) ≡ b
with_variance a b = grind int_laws

-- What the books keep after the deductions is what they expect of the confirmed payments, and with
-- the variance on those it is what the bank has confirmed of them.
pub books_side-bank :
    (detail : List CashRow) (confirmed_ids : List String)
    → ((books_side_of detail confirmed_ids).expected_confirmed_balance
        ≡ sum_of expected_column (confirmed_rows detail))
      × ((books_side_of detail confirmed_ids).adjusted_confirmed_balance
          ≡ sum_of observed_column (confirmed_rows detail))
unfolding books_side_of
books_side-bank detail confirmed_ids =
    let expected =
      deduced (sum_of expected_column (captured_rows detail))
        (sum_of expected_column (confirmed_rows detail))
        (sum_of expected_column (in_transit_rows detail))
        (sum_of expected_column (held_rows detail))
        (sum_of expected_column (at_risk_due_rows detail)) (sums_add_up expected_column detail) in
    let variance =
      sum_of observed_column (confirmed_rows detail)
      -ℤ sum_of expected_column (confirmed_rows detail) in
    (expected, ap (λ e. e +ℤ variance) expected ∙ with_variance _ _)
