-- ===== src/JournalEntries/Balance.antt =====
-- Which entries of journal_entries.py balance, of the rows that the report builds.
use mathlib.Core.Path.{subst}
use close_control.Matching.LedgerCheck.Consistent.{difference, check_row-difference}
use close_control.Base.{
  ◌≡◌, refl, sym, ap, inl, inr, ℕ, Option, none, some, List, true, false, arith, Bool, not, ◌||◌,
  ◌∙◌, if◌then◌else◌, ltb, le→leb, Bool-cases,
}
use close_control.Base.Int.{ℤ, pos, ◌+ℤ◌, ◌-ℤ◌, abs, ltb_ℤ, int_laws, eq_of_parts, pos_part}
use close_control.Matching.Exceptions.{ExceptionType}
use close_control.Matching.Engine.{MatchResult}
use close_control.Matching.LedgerCheck.{GatewayRow, LedgerRow, LoanRecovery, check_row}
use close_control.Matching.Report.{PaymentRow, build_row}
use close_control.JournalEntries.{
  Account, Line, variance_account, total_debits, total_credits, validate_balanced, are_close,
  is_held, held_lines, variance_lines, settled_lines, lines_of, cell_of, has_amount, journal_row,
  JournalEntry, build_journal_entry,
}

-- The entry is marked as it should be, with equal totals, or with a NaN for its debits.
abbrev pub Drafts : List Line → Bool → Type 0
Drafts lines balanced =
    (validate_balanced lines ≡ balanced)
    × (total_debits lines ≡ (if balanced then total_credits lines else none))

-- Both totals are amounts, and the same.
record Even (lines : List Line) : Type 0 where
  amount : ℤ
  debits : total_debits lines ≡ some amount
  credits : total_credits lines ≡ some amount

below_zero : (d : ℤ) → ltb_ℤ d (pos 0) ≡ true → pos_part d ≡ 0
below_zero d h = ground arith

ltb_zero : (n : ℕ) → ltb 0 n ≡ false → n ≡ 0
ltb_zero n h = ground arith

shortfall :
    (expected observed : ℤ)
    → ltb_ℤ (observed -ℤ expected) (pos 0) ≡ true
    → observed +ℤ (pos (abs (observed -ℤ expected)) +ℤ pos 0) ≡ expected +ℤ pos 0
shortfall expected observed h =
    eq_of_parts _ _ (omega (int_laws, eq_of_parts, below_zero (observed -ℤ expected) h))

excess : (expected observed : ℤ) → observed +ℤ pos 0 ≡ (observed -ℤ expected) +ℤ (expected +ℤ pos 0)
excess expected observed = eq_of_parts _ _ (omega int_laws)

no_difference :
    (expected observed : ℤ)
    → ltb 0 (abs (observed -ℤ expected)) ≡ false
    → observed +ℤ pos 0 ≡ expected +ℤ pos 0
no_difference expected observed h = eq_of_parts _ _ (omega (int_laws, eq_of_parts, ltb_zero _ h))

settled_lines-Even :
    (account : Account) (expected observed : ℤ)
    → Even (settled_lines account expected (some observed) (some (observed -ℤ expected)))
unfolding total_debits total_credits variance_lines
settled_lines-Even account expected observed =
    elim (Bool-cases (ltb 0 (abs (observed -ℤ expected)))) [
      | inl some_delta ↦ elim (Bool-cases (ltb_ℤ (observed -ℤ expected) (pos 0))) [
        | inl short ↦ record {
          amount = expected +ℤ pos 0;
          debits = simp (some_delta, short) (ap some (shortfall expected observed short));
          credits = simp (some_delta, short) refl;
        }
        | inr over ↦ record {
          amount = observed +ℤ pos 0;
          debits = simp (some_delta, over) refl;
          credits = simp (some_delta, over) (ap some (sym (excess expected observed)));
        }
      ]
      | inr no_delta ↦ record {
        amount = expected +ℤ pos 0;
        debits = simp no_delta (ap some (no_difference expected observed no_delta));
        credits = simp no_delta refl;
      }
    ]

held_lines-Even : (expected : ℤ) → Even (held_lines expected)
unfolding total_debits total_credits
held_lines-Even expected = record { amount = expected +ℤ pos 0; debits = refl; credits = refl }

self_difference : (a : ℤ) → abs (a -ℤ a) ≡ 0
self_difference a = ap abs (eq_of_parts (a -ℤ a) (pos 0) (omega int_laws))

Even-Drafts : (lines : List Line) → Even lines → Drafts lines true
unfolding validate_balanced
Even-Drafts lines e = (
  ap (λ debits. are_close debits (total_credits lines)) e.debits
      ∙ (ap (are_close (some e.amount)) e.credits
          ∙ le→leb (abs (e.amount -ℤ e.amount)) 2 (omega (arith, self_difference e.amount))),
  e.debits ∙ sym e.credits,
)

nan-Drafts :
    (account : Account) (expected : ℤ) → Drafts (settled_lines account expected none none) false
unfolding validate_balanced total_debits
nan-Drafts account expected = (refl, refl)

-- Whether there is an amount to draft the entry with, or it goes to the suspense account as a whole.
abbrev pub is_drafted : Option ExceptionType → Bool → Option ℤ → Bool
is_drafted exception is_numeric (some observed) = true
is_drafted exception is_numeric none = is_held exception || not is_numeric

lines_of-Drafts :
    (exception : Option ExceptionType) (expected : ℤ) (is_numeric : Bool) (observed : Option ℤ)
    → Drafts
        (lines_of exception expected
          (cell_of is_numeric observed)
          (cell_of is_numeric (difference observed expected)))
        (is_drafted exception is_numeric observed)
unfolding lines_of
lines_of-Drafts exception expected is_numeric (some observed) =
    elim (Bool-cases (is_held exception)) [
      | inl held ↦ rw held (Even-Drafts _ (held_lines-Even expected))
      | inr free ↦
          rw free
            (Even-Drafts _ (settled_lines-Even (variance_account exception) expected observed))
    ]
lines_of-Drafts exception expected false none = elim (Bool-cases (is_held exception)) [
  | inl held ↦ rw held (Even-Drafts _ (held_lines-Even expected))
  | inr free ↦ rw free (Even-Drafts _ (held_lines-Even expected))
]
lines_of-Drafts exception expected true none = elim (Bool-cases (is_held exception)) [
  | inl held ↦ rw held (Even-Drafts _ (held_lines-Even expected))
  | inr free ↦ rw free (nan-Drafts (variance_account exception) expected)
]

-- The entry that is drafted for the row of a ledger payment in a report.
abbrev pub entry_of :
    List MatchResult
    → List GatewayRow
    → List LedgerRow
    → List LoanRecovery
    → List PaymentRow
    → LedgerRow
    → JournalEntry
entry_of results gateway ledger loan_book report led =
    build_journal_entry
      (journal_row report (build_row results gateway ledger (check_row gateway loan_book led)))

abbrev pub balances_of :
    List MatchResult
    → List GatewayRow
    → List LedgerRow
    → List LoanRecovery
    → List PaymentRow
    → LedgerRow
    → Bool
balances_of results gateway ledger loan_book report led =
    let row = build_row results gateway ledger (check_row gateway loan_book led) in
    is_drafted row.final_exception_type (has_amount report) row.observed_net

row-Drafts :
    (report : List PaymentRow) (row : PaymentRow)
    → row.net_delta ≡ difference row.observed_net row.expected_net
    → Drafts
        (build_journal_entry (journal_row report row)).lines
        (is_drafted row.final_exception_type (has_amount report) row.observed_net)
unfolding build_journal_entry
row-Drafts report row h =
    subst
      (λ d.
        Drafts
          (lines_of row.final_exception_type row.expected_net
            (cell_of (has_amount report) row.observed_net) (cell_of (has_amount report) d))
          (is_drafted row.final_exception_type (has_amount report) row.observed_net))
      (sym h)
      (lines_of-Drafts row.final_exception_type row.expected_net (has_amount report)
        row.observed_net)

-- The entry that is drafted for the report row of a ledger payment is marked balanced, with debits
-- that equal its credits to the paisa, exactly if the payment has an observed amount, is held for a
-- review of its risk, or no row of the report has an amount; else its debits are NaN.
pub build_journal_entry-Balances :
    (results : List MatchResult) (gateway : List GatewayRow) (ledger : List LedgerRow)
    (loan_book : List LoanRecovery) (report : List PaymentRow) (led : LedgerRow)
    → ((entry_of results gateway ledger loan_book report led).balanced
        ≡ balances_of results gateway ledger loan_book report led)
      × ((entry_of results gateway ledger loan_book report led).total_debits ≡ (
          if balances_of results gateway ledger loan_book report led
          then (entry_of results gateway ledger loan_book report led).total_credits
          else none))
unfolding build_journal_entry build_row
build_journal_entry-Balances results gateway ledger loan_book report led =
    row-Drafts report (build_row results gateway ledger (check_row gateway loan_book led))
      (check_row-difference gateway loan_book led)
