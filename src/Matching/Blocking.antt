-- ===== src/Matching/Blocking.antt =====
-- matching/blocking.py: the bank rows that a settlement is compared with.
use Prim.Native.String.{◌++◌ as append}
use close_control.Base.{◌+◌, String, List, [], ◌∷◌, ◌++◌, Bool, ◌&&◌, ◌||◌, leb, str_eq, keep}
use close_control.Base.Int.{pos, leb_ℤ}
use close_control.Matching.{BankRow, Settlement, scaled_leb, date_block_window_days}

-- bank_account_for_merchant
bank_account_for_merchant : String → String
bank_account_for_merchant merchant_id = append "acct_" merchant_id

-- `low <= credit_date <= high`, four days before and after the settlement.
is_near : Settlement → BankRow → Bool
is_near s row =
    leb s.settle_date (row.credit_date + date_block_window_days)
    && leb row.credit_date (s.settle_date + date_block_window_days)

-- `amt_low <= credit_amount <= amt_high`: at least the least of half of the total, a twentieth of
-- it and one rupee, and at most one and a half of it.
is_plausible : Settlement → BankRow → Bool
is_plausible s row =
    (scaled_leb 1 s.expected_total 2 row.credit_amount
      || scaled_leb 1 s.expected_total 20 row.credit_amount
      || leb_ℤ (pos 100) row.credit_amount)
    && scaled_leb 2 row.credit_amount 3 s.expected_total

unfoldable pub is_candidate : Settlement → BankRow → Bool
unfolding bank_account_for_merchant is_near is_plausible
is_candidate s row =
    str_eq row.bank_account_id (bank_account_for_merchant s.merchant_id)
    && (is_near s row && is_plausible s row)

-- The dictionary that `build_blocks` returns; a later settlement of an id replaces an earlier one.
unfoldable pub build_blocks : List Settlement → List BankRow → List (String × List BankRow)
unfolding is_candidate
build_blocks [] bank = []
build_blocks (s ∷ settlements) bank =
    build_blocks settlements bank ++ (s.settlement_id, keep (is_candidate s) bank) ∷ []
