-- ===== src/Matching/Engine/Loop.antt =====
-- matching/engine.py: `run_matching`, the loop over the settlements, which consumes bank rows.
pub mod Consumption
pub mod Results
pub mod Bank
use close_control.Base.{
  String, none, some, List, [], ◌∷◌, ◌++◌, not, str_eq, keep, contains, if◌then◌else◌,
}
use close_control.Matching.{BankRow, Settlement}
use close_control.Matching.Engine.{MatchResult, Sorting}
use close_control.Matching.Engine.Passes.{
  Outcome, no_match, exact_pass, split_pass, shortage_pass, overage_pass,
}

abbrev pub Blocks : Type 0
Blocks = List (String × List BankRow)

-- `blocks.get(sid, bank.iloc[0:0])`
unfoldable pub block_of : Blocks → String → List BankRow
block_of [] id = []
block_of ((key, rows) ∷ blocks) id = if str_eq key id then rows else block_of blocks id

infixr 30 ◌or_next◌
abbrev pub ◌or_next◌ : Outcome → Outcome → Outcome
none or_next later = later
(some result) or_next later = some result

-- The body of the loop: the passes in turn, on the rows of the block that are not consumed.
unfoldable pub try_passes : Sorting → List BankRow → Settlement → Outcome
try_passes sorting available s =
    exact_pass sorting available s
    or_next (split_pass available s
        or_next (shortage_pass sorting available s or_next overage_pass sorting available s))

abbrev settle : Settlement → Outcome → MatchResult × List String
settle s none = (no_match s, [])
settle s (some result) = result

unfoldable pub available_rows : Blocks → List String → Settlement → List BankRow
unfolding block_of
available_rows blocks consumed s =
    keep (λ row. not (contains consumed row.bank_txn_id)) (block_of blocks s.settlement_id)

unfoldable pub match_settlement :
    Sorting → Blocks → List String → Settlement → MatchResult × List String
unfolding try_passes available_rows
match_settlement sorting blocks consumed s =
    settle s (try_passes sorting (available_rows blocks consumed s) s)

unfoldable pub match_from : Sorting → Blocks → List String → List Settlement → List MatchResult
match_from sorting blocks consumed [] = []
match_from sorting blocks consumed (s ∷ settlements) =
    let (result, taken) = match_settlement sorting blocks consumed s in
    result ∷ match_from sorting blocks (taken ++ consumed) settlements

-- run_matching(settlements, blocks, bank)
unfoldable pub run_matching : Sorting → List Settlement → Blocks → List MatchResult
unfolding match_from
run_matching sorting settlements blocks = match_from sorting blocks [] (sorting.by_date settlements)
