-- ===== src/Matching/Engine/Loop/Results.antt =====
-- The results of `run_matching` of matching/engine.py: one for each settlement, in the order of the
-- sorting, and each fits the total that its settlement expects.
use close_control.Base.{refl, none, some, String, List, [], ◌∷◌, ◌++◌, All}
use close_control.Matching.{BankRow, Settlement}
use close_control.Matching.Engine.{Sorting}
use close_control.Matching.Engine.Passes.{Outcome}
use close_control.Matching.Engine.Passes.Fit.{
  Fits, OutcomeFits, exact_pass-Fits, split_pass-Fits, shortage_pass-Fits, overage_pass-Fits,
}
use close_control.Matching.Engine.Loop.{
  Blocks, ◌or_next◌, try_passes, settle, available_rows, match_settlement, match_from, run_matching,
}

or_next-Fits : (a b : Outcome) → OutcomeFits a → OutcomeFits b → OutcomeFits (a or_next b)
or_next-Fits none b ha hb = hb
or_next-Fits (some result) b ha hb = ha

try_passes-Fits :
    (sorting : Sorting) (available : List BankRow) (s : Settlement)
    → OutcomeFits (try_passes sorting available s)
unfolding try_passes
try_passes-Fits sorting available s = or_next-Fits _ _ (exact_pass-Fits sorting available s) (
    or_next-Fits _ _ (split_pass-Fits available s) (
      or_next-Fits _ _ (shortage_pass-Fits sorting available s)
        (overage_pass-Fits sorting available s)))

settle-Fits : (s : Settlement) (outcome : Outcome) → OutcomeFits outcome → Fits (settle s outcome).0
settle-Fits s none h = (refl, refl)
settle-Fits s (some result) h = h

match_from-Fits :
    (sorting : Sorting) (blocks : Blocks) (consumed : List String) (settlements : List Settlement)
    → All Fits (match_from sorting blocks consumed settlements)
unfolding match_from match_settlement
match_from-Fits sorting blocks consumed [] = tt
match_from-Fits sorting blocks consumed (s ∷ settlements) = (
  settle-Fits s _ (try_passes-Fits sorting (available_rows blocks consumed s) s),
  match_from-Fits sorting blocks ((match_settlement sorting blocks consumed s).1 ++ consumed)
      settlements,
)

-- Every result fits: a match is within two paise of the expected total, a match with an exception
-- is between 90% and 115% of it and further off than that, and any other names no bank row.
pub run_matching-Fits :
    (sorting : Sorting) (settlements : List Settlement) (blocks : Blocks)
    → All Fits (run_matching sorting settlements blocks)
unfolding run_matching
run_matching-Fits sorting settlements blocks =
    match_from-Fits sorting blocks [] (sorting.by_date settlements)
