-- ===== src/Matching/Engine/Loop/Bank.antt =====
-- The two steps that matching/ runs: the blocks of the bank rows, then the matching.
use close_control.Base.{List, [], ◌∷◌, All-append, Distinct}
use close_control.Matching.{BankRow, Settlement}
use close_control.Matching.Blocking.{is_candidate, build_blocks}
use close_control.Matching.Engine.{Sorting}
use close_control.Matching.Engine.Selection.{ids}
use close_control.Matching.Engine.Loop.{run_matching}
use close_control.Matching.Engine.Loop.Consumption.{
  DistinctBlocks, Distinct-keep, matched_ids, run_matching-Distinct,
}

pub build_blocks-Distinct :
    (settlements : List Settlement) (bank : List BankRow)
    → Distinct (ids bank)
    → DistinctBlocks (build_blocks settlements bank)
unfolding build_blocks
build_blocks-Distinct [] bank h = tt
build_blocks-Distinct (s ∷ settlements) bank h =
    All-append _ (build_blocks settlements bank) _ (build_blocks-Distinct settlements bank h)
      (Distinct-keep (is_candidate s) bank h, tt)

-- If the rows of the bank have different ids, no row is given to two settlements, or twice to one,
-- by the matching over the blocks that `build_blocks` makes of them.
pub matched_bank_rows-Distinct :
    (sorting : Sorting) (settlements : List Settlement) (bank : List BankRow)
    → Distinct (ids bank)
    → Distinct (matched_ids (run_matching sorting settlements (build_blocks settlements bank)))
matched_bank_rows-Distinct sorting settlements bank h =
    run_matching-Distinct sorting settlements (build_blocks settlements bank)
      (build_blocks-Distinct settlements bank h)
