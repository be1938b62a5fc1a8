-- ===== src/Matching/Engine/Loop/Consumption.antt =====
-- `run_matching` of matching/engine.py gives no bank row to two settlements, and gives every
-- settlement rows of its own block only.
use mathlib.Core.Path.{subst}
use close_control.Base.{
  ◌≡◌, refl, sym, inl, inr, String, none, some, List, [], ◌∷◌, ◌++◌, Bool, true, false, not, arith,
  str_eq, eq_iff, keep, contains, All, All-imp, All-append, Distinct, Apart, Distinct-append,
  Distinct-map-keep, Apart-append, Bool-cases,
}
use close_control.Matching.{BankRow, Settlement}
use close_control.Matching.Engine.{MatchResult, Sorting}
use close_control.Matching.Engine.Selection.{ids}
use close_control.Matching.Engine.Passes.{Outcome}
use close_control.Matching.Engine.Passes.Takes.{
  Takes, exact_pass-Takes, split_pass-Takes, shortage_pass-Takes, overage_pass-Takes,
}
use close_control.Matching.Engine.Loop.{
  Blocks, block_of, ◌or_next◌, try_passes, settle, available_rows, match_settlement, match_from,
  run_matching,
}

or_next-Takes :
    (available : List BankRow) (a b : Outcome)
    → Takes available a
    → Takes available b
    → Takes available (a or_next b)
or_next-Takes available none b ha hb = hb
or_next-Takes available (some result) b ha hb = ha

try_passes-Takes :
    (sorting : Sorting) (available : List BankRow) (s : Settlement)
    → Distinct (ids available)
    → Takes available (try_passes sorting available s)
unfolding try_passes
try_passes-Takes sorting available s d =
    or_next-Takes available _ _ (exact_pass-Takes sorting available s) (
      or_next-Takes available _ _ (split_pass-Takes available s d) (
        or_next-Takes available _ _ (shortage_pass-Takes sorting available s)
          (overage_pass-Takes sorting available s)))

-- An outcome, or the default result, which takes nothing.
settle-Takes :
    (available : List BankRow) (s : Settlement) (outcome : Outcome)
    → Takes available outcome
    → Takes available (some (settle s outcome))
settle-Takes available s none h = (refl, (tt, tt))
settle-Takes available s (some result) h = h

pub Distinct-keep :
    (p : BankRow → Bool) (rows : List BankRow) → Distinct (ids rows) → Distinct (ids (keep p rows))
Distinct-keep p rows h = Distinct-map-keep (λ row. row.bank_txn_id) p rows h

-- An id of an available row has not been consumed.
available_fresh :
    (consumed : List String) (rows : List BankRow) (id : String)
    → contains (ids (keep (λ row. not (contains consumed row.bank_txn_id)) rows)) id ≡ true
    → contains consumed id ≡ false
available_fresh consumed [] id h = absurd (ground arith)
available_fresh consumed (row ∷ rows) id h = elim (Bool-cases (contains consumed row.bank_txn_id)) [
  | inl e ↦ available_fresh consumed rows id (rw (e, contains) at h)
  | inr e ↦ elim (Bool-cases (str_eq id row.bank_txn_id)) [
    | inl same ↦ subst (λ k. contains consumed k ≡ false) (sym ((eq_iff _ _).0 same)) e
    | inr other ↦ available_fresh consumed rows id (rw (e, contains, other) at h)
  ]
]

-- The block of every settlement lists different rows.
abbrev pub DistinctBlocks : Blocks → Type 0
DistinctBlocks = All (λ block. Distinct (ids block.1))

block_of-Distinct :
    (blocks : Blocks) (id : String) → DistinctBlocks blocks → Distinct (ids (block_of blocks id))
unfolding block_of
block_of-Distinct [] id h = tt
block_of-Distinct ((key, rows) ∷ blocks) id h = elim (Bool-cases (str_eq key id)) [
  | inl e ↦ rw (e, Distinct) h.0
  | inr e ↦ rw (e, Distinct) (block_of-Distinct blocks id h.1)
]

-- The ids that the results name, settlement by settlement.
abbrev pub matched_ids : List MatchResult → List String
matched_ids [] = []
matched_ids (r ∷ rs) = r.matched_bank_txn_ids ++ matched_ids rs

pub match_settlement-Takes :
    (sorting : Sorting) (blocks : Blocks) (consumed : List String) (s : Settlement)
    → DistinctBlocks blocks
    → Takes (available_rows blocks consumed s) (some (match_settlement sorting blocks consumed s))
unfolding match_settlement
match_settlement-Takes sorting blocks consumed s h =
    settle-Takes (available_rows blocks consumed s) s _ (
      try_passes-Takes sorting (available_rows blocks consumed s) s
        (Distinct-keep _ _ (block_of-Distinct blocks s.settlement_id h)))

available_rows-fresh :
    (blocks : Blocks) (consumed : List String) (s : Settlement) (id : String)
    → contains (ids (available_rows blocks consumed s)) id ≡ true
    → contains consumed id ≡ false
unfolding available_rows
available_rows-fresh blocks consumed s id = available_fresh consumed _ id

joined :
    (named taken rest consumed : List String)
    → named ≡ taken
    → Distinct taken
    → Apart consumed taken
    → Distinct rest
    → Apart (taken ++ consumed) rest
    → Distinct (named ++ rest) × Apart consumed (named ++ rest)
joined named taken rest consumed e d fresh dr apart =
    let (from_taken, from_consumed) = Apart-append taken consumed rest apart in
    rw e (Distinct-append taken rest d dr from_taken, All-append _ taken rest fresh from_consumed)

-- What the loop has consumed it gives to no later settlement, and it gives no row twice.
match_from-Distinct :
    (sorting : Sorting) (blocks : Blocks) (consumed : List String) (settlements : List Settlement)
    → DistinctBlocks blocks
    → Distinct (matched_ids (match_from sorting blocks consumed settlements))
      × Apart consumed (matched_ids (match_from sorting blocks consumed settlements))
unfolding match_from
match_from-Distinct sorting blocks consumed [] h = (tt, tt)
match_from-Distinct sorting blocks consumed (s ∷ settlements) h =
    let taken = (match_settlement sorting blocks consumed s).1 in
    let (named, took) = match_settlement-Takes sorting blocks consumed s h in
    let (rest, apart) = match_from-Distinct sorting blocks (taken ++ consumed) settlements h in
    joined _ taken _ consumed named took.1
      (All-imp (available_rows-fresh blocks consumed s) taken took.0) rest apart

-- No bank row is given to two settlements, or twice to one, if every block lists different rows.
pub run_matching-Distinct :
    (sorting : Sorting) (settlements : List Settlement) (blocks : Blocks)
    → DistinctBlocks blocks
    → Distinct (matched_ids (run_matching sorting settlements blocks))
unfolding run_matching
run_matching-Distinct sorting settlements blocks h =
    (match_from-Distinct sorting blocks [] (sorting.by_date settlements) h).0
