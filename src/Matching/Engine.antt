-- ===== src/Matching/Engine.antt =====
-- matching/engine.py: the passes that match a settlement with bank rows, and the loop over the
-- settlements. pandas sorts: its sorting is a parameter, with the laws that are relied on.
pub mod Selection
pub mod Passes
pub mod Loop
use Prim.Native.Nat.{max}
use close_control.Base.{
  ℕ, zero, ◌+◌, ◌*◌, ◌≤◌, ◌≡◌, String, Option, none, some, List, [], ◌∷◌, ◌++◌, Bool, true, false,
  not, ◌&&◌, ◌||◌, leb, ltb, str_eq, length, keep, contains, map, All, if◌then◌else◌,
}
use close_control.Base.Int.{ℤ, pos, ◌+ℤ◌, ◌-ℤ◌, abs, leb_ℤ, ltb_ℤ}
use close_control.Matching.{BankRow, Settlement, scaled_leb, exact_match_tolerance}

pub data MatchStatus : Type 0 where
  unmatched matched matched_with_exception ambiguous : MatchStatus

pub data MatchPass : Type 0 where
  multiple_exact_single_candidates exact_single_vs_split_conflict exact multiple_valid_splits split
        ambiguous_shortage shortage_tolerant ambiguous_overage overage_tolerant :
      MatchPass

pub data Confidence : Type 0 where
  low medium high : Confidence

pub data Relationship : Type 0 where
  unmatched ambiguous one_to_one many_to_one one_to_many : Relationship

-- One row of the frame that `run_matching` returns.
pub record MatchResult : Type 0 where
  pub settlement_id : String
  pub merchant_id : String
  pub member_count : ℕ
  pub expected_total : ℤ
  pub match_status : MatchStatus
  pub match_pass : Option MatchPass
  pub matched_bank_txn_ids : List String
  pub matched_utrs : List (Option String)
  pub matched_total : Option ℤ
  pub amount_delta : Option ℕ
  pub confidence : Confidence
  pub had_ambiguous_candidates : Bool
  pub relationship_observed : Relationship
  pub missing_bank_reference : Bool
  pub bank_overage : Bool

-- The sorting of pandas: `deltas.sort_values()` is given by the distances that it sorts by, and
-- `settlements.sort_values([...])` by date and id.
pub record Sorting : Type 1 where
  pub by_delta : (BankRow → ℕ) → List BankRow → List BankRow
  pub by_delta_keeps :
      (f : BankRow → ℕ) (P : BankRow → Type 0) (rows : List BankRow)
      → All P rows
      → All P (by_delta f rows)
  pub by_delta_length :
      (f : BankRow → ℕ) (rows : List BankRow) → length (by_delta f rows) ≡ length rows
  pub by_date : List Settlement → List Settlement

-- `(credit_amount - expected).abs()`
abbrev pub delta_from : ℤ → BankRow → ℕ
delta_from expected row = abs (row.credit_amount -ℤ expected)

-- The rows within the exact tolerance, in paise. The code compares unrounded floats, for which a
-- difference of exactly two paise can be on either side.
abbrev pub is_exact : ℤ → BankRow → Bool
is_exact expected row = leb (delta_from expected row) exact_match_tolerance

-- `abs(second - best) / max(best, 0.01) < 0.02`, with `best > 0`, over whole paise.
abbrev pub is_close : ℕ → ℕ → Bool
is_close best second = ltb 0 best && ltb (100 * abs (pos second -ℤ pos best)) (2 * max best 1)

abbrev pub is_tie : ℕ → ℕ → Bool
is_tie best second =
    if leb best exact_match_tolerance && leb second exact_match_tolerance
    then true
    else is_close best second

pub record Single : Type 0 where
  pub row : BankRow
  pub delta : ℕ
  pub is_tied : Bool

-- `_best_single_candidate`, once sorted: the first of the order, tied if the second is indistinguishable from it.
pub first_of_order : ℤ → List BankRow → Option Single
first_of_order expected [] = none
first_of_order expected (best ∷ []) =
    some (record { row = best; delta = delta_from expected best; is_tied = false })
first_of_order expected (best ∷ second ∷ _) = some (record {
  row = best;
  delta = delta_from expected best;
  is_tied = is_tie (delta_from expected best) (delta_from expected second);
})

-- The pairs of rows, in the order of the two loops.
abbrev pairs_with : BankRow → List BankRow → List (BankRow × BankRow)
pairs_with a [] = []
pairs_with a (b ∷ rows) = (a, b) ∷ pairs_with a rows

pub pairs : List BankRow → List (BankRow × BankRow)
pairs [] = []
pairs (a ∷ rows) = pairs_with a rows ++ pairs rows

abbrev pub pair_delta : ℤ → BankRow × BankRow → ℕ
pair_delta expected (a, b) = abs ((a.credit_amount +ℤ b.credit_amount) -ℤ expected)

pub record Pair : Type 0 where
  pub first : BankRow
  pub second : BankRow
  pub delta : ℕ

-- `if best_delta is None or delta < best_delta`
abbrev closer : Option Pair → BankRow × BankRow → ℕ → Option Pair
closer none (a, b) delta = some (record { first = a; second = b; delta = delta })
closer (some best) (a, b) delta =
    if ltb delta best.delta
    then some (record { first = a; second = b; delta = delta })
    else some best

-- `best` and `len(exact_pairs)`, over the pairs that are left.
pub scan_pairs : ℤ → List (BankRow × BankRow) → Option Pair → ℕ → Option Pair × ℕ
scan_pairs expected [] best n = (best, n)
scan_pairs expected (p ∷ ps) best n =
    let delta = pair_delta expected p in
    scan_pairs expected ps (closer best p delta)
      (if leb delta exact_match_tolerance then n + 1 else n)

-- _best_pair(candidates, expected)
unfoldable pub best_pair : List BankRow → ℤ → Option Pair × ℕ
unfolding scan_pairs pairs
best_pair candidates expected = scan_pairs expected (pairs candidates) none 0

-- _best_single_candidate(candidates, expected)
unfoldable pub best_single_candidate : Sorting → List BankRow → ℤ → Option Single
unfolding first_of_order
best_single_candidate sorting [] expected = none
best_single_candidate sorting (row ∷ rows) expected =
    first_of_order expected (sorting.by_delta (delta_from expected) (row ∷ rows))
