-- ===== src/Matching/Engine/Selection.antt =====
-- What the selections of matching/engine.py return: rows and pairs of rows that they were given.
use close_control.Base.{
  ◌≡◌, ℕ, String, Option, none, some, List, [], ◌∷◌, map, true, false, arith, str_eq, eq_iff,
  contains, All, All-imp, All-append, Distinct, ltb, Bool-cases, inl, inr,
}
use close_control.Base.Int.{ℤ}
use close_control.Matching.{BankRow}
use close_control.Matching.Engine.{
  Sorting, delta_from, pair_delta, Single, Pair, pairs_with, pairs, closer, scan_pairs, best_pair,
  first_of_order, best_single_candidate,
}

abbrev pub ids : List BankRow → List String
ids = map (λ row. row.bank_txn_id)

-- The row is one of these, by its id.
abbrev pub IsAmong : List BankRow → BankRow → Type 0
IsAmong rows row = contains (ids rows) row.bank_txn_id ≡ true

pub All-IsAmong : (rows : List BankRow) → All (IsAmong rows) rows
All-IsAmong [] = tt
All-IsAmong (row ∷ rows) = (
  ground (arith, eq_iff row.bank_txn_id row.bank_txn_id),
  All-imp (λ other h. ground arith) rows (All-IsAmong rows),
)

-- The row that was selected, if one was, has the property.
abbrev pub SingleHas : (BankRow → Type 0) → Option Single → Type 0
SingleHas P none = Unit
SingleHas P (some best) = P best.row

first_of_order-SingleHas :
    (P : BankRow → Type 0) (expected : ℤ) (order : List BankRow)
    → All P order
    → SingleHas P (first_of_order expected order)
unfolding first_of_order
first_of_order-SingleHas P expected [] h = tt
first_of_order-SingleHas P expected (a ∷ []) h = h.0
first_of_order-SingleHas P expected (a ∷ b ∷ more) h = h.0

-- A property of all candidates is one of the best single candidate.
pub best_single_candidate-SingleHas :
    (sorting : Sorting) (P : BankRow → Type 0) (expected : ℤ) (candidates : List BankRow)
    → All P candidates
    → SingleHas P (best_single_candidate sorting candidates expected)
unfolding best_single_candidate
best_single_candidate-SingleHas sorting P expected [] h = tt
best_single_candidate-SingleHas sorting P expected (a ∷ more) h =
    first_of_order-SingleHas P expected _
      (sorting.by_delta_keeps (delta_from expected) P (a ∷ more) h)

-- Two different rows of these.
abbrev pub IsPairAmong : List BankRow → BankRow × BankRow → Type 0
IsPairAmong rows (a, b) =
    IsAmong rows a × (IsAmong rows b × (str_eq a.bank_txn_id b.bank_txn_id ≡ false))

pairs_with-IsAmong :
    (all : List BankRow) (a : BankRow) (rows : List BankRow)
    → IsAmong all a
    → All (IsAmong all) rows
    → contains (ids rows) a.bank_txn_id ≡ false
    → All (IsPairAmong all) (pairs_with a rows)
pairs_with-IsAmong all a [] ha h d = tt
pairs_with-IsAmong all a (b ∷ rows) ha h d =
    ((ha, (h.0, ground arith)), pairs_with-IsAmong all a rows ha h.1 (ground arith))

pairs-IsAmong :
    (all rows : List BankRow)
    → All (IsAmong all) rows
    → Distinct (ids rows)
    → All (IsPairAmong all) (pairs rows)
unfolding pairs
pairs-IsAmong all [] h d = tt
pairs-IsAmong all (a ∷ rows) h d =
    All-append (IsPairAmong all) (pairs_with a rows) (pairs rows)
      (pairs_with-IsAmong all a rows h.0 h.1 d.0) (pairs-IsAmong all rows h.1 d.1)

abbrev pub IsBestPairAmong : List BankRow → Option Pair → Type 0
IsBestPairAmong rows none = Unit
IsBestPairAmong rows (some p) = IsPairAmong rows (p.first, p.second)

closer-IsAmong :
    (all : List BankRow) (best : Option Pair) (p : BankRow × BankRow) (delta : ℕ)
    → IsBestPairAmong all best
    → IsPairAmong all p
    → IsBestPairAmong all (closer best p delta)
closer-IsAmong all none (a, b) delta h hp = hp
closer-IsAmong all (some best) (a, b) delta h hp = elim (Bool-cases (ltb delta best.delta)) [
  | inl e ↦ rw (e, IsBestPairAmong) hp
  | inr e ↦ rw (e, IsBestPairAmong) h
]

scan_pairs-IsAmong :
    (all : List BankRow) (expected : ℤ) (ps : List (BankRow × BankRow)) (best : Option Pair) (n : ℕ)
    → IsBestPairAmong all best
    → All (IsPairAmong all) ps
    → IsBestPairAmong all (scan_pairs expected ps best n).0
unfolding scan_pairs
scan_pairs-IsAmong all expected [] best n h hs = h
scan_pairs-IsAmong all expected (p ∷ ps) best n h hs =
    scan_pairs-IsAmong all expected ps _ _
      (closer-IsAmong all best p (pair_delta expected p) h hs.0) hs.1

pub best_pair-IsAmong :
    (rows : List BankRow) (expected : ℤ)
    → Distinct (ids rows)
    → IsBestPairAmong rows (best_pair rows expected).0
unfolding best_pair
best_pair-IsAmong rows expected d =
    scan_pairs-IsAmong rows expected (pairs rows) none 0 tt
      (pairs-IsAmong rows rows (All-IsAmong rows) d)
