-- ===== src/Matching/Diagnostics/Invariants.antt =====
-- The consumption control of matching/diagnostics.py never fails on the results of the matching.
use close_control.Base.{
  ◌≡◌, refl, ap, ◌∙◌, suc, String, List, [], ◌∷◌, ◌++◌, true, false, ◌||◌, arith, length, keep,
  contains, contains-append, Distinct, All, All-imp, eq_iff, Bool-cases, inl, inr,
}
use close_control.Base.Int.{pos, ◌-ℤ◌}
use close_control.Matching.{BankRow, Settlement}
use close_control.Matching.Blocking.{is_candidate, build_blocks}
use close_control.Matching.Engine.{MatchResult, Sorting}
use close_control.Matching.Engine.Selection.{ids}
use close_control.Matching.Engine.Loop.{Blocks, run_matching}
use close_control.Matching.Engine.Loop.Consumption.{matched_ids}
use close_control.Matching.Engine.Loop.Bank.{build_blocks-Distinct, matched_bank_rows-Distinct}
use close_control.Matching.Diagnostics.{
  has_duplicates, has_phantoms, count_unique, all_matched_ids, Consumption, Verified,
  verify_consumption_invariants,
}
use close_control.CashPosition.BankSide.{rows_of_blocks}
use close_control.CashPosition.BankSide.Consumed.{every, contains-keep-ids, matched_is_candidate}

length-ids : (rows : List BankRow) → length (ids rows) ≡ length rows
length-ids [] = refl
length-ids (row ∷ rows) = ap suc (length-ids rows)

all_are_matched : (results : List MatchResult) → all_matched_ids results ≡ matched_ids results
all_are_matched [] = refl
all_are_matched (r ∷ results) = ap (λ ids. r.matched_bank_txn_ids ++ ids) (all_are_matched results)

Distinct-has_duplicates : (xs : List String) → Distinct xs → has_duplicates xs ≡ false
Distinct-has_duplicates [] h = refl
Distinct-has_duplicates (x ∷ xs) h =
    let rest = Distinct-has_duplicates xs h.1 in ground (arith, h.0, rest)

Distinct-count_unique : (xs : List String) → Distinct xs → count_unique xs ≡ length xs
Distinct-count_unique [] h = refl
Distinct-count_unique (x ∷ xs) h = simp h.0 (ap suc (Distinct-count_unique xs h.1))

All-has_phantoms :
    (xs valid : List String) → All (λ x. contains valid x ≡ true) xs → has_phantoms xs valid ≡ false
All-has_phantoms [] valid h = refl
All-has_phantoms (x ∷ xs) valid h =
    let rest = All-has_phantoms xs valid h.1 in ground (arith, h.0, rest)

rows_of_blocks-append :
    (xs ys : Blocks) (id : String)
    → contains (rows_of_blocks every (xs ++ ys)) id
      ≡ (contains (rows_of_blocks every xs) id || contains (rows_of_blocks every ys) id)
rows_of_blocks-append [] ys id = refl
rows_of_blocks-append ((key, rows) ∷ xs) ys id =
    let rest = rows_of_blocks-append xs ys id in
    let here = contains-append (ids rows) (rows_of_blocks every (xs ++ ys)) id in
    let there = contains-append (ids rows) (rows_of_blocks every xs) id in
    ground (arith, rest, here, there)

-- A row of a block is a row of the bank.
block_rows_exist :
    (settlements : List Settlement) (bank : List BankRow) (id : String)
    → contains (rows_of_blocks every (build_blocks settlements bank)) id ≡ true
    → contains (ids bank) id ≡ true
unfolding build_blocks
block_rows_exist [] bank id h = absurd (ground (arith, h))
block_rows_exist (s ∷ settlements) bank id h =
    let blocks = build_blocks settlements bank in
    let block = keep (is_candidate s) bank in
    let parts = rows_of_blocks-append blocks ((s.settlement_id, block) ∷ []) id in
    elim (Bool-cases (contains (rows_of_blocks every blocks) id)) [
      | inl e ↦ block_rows_exist settlements bank id e
      | inr e ↦
          let last = contains-append (ids block) [] id in
          contains-keep-ids (is_candidate s) bank id (ground (arith, h, parts, e, last))
    ]

matched_exist :
    (sorting : Sorting) (settlements : List Settlement) (bank : List BankRow) (xs : List String)
    → Distinct (ids bank)
    → All
        (λ id.
          contains
            (matched_ids (run_matching sorting settlements (build_blocks settlements bank)))
            id
          ≡ true)
        xs
    → All (λ id. contains (ids bank) id ≡ true) xs
matched_exist sorting settlements bank xs d h =
    All-imp
      (λ id matched.
        let blocks = build_blocks settlements bank in
        let candidate =
          matched_is_candidate sorting settlements blocks id
            (build_blocks-Distinct settlements bank d) in
        block_rows_exist settlements bank id (ground (arith, matched, candidate)))
      xs h

each_is_in : (xs : List String) → All (λ x. contains xs x ≡ true) xs
each_is_in [] = tt
each_is_in (x ∷ xs) =
    (ground (arith, eq_iff x x), All-imp (λ y h. ground (arith, h)) xs (each_is_in xs))

-- Over bank rows with different ids, the control passes the matching of the settlements with them: no
-- row is consumed twice, every consumed id is one of the bank, and it counts each of them once.
pub verify_consumption_invariants-verified :
    (sorting : Sorting) (settlements : List Settlement) (bank : List BankRow)
    → Distinct (ids bank)
    → let results = run_matching sorting settlements (build_blocks settlements bank) in
      (summary : Consumption) × ((verify_consumption_invariants results bank
          ≡ Verified.verified summary)
        × ((summary.bank_rows_total ≡ length bank)
            × (summary.bank_rows_matched ≡ length (matched_ids results))))
unfolding verify_consumption_invariants
verify_consumption_invariants-verified sorting settlements bank d =
    let results = run_matching sorting settlements (build_blocks settlements bank) in
    let apart = matched_bank_rows-Distinct sorting settlements bank d in
    let same = all_are_matched results in
    let once = Distinct-has_duplicates (matched_ids results) apart in
    let exist = All-has_phantoms (matched_ids results) (ids bank) (
      matched_exist sorting settlements bank (matched_ids results) d
        (each_is_in (matched_ids results))) in
    (
      record {
        bank_rows_total = count_unique (ids bank);
        bank_rows_matched = count_unique (matched_ids results);
        bank_rows_unmatched =
            pos (count_unique (ids bank)) -ℤ pos (count_unique (matched_ids results));
      },
      (
        simp (same, once, exist) refl,
        (
          Distinct-count_unique (ids bank) d ∙ length-ids bank,
          Distinct-count_unique (matched_ids results) apart,
        ),
      ),
    )
