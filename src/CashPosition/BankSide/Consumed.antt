-- ===== src/CashPosition/BankSide/Consumed.antt =====
-- What the matching consumes: rows of its blocks, and none of them twice.
use mathlib.Core.Path.{subst}
use close_control.Base.{
  ◌≡◌, refl, sym, ◌∙◌, String, List, [], ◌∷◌, ◌++◌, Bool, true, false, not, ◌&&◌, arith, str_eq,
  eq_iff, keep, contains, contains-append, All, All-imp, All-append, Distinct, Bool-cases, inl, inr,
}
use close_control.Matching.{BankRow, Settlement}
use close_control.Matching.Engine.{MatchResult, Sorting}
use close_control.Matching.Engine.Selection.{ids}
use close_control.Matching.Engine.Loop.{
  Blocks, block_of, available_rows, match_settlement, match_from, run_matching,
}
use close_control.Matching.Engine.Loop.Consumption.{
  matched_ids, match_settlement-Takes, DistinctBlocks,
}
use close_control.CashPosition.BankSide.{is_matched, consumed_by, rows_of_blocks}

abbrev pub every : String → Bool
every id = true

All-contains :
    (P : String → Type 0) (xs : List String) (id : String) → All P xs → contains xs id ≡ true → P id
All-contains P [] id h c = absurd (ground (arith, c))
All-contains P (x ∷ xs) id h c = elim (Bool-cases (str_eq id x)) [
  | inl e ↦ subst P (sym ((eq_iff _ _).0 e)) h.0
  | inr e ↦ All-contains P xs id h.1 (ground (arith, c, e))
]

-- Different names: what is in the first part is not in the second.
Distinct-apart :
    (xs ys : List String) (id : String)
    → Distinct (xs ++ ys)
    → (contains xs id && contains ys id) ≡ false
Distinct-apart [] ys id h = refl
Distinct-apart (x ∷ xs) ys id h = elim (Bool-cases (str_eq id x)) [
  | inl e ↦
      let same : contains (xs ++ ys) id ≡ false =
        subst (λ k. contains (xs ++ ys) k ≡ false) (sym ((eq_iff _ _).0 e)) h.0 in
      ground (arith, contains-append xs ys id, same)
  | inr e ↦ ground (arith, e, Distinct-apart xs ys id h.1)
]

Distinct-right : (xs ys : List String) → Distinct (xs ++ ys) → Distinct ys
Distinct-right [] ys h = h
Distinct-right (x ∷ xs) ys h = Distinct-right xs ys h.1

-- A consumed id is one that a match names.
pub consumed_is_matched :
    (p : MatchResult → Bool) (results : List MatchResult) (id : String)
    → (contains (consumed_by p results) id && not (contains (matched_ids results) id)) ≡ false
consumed_is_matched p [] id = refl
consumed_is_matched p (r ∷ results) id =
    let rest = consumed_is_matched p results id in
    let all = contains-append r.matched_bank_txn_ids (matched_ids results) id in
    let these = contains-append r.matched_bank_txn_ids (consumed_by p results) id in
    elim (Bool-cases (is_matched r.match_status && p r)) [
      | inl e ↦ simp e (ground (arith, rest, all, these))
      | inr e ↦ simp e (ground (arith, rest, all))
    ]

-- No row is consumed both by a match that is picked and by one that is not.
pub consumed_once :
    (p : MatchResult → Bool) (results : List MatchResult) (id : String)
    → Distinct (matched_ids results)
    → (contains (consumed_by p results) id && contains (consumed_by (λ r. not (p r)) results) id)
      ≡ false
consumed_once p [] id h = refl
consumed_once p (r ∷ results) id h =
    let named = r.matched_bank_txn_ids in
    let rest = consumed_once p results id (Distinct-right named (matched_ids results) h) in
    let apart = Distinct-apart named (matched_ids results) id h in
    let yes = consumed_is_matched p results id in
    let no = consumed_is_matched (λ x. not (p x)) results id in
    let left = contains-append named (consumed_by p results) id in
    let right = contains-append named (consumed_by (λ x. not (p x)) results) id in
    elim (Bool-cases (is_matched r.match_status)) [
      | inl m ↦ elim (Bool-cases (p r)) [
        | inl e ↦ simp (m, e) (ground (arith, rest, apart, no, left))
        | inr e ↦ simp (m, e) (ground (arith, rest, apart, yes, right))
      ]
      | inr m ↦ simp m rest
    ]

pub contains-keep-ids :
    (p : BankRow → Bool) (rows : List BankRow) (id : String)
    → contains (ids (keep p rows)) id ≡ true
    → contains (ids rows) id ≡ true
contains-keep-ids p [] id h = h
contains-keep-ids p (row ∷ rows) id h = elim (Bool-cases (p row)) [
  | inl e ↦ elim (Bool-cases (str_eq id row.bank_txn_id)) [
    | inl same ↦ ground (arith, same)
    | inr other ↦
        let rest = contains-keep-ids p rows id (rw (e, contains, other) at h) in
        ground (arith, rest)
  ]
  | inr e ↦ let rest = contains-keep-ids p rows id (rw (e, contains) at h) in ground (arith, rest)
]

block_is_among :
    (blocks : Blocks) (key id : String)
    → contains (ids (block_of blocks key)) id ≡ true
    → contains (rows_of_blocks every blocks) id ≡ true
unfolding block_of
block_is_among [] key id h = h
block_is_among ((k, rows) ∷ blocks) key id h = elim (Bool-cases (str_eq k key)) [
  | inl e ↦
      let here = rw e at h in
      contains-append (ids rows) (rows_of_blocks every blocks) id ∙ ground (arith, here)
  | inr e ↦
      let rest = block_is_among blocks key id (rw e at h) in
      contains-append (ids rows) (rows_of_blocks every blocks) id ∙ ground (arith, rest)
]

available_is_among :
    (blocks : Blocks) (consumed : List String) (s : Settlement) (id : String)
    → contains (ids (available_rows blocks consumed s)) id ≡ true
    → contains (rows_of_blocks every blocks) id ≡ true
unfolding available_rows
available_is_among blocks consumed s id h =
    block_is_among blocks s.settlement_id id
      (contains-keep-ids _ (block_of blocks s.settlement_id) id h)

match_from-among :
    (sorting : Sorting) (blocks : Blocks) (consumed : List String) (settlements : List Settlement)
    → DistinctBlocks blocks
    → All
        (λ id. contains (rows_of_blocks every blocks) id ≡ true)
        (matched_ids (match_from sorting blocks consumed settlements))
unfolding match_from
match_from-among sorting blocks consumed [] h = tt
match_from-among sorting blocks consumed (s ∷ settlements) h =
    let taken = (match_settlement sorting blocks consumed s).1 in
    let (named, (among, _)) = match_settlement-Takes sorting blocks consumed s h in
    All-append _ _ (matched_ids (match_from sorting blocks (taken ++ consumed) settlements))
      (rw named (All-imp (available_is_among blocks consumed s) taken among))
      (match_from-among sorting blocks (taken ++ consumed) settlements h)

-- A row that is consumed is a row of a block.
pub matched_is_candidate :
    (sorting : Sorting) (settlements : List Settlement) (blocks : Blocks) (id : String)
    → DistinctBlocks blocks
    → (contains (matched_ids (run_matching sorting settlements blocks)) id
        && not (contains (rows_of_blocks every blocks) id))
      ≡ false
unfolding run_matching
matched_is_candidate sorting settlements blocks id h =
    let results = run_matching sorting settlements blocks in
    elim (Bool-cases (contains (matched_ids results) id)) [
      | inl e ↦
          let among =
            All-contains (λ k. contains (rows_of_blocks every blocks) k ≡ true)
              (matched_ids results) id
              (match_from-among sorting blocks [] (sorting.by_date settlements) h) e in
          ground (arith, e, among)
      | inr e ↦ ground (arith, e)
    ]
