-- ===== src/CashPosition/BankSide/LeftOver.antt =====
-- What the bank's side of cash_position/reconciliation_statement.py leaves out: a bank row that a
-- settlement could have had and that none took.
use close_control.Base.{
  ◌≡◌, refl, ap, ◌∙◌, ◌<◌, String, List, [], ◌∷◌, ◌++◌, Bool, true, false, not, ◌==◌, arith, length,
  length-append, keep, keep-append, contains, All, All-imp,
}
use close_control.Matching.{BankRow, Settlement}
use close_control.Matching.Blocking.{build_blocks}
use close_control.Matching.Engine.{MatchResult, MatchStatus}
use close_control.Matching.Engine.Loop.{Blocks}
use close_control.Matching.Engine.Loop.Consumption.{matched_ids}
use close_control.CashPosition.BankSide.Consumed.{consumed_is_matched, every}
use close_control.CashPosition.BankSide.{
  bank_sets, in_unexplained, bank_side_of, Bucket, bucket, Covered, bank_side_coverage, is_matched,
  is_ambiguous, is_unmatched, settlements_with, rows_of_blocks,
}

no_settlements :
    (p : MatchStatus → Bool) (results : List MatchResult)
    → All (λ r. p r.match_status ≡ false) results
    → settlements_with p results ≡ []
no_settlements p [] h = refl
no_settlements p (r ∷ results) h = simp h.0 (no_settlements p results h.1)

no_rows : (blocks : Blocks) → rows_of_blocks (λ id. false) blocks ≡ []
no_rows [] = refl
no_rows (block ∷ blocks) = no_rows blocks

rows_of_none :
    (p : MatchStatus → Bool) (results : List MatchResult) (blocks : Blocks)
    → All (λ r. p r.match_status ≡ false) results
    → rows_of_blocks (λ id. contains (settlements_with p results) id) blocks ≡ []
rows_of_none p results blocks h =
    ap (λ named. rows_of_blocks (λ id. contains named id) blocks) (no_settlements p results h)
    ∙ no_rows blocks

not_ambiguous : (s : MatchStatus) → is_matched s ≡ true → is_ambiguous s ≡ false
not_ambiguous MatchStatus.unmatched h = refl
not_ambiguous MatchStatus.matched h = refl
not_ambiguous MatchStatus.matched_with_exception h = refl
not_ambiguous MatchStatus.ambiguous h = absurd (ground (arith, h))

not_unmatched : (s : MatchStatus) → is_matched s ≡ true → is_unmatched s ≡ false
not_unmatched MatchStatus.unmatched h = absurd (ground (arith, h))
not_unmatched MatchStatus.matched h = refl
not_unmatched MatchStatus.matched_with_exception h = refl
not_unmatched MatchStatus.ambiguous h = refl

module _ (blocks : Blocks) (results : List MatchResult) (confirmed_ids : List String) where
  outside :
      (row : BankRow)
      → All (λ r. is_matched r.match_status ≡ true) results
      → contains (rows_of_blocks every blocks) row.bank_txn_id ≡ true
      → contains (matched_ids results) row.bank_txn_id ≡ false
      → in_unexplained (bank_sets blocks results confirmed_ids) row ≡ true
  unfolding bank_sets
  outside row all candidate left =
      let id = row.bank_txn_id in
      let p : MatchResult → Bool = λ r. contains confirmed_ids r.settlement_id in
      let confirmed = consumed_is_matched p results id in
      let other = consumed_is_matched (λ r. not (p r)) results id in
      let ambiguous =
        rows_of_none is_ambiguous results blocks
          (All-imp (λ r h. not_ambiguous r.match_status h) results all) in
      let unmatched =
        rows_of_none is_unmatched results blocks
          (All-imp (λ r h. not_unmatched r.match_status h) results all) in
      simp (ambiguous, unmatched) (ground (arith, confirmed, other, candidate, left))

kept :
    (p : BankRow → Bool) (before after : List BankRow) (row : BankRow)
    → p row ≡ true
    → 0 < length (keep p (before ++ row ∷ after))
kept p before after row h =
    let parts =
      ap length (keep-append p before (row ∷ after))
      ∙ length-append (keep p before) (keep p (row ∷ after)) in
    ground (arith, parts, h)

-- With every settlement matched, the coverage fails as soon as the bank has a row that was a
-- candidate of a settlement and that no match consumed.
pub left_over_candidate_fails :
    (settlements : List Settlement) (results : List MatchResult) (confirmed_ids : List String)
    (before after : List BankRow) (row : BankRow)
    → All (λ r. is_matched r.match_status ≡ true) results
    → contains
        (rows_of_blocks every (build_blocks settlements (before ++ row ∷ after)))
        row.bank_txn_id
      ≡ true
    → contains (matched_ids results) row.bank_txn_id ≡ false
    → (rows : Bucket) × ((bank_side_coverage settlements
            (before ++ row ∷ after)
            results
            confirmed_ids
          ≡ Covered.invariant_error rows)
        × (0 < rows.count))
unfolding bank_side_coverage bank_side_of
left_over_candidate_fails settlements results confirmed_ids before after row all candidate left =
    let blocks = build_blocks settlements (before ++ row ∷ after) in
    let sets = bank_sets blocks results confirmed_ids in
    let some_row =
      kept (in_unexplained sets) before after row
        (outside blocks results confirmed_ids row all candidate left) in
    let n = length (keep (in_unexplained sets) (before ++ row ∷ after)) in
    let rows : Bucket = bucket (in_unexplained sets) (before ++ row ∷ after) in
    let found : (n == 0) ≡ false = ground (arith, some_row) in (rows, (simp found refl, some_row))
