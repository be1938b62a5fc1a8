-- ===== src/CashPosition/BankSide/Coverage.antt =====
-- The bank's side of the bridge of cash_position/reconciliation_statement.py.

use close_control.Base.{
  ◌≡◌, refl, sym, ap, ◌∙◌, ◌<◌, ==_iff, ℕ, ◌+◌, String, List, [], ◌∷◌, Bool, true, false, not, ◌&&◌,
  ◌||◌, ◌==◌, arith, length, keep, contains, Distinct, Bool-cases, inl, inr, if◌then◌else◌,
}
use close_control.Base.Int.{ℤ, ◌+ℤ◌, int_laws}
use close_control.Matching.{BankRow, Settlement}
use close_control.Matching.Blocking.{build_blocks}
use close_control.Matching.Engine.{MatchResult, Sorting}
use close_control.Matching.Engine.Selection.{ids}
use close_control.Matching.Engine.Loop.{run_matching}
use close_control.Matching.Engine.Loop.Bank.{build_blocks-Distinct, matched_bank_rows-Distinct}
use close_control.CashPosition.BankSide.Consumed.{
  consumed_is_matched, consumed_once, matched_is_candidate,
}
use close_control.CashPosition.BankSide.{
  BankSets, bank_sets, in_orphan, in_matched_confirmed, in_matched_other, in_ambiguous,
  in_unmatched, in_unexplained, credits, bank_side_of, Covered, bank_side_coverage,
}

-- One more row, in one of the six buckets.
one_more :
    (x : ℤ) (mc mo candidate amb unm : Bool) (a b c d e f t : ℤ)
    → (mc && mo) ≡ false
    → (mc && not candidate) ≡ false
    → (mo && not candidate) ≡ false
    → a +ℤ (b +ℤ (c +ℤ (d +ℤ (e +ℤ f)))) ≡ t
    → let ambiguous = not mc && (not mo && (not (not candidate) && amb)) in
      let unmatched = not mc && (not mo && (not (not candidate) && (not ambiguous && unm))) in
      (if mc then x +ℤ a else a)
        +ℤ ((if mo then x +ℤ b else b)
            +ℤ ((if ambiguous then x +ℤ c else c)
                +ℤ ((if unmatched then x +ℤ d else d)
                    +ℤ ((if not candidate then x +ℤ e else e)
                        +ℤ (if not (mc || (mo || (ambiguous || (unmatched || not candidate))))
                            then x +ℤ f
                            else f)))))
      ≡ x +ℤ t
one_more x true true candidate amb unm a b c d e f t m h k sum = absurd (ground (arith, m))
one_more x true false false amb unm a b c d e f t m h k sum = absurd (ground (arith, h))
one_more x true false true amb unm a b c d e f t m h k sum = grind (int_laws, sum)
one_more x false true false amb unm a b c d e f t m h k sum = absurd (ground (arith, k))
one_more x false true true amb unm a b c d e f t m h k sum = grind (int_laws, sum)
one_more x false false false true unm a b c d e f t m h k sum = grind (int_laws, sum)
one_more x false false false false true a b c d e f t m h k sum = grind (int_laws, sum)
one_more x false false false false false a b c d e f t m h k sum = grind (int_laws, sum)
one_more x false false true true unm a b c d e f t m h k sum = grind (int_laws, sum)
one_more x false false true false true a b c d e f t m h k sum = grind (int_laws, sum)
one_more x false false true false false a b c d e f t m h k sum = grind (int_laws, sum)

-- What the sets of ids keep to: no row is consumed twice, and what is consumed was a candidate.
record IsSound (sets : BankSets) : Type 0 where
  once :
      (id : String) → (contains sets.matched_confirmed id && contains sets.matched_other id) ≡ false
  confirmed :
      (id : String)
      → (contains sets.matched_confirmed id && not (contains sets.ever_a_candidate id)) ≡ false
  other :
      (id : String)
      → (contains sets.matched_other id && not (contains sets.ever_a_candidate id)) ≡ false

credits-keep :
    (p : BankRow → Bool) (row : BankRow) (rows : List BankRow)
    → credits (keep p (row ∷ rows))
      ≡ (if p row then row.credit_amount +ℤ credits (keep p rows) else credits (keep p rows))
unfolding credits
credits-keep p row rows = elim (Bool-cases (p row)) [ inl e ↦ simp e refl | inr e ↦ simp e refl ]

six_credits : BankSets → List BankRow → ℤ
six_credits sets bank =
    credits (keep (in_matched_confirmed sets) bank)
    +ℤ (credits (keep (in_matched_other sets) bank)
        +ℤ (credits (keep (in_ambiguous sets) bank)
            +ℤ (credits (keep (in_unmatched sets) bank)
                +ℤ (credits (keep (in_orphan sets) bank)
                    +ℤ credits (keep (in_unexplained sets) bank)))))

credits_add_up :
    (sets : BankSets) (bank : List BankRow) → IsSound sets → six_credits sets bank ≡ credits bank
unfolding six_credits credits
credits_add_up sets [] h = grind int_laws
credits_add_up sets (row ∷ rows) h =
    let id = row.bank_txn_id in
    let rest = credits_add_up sets rows h in
    let step =
      one_more row.credit_amount (contains sets.matched_confirmed id)
        (contains sets.matched_other id) (contains sets.ever_a_candidate id)
        (contains sets.ambiguous id) (contains sets.unmatched id) _ _ _ _ _ _ _ (h.once id)
        (h.confirmed id) (h.other id) rest in
    cc (
      credits-keep (in_matched_confirmed sets) row rows,
      credits-keep (in_matched_other sets) row rows,
      credits-keep (in_ambiguous sets) row rows,
      credits-keep (in_unmatched sets) row rows,
      credits-keep (in_orphan sets) row rows,
      credits-keep (in_unexplained sets) row rows,
      step,
    )

abbrev six_counts : BankSets → List BankRow → ℕ
six_counts sets bank =
    length (keep (in_matched_confirmed sets) bank)
    + length (keep (in_matched_other sets) bank)
    + length (keep (in_ambiguous sets) bank)
    + length (keep (in_unmatched sets) bank)
    + length (keep (in_orphan sets) bank)
    + length (keep (in_unexplained sets) bank)

counts_add_up :
    (sets : BankSets) (bank : List BankRow) → IsSound sets → six_counts sets bank ≡ length bank
counts_add_up sets [] h = omega arith
counts_add_up sets (row ∷ rows) h =
    let id = row.bank_txn_id in
    ground (arith, counts_add_up sets rows h, h.once id, h.confirmed id, h.other id)

among : (a b c : Bool) → (a && not b) ≡ false → (b && not c) ≡ false → (a && not c) ≡ false
among a b c h k = ground arith

bank_sets-IsSound :
    (sorting : Sorting) (settlements : List Settlement) (bank : List BankRow)
    (confirmed_ids : List String)
    → Distinct (ids bank)
    → let blocks = build_blocks settlements bank in
      IsSound (bank_sets blocks (run_matching sorting settlements blocks) confirmed_ids)
unfolding bank_sets
bank_sets-IsSound sorting settlements bank confirmed_ids d =
    let blocks = build_blocks settlements bank in
    let results = run_matching sorting settlements blocks in
    let apart = build_blocks-Distinct settlements bank d in
    let p : MatchResult → Bool = λ r. contains confirmed_ids r.settlement_id in
    record {
      once =
          λ id. consumed_once p results id (matched_bank_rows-Distinct sorting settlements bank d);
      confirmed = λ id.
          among _ _ _ (consumed_is_matched p results id)
            (matched_is_candidate sorting settlements blocks id apart);
      other = λ id.
          among _ _ _ (consumed_is_matched (λ r. not (p r)) results id)
            (matched_is_candidate sorting settlements blocks id apart);
    }

-- A statement that is raised names rows outside the buckets; else the buckets have every row of the
-- bank and every paisa of it once.
abbrev pub Accounts : List BankRow → Covered → Type 0
Accounts bank (Covered.invariant_error rows) = 0 < rows.count
Accounts bank (Covered.covered side) =
    (side.matched_confirmed.count + side.matched_other_exception.count + side.ambiguous.count
        + side.unmatched_candidate.count + side.orphan.count
      ≡ length bank)
    × (side.matched_confirmed.amount
          +ℤ (side.matched_other_exception.amount
              +ℤ (side.ambiguous.amount +ℤ (side.unmatched_candidate.amount +ℤ side.orphan.amount)))
        ≡ side.total_bank)

empty_adds_nothing :
    (rows : List BankRow) (a b c d e : ℤ)
    → length rows ≡ 0
    → a +ℤ (b +ℤ (c +ℤ (d +ℤ (e +ℤ credits rows)))) ≡ a +ℤ (b +ℤ (c +ℤ (d +ℤ e)))
unfolding credits
empty_adds_nothing [] a b c d e h = ap (λ x. a +ℤ (b +ℤ (c +ℤ (d +ℤ x)))) (grind int_laws)
empty_adds_nothing (row ∷ rows) a b c d e h = absurd (omega (arith, h))

-- Over the bank's rows, with different ids, and the matching of the settlements with them, the
-- coverage fails for a row outside its buckets, or its five buckets count every row of the bank once
-- and add up to the statement's balance.
pub bank_side_coverage-Accounts :
    (sorting : Sorting) (settlements : List Settlement) (bank : List BankRow)
    (confirmed_ids : List String)
    → Distinct (ids bank)
    → Accounts bank (
        bank_side_coverage settlements bank
          (run_matching sorting settlements (build_blocks settlements bank))
          confirmed_ids)
unfolding bank_side_coverage bank_side_of six_credits
bank_side_coverage-Accounts sorting settlements bank confirmed_ids d =
    let blocks = build_blocks settlements bank in
    let sets = bank_sets blocks (run_matching sorting settlements blocks) confirmed_ids in
    let sound = bank_sets-IsSound sorting settlements bank confirmed_ids d in
    let outside = keep (in_unexplained sets) bank in
    elim (Bool-cases (length outside == 0)) [
      | inl e ↦
          let none_outside = (==_iff (length outside) 0).0 e in
          let counts = counts_add_up sets bank sound in
          rw (e, Accounts)
            (
              omega (arith, counts, none_outside),
              sym (empty_adds_nothing outside _ _ _ _ _ none_outside)
                  ∙ credits_add_up sets bank sound,
            )
      | inr e ↦ rw (e, Accounts) (ground (arith, e))
    ]
