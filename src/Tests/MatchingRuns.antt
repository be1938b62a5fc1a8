-- ===== src/Tests/MatchingRuns.antt =====
-- matching/engine.py: pandas' sorting as insertion, and settlements with rows of a bank.
use close_control.Base.{
  ◌≡◌, refl, String, none, some, List, [], ◌∷◌, ℕ, suc, All, Distinct, length, ltb, arith,
  if◌then◌else◌, Bool-cases, inl, inr,
}
use close_control.Base.Int.{pos, ◌+ℤ◌, ◌-ℤ◌}
use close_control.Matching.{BankRow, Settlement}
use close_control.Matching.Blocking.{is_candidate, build_blocks}
use close_control.Matching.Engine.{
  MatchResult, MatchStatus, Sorting, best_single_candidate, best_pair,
}
use close_control.Matching.Engine.Selection.{ids}
use close_control.Matching.Engine.Passes.{
  Outcome, no_match, competing_split, exact_pass, split_pass, shortage_pass, overage_pass,
}
use close_control.Matching.Engine.Passes.Fit.{Fits}
use close_control.Matching.Engine.Passes.Sole.{SoleExplanation, exact_pass-SoleExplanation}
use close_control.Matching.Engine.Loop.{
  run_matching, match_from, match_settlement, try_passes, available_rows,
}
use close_control.Matching.Engine.Loop.Consumption.{matched_ids}
use close_control.Matching.Engine.Loop.Bank.{matched_bank_rows-Distinct}
use close_control.Matching.Engine.Loop.Results.{run_matching-Fits}
use close_control.Matching.Diagnostics.{Consumption, Verified, verify_consumption_invariants}
use close_control.Matching.Diagnostics.Invariants.{verify_consumption_invariants-verified}

module _ {A : Type 0} (f : A → ℕ) where
  abbrev insert : A → List A → List A
  insert x [] = x ∷ []
  insert x (y ∷ ys) = let rest = insert x ys in if ltb (f y) (f x) then y ∷ rest else x ∷ y ∷ ys

  abbrev sort : List A → List A
  sort [] = []
  sort (x ∷ xs) = insert x (sort xs)

  pub length-insert : (x : A) (xs : List A) → length (insert x xs) ≡ suc (length xs)
  length-insert x [] = refl
  length-insert x (y ∷ ys) = ground (arith, length-insert x ys)

  pub length-sort : (xs : List A) → length (sort xs) ≡ length xs
  length-sort [] = refl
  length-sort (x ∷ xs) = omega (arith, length-insert x (sort xs), length-sort xs)

  All-insert : (P : A → Type 0) (x : A) (xs : List A) → P x → All P xs → All P (insert x xs)
  All-insert P x [] hx h = (hx, tt)
  All-insert P x (y ∷ ys) hx h = elim (Bool-cases (ltb (f y) (f x))) [
    | inl e ↦ rw (e, All) (h.0, All-insert P x ys hx h.1)
    | inr e ↦ rw (e, All) (hx, h)
  ]

  pub All-sort : (P : A → Type 0) (xs : List A) → All P xs → All P (sort xs)
  All-sort P [] h = tt
  All-sort P (x ∷ xs) h = All-insert P x (sort xs) h.0 (All-sort P xs h.1)

abbrev pub by_insertion : Sorting
by_insertion = record {
  by_delta = sort;
  by_delta_keeps = λ f P rows h. All-sort f P rows h;
  by_delta_length = λ f rows. length-sort f rows;
  by_date = sort (λ s. s.settle_date);
}

abbrev pub bank_row : String → ℕ → BankRow
bank_row id amount = record {
  bank_txn_id = id;
  bank_account_id = "acct_M1";
  credit_date = 20;
  credit_amount = pos amount;
  utr = some id;
}

abbrev pub settlement : String → ℕ → Settlement
settlement id total = record {
  settlement_id = id;
  merchant_id = "M1";
  member_count = 1;
  expected_total = pos total;
  settle_date = 20;
}

abbrev bank : List BankRow
bank = bank_row "B1" 100000 ∷ bank_row "B2" 30000 ∷ bank_row "B3" 47000 ∷ []

abbrev settlements : List Settlement
settlements = settlement "S1" 100001 ∷ settlement "S2" 77000 ∷ settlement "S3" 100000 ∷ []

bank_names_apart : Distinct (ids bank)
bank_names_apart = (refl, (refl, (refl, tt)))

matched_bank_rows-Distinct_example :
    Distinct (matched_ids (run_matching by_insertion settlements (build_blocks settlements bank)))
matched_bank_rows-Distinct_example =
    matched_bank_rows-Distinct by_insertion settlements bank bank_names_apart

run_matching-Fits_example :
    All Fits (run_matching by_insertion settlements (build_blocks settlements bank))
run_matching-Fits_example =
    run_matching-Fits by_insertion settlements (build_blocks settlements bank)

-- The first settlement takes B1, the second the pair, and for the third nothing is left.
matching_run :
    matched_ids (run_matching by_insertion settlements (build_blocks settlements bank))
    ≡ "B1" ∷ "B2" ∷ "B3" ∷ []
unfolding run_matching match_from match_settlement try_passes available_rows build_blocks exact_pass
    split_pass shortage_pass overage_pass is_candidate best_single_candidate best_pair ◌+ℤ◌ ◌-ℤ◌
matching_run = refl

abbrev first_settlement : Settlement
first_settlement = settlement "S1" 100001

abbrev result_in : Outcome → MatchResult
result_in none = no_match first_settlement
result_in (some (result, taken)) = result

abbrev first_outcome : Outcome
first_outcome = exact_pass by_insertion bank first_settlement

abbrev first_result : MatchResult
first_result = result_in first_outcome

first_outcome_is : exact_pass by_insertion bank first_settlement ≡ some (first_result, "B1" ∷ [])
unfolding exact_pass best_single_candidate best_pair competing_split ◌+ℤ◌ ◌-ℤ◌
first_outcome_is = refl

first_is_matched : first_result.match_status ≡ MatchStatus.matched
unfolding exact_pass best_single_candidate best_pair competing_split ◌+ℤ◌ ◌-ℤ◌
first_is_matched = refl

exact_pass-SoleExplanation_example :
    (row : BankRow) × ((first_result.matched_bank_txn_ids ≡ row.bank_txn_id ∷ [])
      × SoleExplanation bank first_settlement.expected_total row)
exact_pass-SoleExplanation_example =
    exact_pass-SoleExplanation by_insertion bank first_settlement first_result ("B1" ∷ [])
      first_outcome_is first_is_matched

abbrev the_results : List MatchResult
the_results = run_matching by_insertion settlements (build_blocks settlements bank)

verify_consumption_invariants-verified_example :
    (summary : Consumption) × ((verify_consumption_invariants the_results bank
        ≡ Verified.verified summary)
      × ((summary.bank_rows_total ≡ length bank)
          × (summary.bank_rows_matched ≡ length (matched_ids the_results))))
verify_consumption_invariants-verified_example =
    verify_consumption_invariants-verified by_insertion settlements bank bank_names_apart
