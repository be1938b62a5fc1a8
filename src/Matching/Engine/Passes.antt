-- ===== src/Matching/Engine/Passes.antt =====
-- matching/engine.py: the passes that `run_matching` tries in turn on one settlement. A pass gives
-- a result and the ids of the rows that it consumes, or nothing, and the next pass is tried.
pub mod Takes
pub mod Fit
pub mod Sole
use close_control.Base.{
  ℕ, String, Option, none, some, List, [], ◌∷◌, Bool, true, false, not, ◌&&◌, ◌||◌, leb, ltb,
  str_eq, length, keep, if◌then◌else◌,
}
use close_control.Base.Int.{ℤ, pos, ◌+ℤ◌, ◌-ℤ◌, ltb_ℤ}
use close_control.Matching.{BankRow, Settlement, scaled_leb, exact_match_tolerance}
use close_control.Matching.Engine.{
  MatchStatus, MatchPass, Confidence, Relationship, MatchResult, Sorting, is_exact, Single, Pair,
  best_pair, best_single_candidate,
}

abbrev pub Outcome : Type 0
Outcome = Option (MatchResult × List String)

-- The result that every settlement starts from.
abbrev pub no_match : Settlement → MatchResult
no_match s = record {
  settlement_id = s.settlement_id;
  merchant_id = s.merchant_id;
  member_count = s.member_count;
  expected_total = s.expected_total;
  match_status = MatchStatus.unmatched;
  match_pass = none;
  matched_bank_txn_ids = [];
  matched_utrs = [];
  matched_total = none;
  amount_delta = none;
  confidence = Confidence.low;
  had_ambiguous_candidates = false;
  relationship_observed = Relationship.unmatched;
  missing_bank_reference = false;
  bank_overage = false;
}

abbrev pub undecided : Settlement → MatchPass → Outcome
undecided s pass = some (
  record (no_match s) {
    match_status = MatchStatus.ambiguous;
    match_pass = some pass;
    had_ambiguous_candidates = true;
    relationship_observed = Relationship.ambiguous;
  },
  [],
)

abbrev no_utr : BankRow → Bool
no_utr row = elim row.utr [ none ↦ true | some _ ↦ false ]

-- One bank row for the settlement.
abbrev pub by_single : Settlement → MatchStatus → MatchPass → Confidence → Bool → Single → Outcome
by_single s status pass confidence overage best = some (
  record (no_match s) {
    match_status = status;
    match_pass = some pass;
    matched_bank_txn_ids = best.row.bank_txn_id ∷ [];
    matched_utrs = best.row.utr ∷ [];
    matched_total = some best.row.credit_amount;
    amount_delta = some best.delta;
    confidence = confidence;
    had_ambiguous_candidates = best.is_tied;
    relationship_observed =
        if ltb 1 s.member_count then Relationship.many_to_one else Relationship.one_to_one;
    missing_bank_reference = no_utr best.row;
    bank_overage = overage;
  },
  best.row.bank_txn_id ∷ [],
)

-- Whether two other rows explain the total as well.
unfoldable pub competing_split : List BankRow → ℤ → BankRow → Bool
competing_split available expected row =
    let others = keep (λ other. not (str_eq other.bank_txn_id row.bank_txn_id)) available in
    leb 3 (length available) && (leb 2 (length others) && ltb 0 (best_pair others expected).1)

-- Pass 1, on the best of the exact candidates.
claim_exact : List BankRow → Settlement → Option Single → Outcome
unfolding competing_split
claim_exact available s none = none
claim_exact available s (some best) =
    if best.is_tied
    then undecided s MatchPass.multiple_exact_single_candidates
    else if competing_split available s.expected_total best.row
    then undecided s MatchPass.exact_single_vs_split_conflict
    else by_single s MatchStatus.matched MatchPass.exact Confidence.high false best

unfoldable pub exact_pass : Sorting → List BankRow → Settlement → Outcome
unfolding claim_exact
exact_pass sorting available s =
    claim_exact available s
      (best_single_candidate sorting (keep (is_exact s.expected_total) available) s.expected_total)

abbrev by_pair : Settlement → Pair → Outcome
by_pair s p = some (
  record (no_match s) {
    match_status = MatchStatus.matched;
    match_pass = some MatchPass.split;
    matched_bank_txn_ids = p.first.bank_txn_id ∷ p.second.bank_txn_id ∷ [];
    matched_utrs = p.first.utr ∷ p.second.utr ∷ [];
    matched_total = some (p.first.credit_amount +ℤ p.second.credit_amount);
    amount_delta = some p.delta;
    confidence = Confidence.high;
    relationship_observed = Relationship.one_to_many;
    missing_bank_reference = no_utr p.first || no_utr p.second;
  },
  p.first.bank_txn_id ∷ p.second.bank_txn_id ∷ [],
)

-- Pass 2, on the best pair and the number of pairs within the tolerance.
claim_pair : Settlement → Option Pair → ℕ → Outcome
claim_pair s none n = none
claim_pair s (some p) n =
    if leb p.delta exact_match_tolerance
    then if ltb 1 n then undecided s MatchPass.multiple_valid_splits else by_pair s p
    else none

unfoldable pub split_pass : List BankRow → Settlement → Outcome
unfolding claim_pair
split_pass available s =
    let (best, n) = best_pair available s.expected_total in
    if leb 2 (length available) then claim_pair s best n else none

-- 90% of the total or more, and short of it by more than the tolerance.
abbrev pub is_short : ℤ → BankRow → Bool
is_short expected row =
    scaled_leb 90 expected 100 row.credit_amount
    && ltb_ℤ row.credit_amount (expected -ℤ pos exact_match_tolerance)

-- Over the total by more than the tolerance, and 115% of it or less.
abbrev pub is_over : ℤ → BankRow → Bool
is_over expected row =
    ltb_ℤ (expected +ℤ pos exact_match_tolerance) row.credit_amount
    && scaled_leb 100 row.credit_amount 115 expected

-- Passes 3 and 4, on the best of their candidates.
claim_tolerant : Settlement → MatchPass → MatchPass → Bool → Option Single → Outcome
claim_tolerant s tie pass overage none = none
claim_tolerant s tie pass overage (some best) =
    if best.is_tied
    then undecided s tie
    else by_single s MatchStatus.matched_with_exception pass Confidence.medium overage best

unfoldable pub shortage_pass : Sorting → List BankRow → Settlement → Outcome
unfolding claim_tolerant
shortage_pass sorting available s =
    claim_tolerant s MatchPass.ambiguous_shortage MatchPass.shortage_tolerant false
      (best_single_candidate sorting (keep (is_short s.expected_total) available) s.expected_total)

unfoldable pub overage_pass : Sorting → List BankRow → Settlement → Outcome
unfolding claim_tolerant
overage_pass sorting available s =
    claim_tolerant s MatchPass.ambiguous_overage MatchPass.overage_tolerant true
      (best_single_candidate sorting (keep (is_over s.expected_total) available) s.expected_total)
