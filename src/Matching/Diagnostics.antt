-- ===== src/Matching/Diagnostics.antt =====
-- matching/diagnostics.py: the controls over the results of the matching. The ids in the messages of
-- the assertions and the flags that are always true are left out.
pub mod Invariants
pub mod Conservation
use close_control.Base.{
  ℕ, suc, String, Option, none, some, List, [], ◌∷◌, ◌++◌, map, Bool, true, false, not, ◌&&◌, ◌||◌,
  leb, length, keep, contains, if◌then◌else◌,
}
use close_control.Base.Int.{ℤ, pos, ◌+ℤ◌, ◌-ℤ◌, abs, ltb_ℤ}
use close_control.Matching.{BankRow, exact_match_tolerance}
use close_control.Matching.Engine.{MatchResult, MatchStatus, MatchPass}

-- `matched_series.duplicated().any()`
abbrev pub has_duplicates : List String → Bool
has_duplicates [] = false
has_duplicates (id ∷ ids) = contains ids id || has_duplicates ids

-- `set(ids) - valid_ids` is not empty.
abbrev pub has_phantoms : List String → List String → Bool
has_phantoms [] valid_ids = false
has_phantoms (id ∷ ids) valid_ids = not (contains valid_ids id) || has_phantoms ids valid_ids

-- `len(set(ids))`
abbrev pub count_unique : List String → ℕ
count_unique [] = 0
count_unique (id ∷ ids) = let rest = count_unique ids in if contains ids id then rest else suc rest

abbrev pub all_matched_ids : List MatchResult → List String
all_matched_ids [] = []
all_matched_ids (r ∷ results) = r.matched_bank_txn_ids ++ all_matched_ids results

pub record Consumption : Type 0 where
  pub bank_rows_total : ℕ
  pub bank_rows_matched : ℕ
  pub bank_rows_unmatched : ℤ

-- The two assertions, or the summary.
pub data Verified : Type 0 where
  double_consumed phantom_ids : Verified
  verified : Consumption → Verified

-- verify_consumption_invariants(settlement_matches, bank)
unfoldable pub verify_consumption_invariants : List MatchResult → List BankRow → Verified
verify_consumption_invariants results bank =
    let matched = all_matched_ids results in
    let valid = map (λ row. row.bank_txn_id) bank in
    if has_duplicates matched
    then Verified.double_consumed
    else if has_phantoms matched valid
    then Verified.phantom_ids
    else Verified.verified (record {
      bank_rows_total = count_unique valid;
      bank_rows_matched = count_unique matched;
      bank_rows_unmatched = pos (count_unique valid) -ℤ pos (count_unique matched);
    })

-- `match_status.isin(["matched", "matched_with_exception"])`
abbrev pub is_settled : MatchStatus → Bool
is_settled MatchStatus.matched = true
is_settled MatchStatus.matched_with_exception = true
is_settled _ = false

abbrev pub settled : List MatchResult → List MatchResult
settled = keep (λ r. is_settled r.match_status)

-- A comparison with NaN is false.
abbrev pub known_delta : (ℤ → Bool) → Option ℤ → ℤ → Bool
known_delta p none expected = false
known_delta p (some total) expected = p (total -ℤ expected)

abbrev pub delta_is : (ℤ → Bool) → MatchResult → Bool
delta_is p r = known_delta p r.matched_total r.expected_total

abbrev pub is_within : ℤ → Bool
is_within delta = leb (abs delta) exact_match_tolerance

abbrev pub is_shortage : ℤ → Bool
is_shortage delta = ltb_ℤ delta (pos 0 -ℤ pos exact_match_tolerance)

abbrev pub is_overage : ℤ → Bool
is_overage delta = ltb_ℤ (pos exact_match_tolerance) delta

-- `match_pass.isin(["exact", "split"])`
abbrev pub is_exact_pass : Option MatchPass → Bool
is_exact_pass (some MatchPass.exact) = true
is_exact_pass (some MatchPass.split) = true
is_exact_pass _ = false

unfoldable pub expected_sum : List MatchResult → ℤ
expected_sum [] = pos 0
expected_sum (r ∷ results) = r.expected_total +ℤ expected_sum results

abbrev plus : Option ℤ → ℤ → ℤ
plus none total = total
plus (some x) total = x +ℤ total

unfoldable pub matched_sum : List MatchResult → ℤ
matched_sum [] = pos 0
matched_sum (r ∷ results) = plus r.matched_total (matched_sum results)

pub record ConservationSummary : Type 0 where
  pub matched_settlements : ℕ
  pub within_tolerance : ℕ
  pub shortage : ℕ
  pub overage : ℕ
  pub exact_or_split_pass_with_real_delta : List String
  pub total_expected : ℤ
  pub total_matched : ℤ

-- settlement_conservation_summary(settlement_matches)
unfoldable pub settlement_conservation_summary : List MatchResult → ConservationSummary
unfolding expected_sum matched_sum
settlement_conservation_summary results =
    let matched = settled results in
    record {
      matched_settlements = length matched;
      within_tolerance = length (keep (delta_is is_within) matched);
      shortage = length (keep (delta_is is_shortage) matched);
      overage = length (keep (delta_is is_overage) matched);
      exact_or_split_pass_with_real_delta =
          map (λ r. r.settlement_id)
            (keep (λ r. is_exact_pass r.match_pass && delta_is (λ delta. not (is_within delta)) r)
              matched);
      total_expected = expected_sum matched;
      total_matched = matched_sum matched;
    }
