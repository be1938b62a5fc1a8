-- ===== src/CashPosition/BankSide.antt =====
-- cash_position/reconciliation_statement.py, `_bank_side_coverage`: the rows of the bank statement by
-- what the matching made of them.
pub mod Consumed
pub mod Coverage
pub mod LeftOver
use Prim.Native.Nat.{max}
use close_control.Base.{
  ℕ, zero, suc, ◌+◌, ◌*◌, String, Option, none, some, List, [], ◌∷◌, ◌++◌, Bool, true, false, not,
  ◌&&◌, ◌||◌, leb, str_eq, ◌==◌, length, keep, contains, map, if◌then◌else◌,
}
use close_control.Base.Int.{ℤ, pos, ◌+ℤ◌, ◌-ℤ◌, abs}
use close_control.Matching.{BankRow, Settlement}
use close_control.Matching.Blocking.{build_blocks}
use close_control.Matching.Engine.{MatchResult, MatchStatus}
use close_control.Matching.Engine.Loop.{Blocks}
use close_control.Matching.LedgerCheck.{GatewayRow}
use close_control.Matching.Report.{PaymentRow}
use close_control.Matching.SettlementBuilder.{
  Grouping, Candidate, Built, build_settlement_candidates,
}
use close_control.CashPosition.{
  CashRow, sum_of, confirmed_rows, in_transit_rows, held_rows, at_risk_due_rows,
  is_confirmed_bucket, is_not_yet_captured_bucket, classify_positions,
}

-- `match_status` tests.
abbrev pub is_matched : MatchStatus → Bool
is_matched MatchStatus.matched = true
is_matched MatchStatus.matched_with_exception = true
is_matched _ = false

abbrev pub is_ambiguous : MatchStatus → Bool
is_ambiguous MatchStatus.ambiguous = true
is_ambiguous _ = false

abbrev pub is_unmatched : MatchStatus → Bool
is_unmatched MatchStatus.unmatched = true
is_unmatched _ = false

-- The bank rows that these matches consumed.
abbrev pub consumed_by : (MatchResult → Bool) → List MatchResult → List String
consumed_by p [] = []
consumed_by p (r ∷ results) =
    let rest = consumed_by p results in
    if is_matched r.match_status && p r then r.matched_bank_txn_ids ++ rest else rest

-- The settlements whose match has a status.
abbrev pub settlements_with : (MatchStatus → Bool) → List MatchResult → List String
settlements_with p results = map (λ r. r.settlement_id) (keep (λ r. p r.match_status) results)

-- The rows of the blocks of these settlements.
abbrev pub rows_of_blocks : (String → Bool) → Blocks → List String
rows_of_blocks p [] = []
rows_of_blocks p ((id, rows) ∷ blocks) =
    let rest = rows_of_blocks p blocks in
    if p id then map (λ row. row.bank_txn_id) rows ++ rest else rest

abbrev always : String → Bool
always id = true

-- The ids of _bank_side_coverage.
pub record BankSets : Type 0 where
  pub ever_a_candidate : List String
  pub matched_confirmed : List String
  pub matched_other : List String
  pub ambiguous : List String
  pub unmatched : List String

unfoldable pub bank_sets : Blocks → List MatchResult → List String → BankSets
bank_sets blocks results confirmed_ids = record {
  ever_a_candidate = rows_of_blocks always blocks;
  matched_confirmed = consumed_by (λ r. contains confirmed_ids r.settlement_id) results;
  matched_other = consumed_by (λ r. not (contains confirmed_ids r.settlement_id)) results;
  ambiguous = rows_of_blocks (λ id. contains (settlements_with is_ambiguous results) id) blocks;
  unmatched = rows_of_blocks (λ id. contains (settlements_with is_unmatched results) id) blocks;
}

-- The masks over the bank statement.
abbrev pub in_orphan : BankSets → BankRow → Bool
in_orphan sets row = not (contains sets.ever_a_candidate row.bank_txn_id)

abbrev pub in_matched_confirmed : BankSets → BankRow → Bool
in_matched_confirmed sets row = contains sets.matched_confirmed row.bank_txn_id

abbrev pub in_matched_other : BankSets → BankRow → Bool
in_matched_other sets row = contains sets.matched_other row.bank_txn_id

abbrev pub in_ambiguous : BankSets → BankRow → Bool
in_ambiguous sets row =
    not (in_matched_confirmed sets row)
    && (not (in_matched_other sets row)
        && (not (in_orphan sets row) && contains sets.ambiguous row.bank_txn_id))

abbrev pub in_unmatched : BankSets → BankRow → Bool
in_unmatched sets row =
    not (in_matched_confirmed sets row)
    && (not (in_matched_other sets row)
        && (not (in_orphan sets row)
            && (not (in_ambiguous sets row) && contains sets.unmatched row.bank_txn_id)))

abbrev pub in_unexplained : BankSets → BankRow → Bool
in_unexplained sets row = not (
    in_matched_confirmed sets row
    || (in_matched_other sets row
        || (in_ambiguous sets row || (in_unmatched sets row || in_orphan sets row))))

-- `bank.loc[mask, "credit_amount_rupees"].sum()`
unfoldable pub credits : List BankRow → ℤ
credits [] = pos 0
credits (row ∷ rows) = row.credit_amount +ℤ credits rows

-- How many rows, and their credits.
pub record Bucket : Type 0 where
  pub count : ℕ
  pub amount : ℤ

abbrev pub bucket : (BankRow → Bool) → List BankRow → Bucket
bucket mask bank = record { count = length (keep mask bank); amount = credits (keep mask bank) }

pub record BankSide : Type 0 where
  pub total_bank : ℤ
  pub matched_confirmed : Bucket
  pub matched_other_exception : Bucket
  pub unmatched_candidate : Bucket
  pub ambiguous : Bucket
  pub orphan : Bucket
  pub orphan_rows : List BankRow
  pub unexplained : Bucket

-- ReconciliationInvariantError, with the rows that fell outside, or the result.
pub data Covered : Type 0 where
  invariant_error : Bucket → Covered
  covered : BankSide → Covered

unfoldable pub bank_side_of : BankSets → List BankRow → BankSide
bank_side_of sets bank = record {
  total_bank = credits bank;
  matched_confirmed = bucket (in_matched_confirmed sets) bank;
  matched_other_exception = bucket (in_matched_other sets) bank;
  unmatched_candidate = bucket (in_unmatched sets) bank;
  ambiguous = bucket (in_ambiguous sets) bank;
  orphan = bucket (in_orphan sets) bank;
  orphan_rows = keep (in_orphan sets) bank;
  unexplained = bucket (in_unexplained sets) bank;
}

-- _bank_side_coverage(gateway, bank, settlement_matches, confirmed_settlement_ids), from the
-- settlements that it builds of the gateway's rows.
unfoldable pub bank_side_coverage :
    List Settlement → List BankRow → List MatchResult → List String → Covered
unfolding bank_sets bank_side_of
bank_side_coverage settlements bank results confirmed_ids =
    let side =
      bank_side_of (bank_sets (build_blocks settlements bank) results confirmed_ids) bank in
    if side.unexplained.count == 0
    then Covered.covered side
    else Covered.invariant_error side.unexplained
