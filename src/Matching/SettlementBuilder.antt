-- ===== src/Matching/SettlementBuilder.antt =====
-- matching/settlement_builder.py: the settlements that the gateway's rows belong to. pandas finds the
-- keys of a grouping: that is a parameter, with the laws that are relied on.
use Prim.Native.Nat.{max}
use close_control.Base.{
  ◌≡◌, ℕ, String, Option, none, some, List, [], ◌∷◌, map, Bool, true, false, not, ◌&&◌, ltb, str_eq,
  length, keep, contains, Distinct,
}
use close_control.Base.Int.{ℤ, pos, ◌+ℤ◌}
use close_control.Matching.{Settlement}
use close_control.Matching.LedgerCheck.{GatewayRow}

-- The keys of `frame.groupby(column)`, from the column: each of its values once.
pub record Grouping : Type 0 where
  pub keys : List String → List String
  pub keys_once : (column : List String) → Distinct (keys column)
  pub keys_same : (column : List String) (x : String) → contains (keys column) x ≡ contains column x

pub record Candidate : Type 0 where
  pub settlement : Settlement
  pub member_payment_ids : List String
  pub member_transaction_ids : List String

-- `raise ValueError`, with the settlements that span merchants, or the frame.
pub data Built : Type 0 where
  spans_merchants : List String → Built
  built : List Candidate → Built

-- `settlement_id.notna()`
abbrev pub has_settlement : GatewayRow → Bool
has_settlement row = elim row.settlement_id [ none ↦ false | some _ ↦ true ]

-- Successful, and with a settlement id.
abbrev pub eligible : List GatewayRow → List GatewayRow
eligible gateway = keep (λ row. row.is_success && has_settlement row) gateway

-- The key of a row of `eligible`, which has a settlement id.
abbrev pub settlement_key : GatewayRow → String
settlement_key row = elim row.settlement_id [ none ↦ "" | some id ↦ id ]

abbrev pub members : List GatewayRow → String → List GatewayRow
members rows id = keep (λ row. str_eq (settlement_key row) id) rows

-- `merchant_id` of the first member
abbrev pub first_merchant : List GatewayRow → String
first_merchant [] = ""
first_merchant (row ∷ rows) = row.merchant_id

-- `nunique() > 1`
abbrev pub spans : List GatewayRow → Bool
spans rows = ltb 0 (length (keep (λ row. not (str_eq row.merchant_id (first_merchant rows))) rows))

unfoldable pub total_settled : List GatewayRow → ℤ
total_settled [] = pos 0
total_settled (row ∷ rows) = row.settlement_amount +ℤ total_settled rows

abbrev later : Option ℕ → ℕ → ℕ
later none d = d
later (some x) d = max x d

-- `settled_at.max()`; the members of a settlement have a date.
abbrev pub last_settled : List GatewayRow → ℕ
last_settled [] = 0
last_settled (row ∷ rows) = later row.settled_on (last_settled rows)

unfoldable pub candidate_of : List GatewayRow → String → Candidate
unfolding total_settled
candidate_of rows id =
    let group = members rows id in
    record {
      settlement = record {
        settlement_id = id;
        merchant_id = first_merchant group;
        member_count = length group;
        expected_total = total_settled group;
        settle_date = last_settled group;
      };
      member_payment_ids = map (λ row. row.razorpay_payment_id) group;
      member_transaction_ids = map (λ row. row.transaction_id_ref) group;
    }

abbrev pub unless_bad : List String → List Candidate → Built
unless_bad [] candidates = Built.built candidates
unless_bad (id ∷ bad) candidates = Built.spans_merchants (id ∷ bad)

-- build_settlement_candidates(gateway)
unfoldable pub build_settlement_candidates : Grouping → List GatewayRow → Built
unfolding candidate_of
build_settlement_candidates grouping gateway =
    let rows = eligible gateway in
    let keys = grouping.keys (map settlement_key rows) in
    unless_bad (keep (λ id. spans (members rows id)) keys) (map (candidate_of rows) keys)
