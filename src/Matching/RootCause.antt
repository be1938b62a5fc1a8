-- ===== src/Matching/RootCause.antt =====
-- matching/root_cause.py: the escalated cases of a report by what they have in common. The sorting of
-- the clusters and of their ids is a parameter, with the laws that are relied on; the groups come in
-- the order of their first rows.
pub mod Partition
use close_control.Base.{
  ◌≡◌, ℕ, zero, suc, ◌+◌, String, Option, none, some, List, [], ◌∷◌, ◌++◌, map, Bool, true, false,
  not, ◌&&◌, ltb, str_eq, ◌==◌, length, contains, if◌then◌else◌,
}
use close_control.Base.Int.{ℤ, pos, ◌+ℤ◌}
use close_control.Matching.Exceptions.{ExceptionType, code, RiskClass, risk_rank}
use close_control.Matching.Report.{PaymentRow}

-- How often an id stands in a list, and a number added up over a list.
abbrev pub occurrences : String → List String → ℕ
occurrences id [] = 0
occurrences id (x ∷ xs) = (if str_eq id x then 1 else 0) + occurrences id xs

abbrev pub sum_over : {A : Type 0} → (A → ℕ) → List A → ℕ
sum_over f [] = 0
sum_over f (x ∷ xs) = f x + sum_over f xs

-- A row with its exception, which an escalated case has.
abbrev pub Case : Type 0
Case = ExceptionType × PaymentRow

abbrev pub case_of : Option ExceptionType → PaymentRow → List Case
case_of none row = []
case_of (some e) row = if row.auto_resolve_eligible then [] else (e, row) ∷ []

-- `final_exception_type.notna() & ~auto_resolve_eligible`
abbrev pub escalated : List PaymentRow → List Case
escalated [] = []
escalated (row ∷ report) = case_of row.final_exception_type row ++ escalated report

-- The three columns that are grouped by; `by_settlement` is the basis.
pub record ClusterKey : Type 0 where
  pub by_settlement : Bool
  pub key_part : String
  pub exception_type : ExceptionType

abbrev part_of : Option String → String → Bool × String
part_of none merchant_id = (false, merchant_id)
part_of (some settlement_id) merchant_id = (true, settlement_id)

abbrev pub key_of : Case → ClusterKey
key_of (e, row) =
    let (by_settlement, part) = part_of row.settlement_id row.merchant_id in
    record { by_settlement = by_settlement; key_part = part; exception_type = e }

abbrev same_basis : Bool → Bool → Bool
same_basis true b = b
same_basis false b = not b

abbrev pub same_key : ClusterKey → ClusterKey → Bool
same_key a b =
    same_basis a.by_settlement b.by_settlement
    && (str_eq a.key_part b.key_part && code a.exception_type == code b.exception_type)

abbrev pub Groups : Type 0
Groups = List (ClusterKey × List Case)

unfoldable pub add_case : ClusterKey → Case → Groups → Groups
add_case k c [] = (k, c ∷ []) ∷ []
add_case k c ((key, cases) ∷ groups) =
    let rest = add_case k c groups in
    if same_key key k then (key, cases ++ c ∷ []) ∷ groups else (key, cases) ∷ rest

-- `groupby(..., sort=False)`, with the groups of the rows before.
unfoldable pub group_cases : Groups → List Case → Groups
unfolding add_case
group_cases groups [] = groups
group_cases groups (c ∷ cases) = group_cases (add_case (key_of c) c groups) cases

abbrev worse_risk : RiskClass → RiskClass → RiskClass
worse_risk a b = if ltb (risk_rank a) (risk_rank b) then b else a

-- _worst_risk
abbrev pub worst_risk : List Case → RiskClass
worst_risk [] = RiskClass.none
worst_risk (c ∷ cases) = worse_risk c.1.risk_class (worst_risk cases)

-- _amount_at_risk
unfoldable pub amount_at_risk : List Case → ℤ
amount_at_risk [] = pos 0
amount_at_risk (c ∷ cases) = c.1.expected_net +ℤ amount_at_risk cases

pub record Cluster : Type 0 where
  pub key : ClusterKey
  pub merchant_id : String
  pub settlement_id : Option String
  pub case_count : ℕ
  pub risk_class : RiskClass
  pub amount_at_risk : ℤ
  pub transaction_ids : List String

-- `sort_values([...], ascending=False)` of the clusters, and `sorted` of ids.
pub record ClusterSorting : Type 0 where
  pub by_size : List Cluster → List Cluster
  pub by_size_keeps :
      (f : Cluster → ℕ) (clusters : List Cluster)
      → sum_over f (by_size clusters) ≡ sum_over f clusters
  pub sort_ids : List String → List String
  pub sort_ids_keeps :
      (id : String) (ids : List String) → occurrences id (sort_ids ids) ≡ occurrences id ids

abbrev pub ids_of : List Case → List String
ids_of = map (λ c. c.1.transaction_id)

abbrev first_merchant : List Case → String
first_merchant [] = ""
first_merchant (c ∷ cases) = c.1.merchant_id

unfoldable pub cluster_of : ClusterSorting → ClusterKey × List Case → Cluster
unfolding amount_at_risk
cluster_of sorting (key, cases) = record {
  key = key;
  merchant_id = first_merchant cases;
  settlement_id = if key.by_settlement then some key.key_part else none;
  case_count = length cases;
  risk_class = worst_risk cases;
  amount_at_risk = amount_at_risk cases;
  transaction_ids = sorting.sort_ids (ids_of cases);
}

-- cluster_escalated_cases(report), before its check and less the ids of the clusters.
unfoldable pub cluster_escalated_cases : ClusterSorting → List PaymentRow → List Cluster
unfolding group_cases cluster_of
cluster_escalated_cases sorting report =
    sorting.by_size (map (cluster_of sorting) (group_cases [] (escalated report)))

-- `[t for ids in clusters["transaction_ids"] for t in ids]`
abbrev pub clustered_ids : List Cluster → List String
clustered_ids [] = []
clustered_ids (c ∷ clusters) = c.transaction_ids ++ clustered_ids clusters
