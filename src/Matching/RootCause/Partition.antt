-- ===== src/Matching/RootCause/Partition.antt =====
-- The clusters of matching/root_cause.py are a partition of the escalated cases.
use close_control.Base.{
  ◌≡◌, refl, sym, ap, ◌∙◌, ℕ, ◌+◌, String, List, [], ◌∷◌, ◌++◌, map, arith, length, str_eq,
  Bool-cases, inl, inr, if◌then◌else◌,
}
use close_control.Matching.Report.{PaymentRow}
use close_control.Matching.RootCause.{
  occurrences, sum_over, Case, escalated, ClusterKey, key_of, same_key, Groups, add_case,
  group_cases, Cluster, ClusterSorting, ids_of, cluster_of, cluster_escalated_cases, clustered_ids,
}

module _ (f : Case → ℕ) where
  sum_over-append : (xs ys : List Case) → sum_over f (xs ++ ys) ≡ sum_over f xs + sum_over f ys
  sum_over-append [] ys = omega arith
  sum_over-append (x ∷ xs) ys = omega (arith, sum_over-append xs ys)

  abbrev in_groups : Groups → ℕ
  in_groups = sum_over (λ g. sum_over f g.1)

  add_case-sum :
      (k : ClusterKey) (c : Case) (groups : Groups)
      → in_groups (add_case k c groups) ≡ f c + in_groups groups
  unfolding add_case
  add_case-sum k c [] = omega arith
  add_case-sum k c ((key, cases) ∷ groups) =
      let rest = add_case-sum k c groups in
      let here = sum_over-append cases (c ∷ []) in
      elim (Bool-cases (same_key key k)) [
        | inl e ↦ simp e (omega (arith, here))
        | inr e ↦ simp e (omega (arith, rest))
      ]

  group_cases-sum :
      (groups : Groups) (cases : List Case)
      → in_groups (group_cases groups cases) ≡ in_groups groups + sum_over f cases
  unfolding group_cases
  group_cases-sum groups [] = omega arith
  group_cases-sum groups (c ∷ cases) =
      let rest = group_cases-sum (add_case (key_of c) c groups) cases in
      let one = add_case-sum (key_of c) c groups in omega (arith, rest, one)

abbrev is_id : String → Case → ℕ
is_id id c = if str_eq id c.1.transaction_id then 1 else 0

occurrences-ids_of :
    (id : String) (cases : List Case) → occurrences id (ids_of cases) ≡ sum_over (is_id id) cases
occurrences-ids_of id [] = refl
occurrences-ids_of id (c ∷ cases) = ap (λ n. is_id id c + n) (occurrences-ids_of id cases)

occurrences-append :
    (id : String) (xs ys : List String)
    → occurrences id (xs ++ ys) ≡ occurrences id xs + occurrences id ys
occurrences-append id [] ys = omega arith
occurrences-append id (x ∷ xs) ys = omega (arith, occurrences-append id xs ys)

occurrences-clustered_ids :
    (id : String) (clusters : List Cluster)
    → occurrences id (clustered_ids clusters)
      ≡ sum_over (λ c. occurrences id c.transaction_ids) clusters
occurrences-clustered_ids id [] = refl
occurrences-clustered_ids id (c ∷ clusters) =
    let rest = occurrences-clustered_ids id clusters in
    let here = occurrences-append id c.transaction_ids (clustered_ids clusters) in
    omega (arith, here, rest)

clusters-sum :
    (sorting : ClusterSorting) (f : Cluster → ℕ) (g : Case → ℕ) (groups : Groups)
    → ((key : ClusterKey) (cases : List Case)
        → f (cluster_of sorting (key, cases)) ≡ sum_over g cases)
    → sum_over f (map (cluster_of sorting) groups) ≡ in_groups g groups
clusters-sum sorting f g [] h = refl
clusters-sum sorting f g ((key, cases) ∷ groups) h =
    let rest = clusters-sum sorting f g groups h in
    let here = h key cases in omega (arith, here, rest)

nothing_before : (n : ℕ) → 0 + n ≡ n
nothing_before n = omega arith

length-sum : (cases : List Case) → length cases ≡ sum_over (λ c. 1) cases
length-sum [] = refl
length-sum (c ∷ cases) = let rest = length-sum cases in omega (arith, rest)

-- Each id stands in the clusters as often as among the escalated cases, and the counts of the clusters
-- add up to the number of those.
pub cluster_escalated_cases-partition :
    (sorting : ClusterSorting) (report : List PaymentRow) (id : String)
    → (occurrences id (clustered_ids (cluster_escalated_cases sorting report))
        ≡ occurrences id (ids_of (escalated report)))
      × (sum_over (λ c. c.case_count) (cluster_escalated_cases sorting report)
          ≡ length (escalated report))
unfolding cluster_escalated_cases cluster_of
cluster_escalated_cases-partition sorting report id =
    let cases = escalated report in
    let groups = group_cases [] cases in
    let clusters = map (cluster_of sorting) groups in
    (
      occurrences-clustered_ids id (sorting.by_size clusters)
          ∙ sorting.by_size_keeps (λ c. occurrences id c.transaction_ids) clusters
          ∙ clusters-sum sorting (λ c. occurrences id c.transaction_ids) (is_id id) groups
              (λ key xs. sorting.sort_ids_keeps id (ids_of xs) ∙ occurrences-ids_of id xs)
          ∙ group_cases-sum (is_id id) [] cases
          ∙ nothing_before (sum_over (is_id id) cases)
          ∙ sym (occurrences-ids_of id cases),
      sorting.by_size_keeps (λ c. c.case_count) clusters
          ∙ clusters-sum sorting (λ c. c.case_count) (λ c. 1) groups (λ key xs. length-sum xs)
          ∙ group_cases-sum (λ c. 1) [] cases
          ∙ nothing_before (sum_over (λ c. 1) cases)
          ∙ sym (length-sum cases),
    )
