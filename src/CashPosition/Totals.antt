-- ===== src/CashPosition/Totals.antt =====
-- The totals of cash_position/engine.py leave no payment out and count none twice.
use close_control.Base.{
  ◌≡◌, ◌⊎◌, refl, ◌+◌, List, [], ◌∷◌, Bool, not, arith, length, keep, Option, none, some,
  Bool-cases, inl, inr, ap, ◌∙◌,
}
use close_control.Base.Int.{ℤ, ◌+ℤ◌, int_laws}
use close_control.CashPosition.{
  CashBucket, CashRow, is_not_yet_captured_bucket, plus, sum_of, cash_total, summarize_snapshot,
  held_rows, at_risk_due_rows, confirmed_rows, in_transit_rows, at_risk_rows,
}

abbrev pub captured_rows : List CashRow → List CashRow
captured_rows = keep (λ row. not (is_not_yet_captured_bucket row.cash_bucket))

abbrev not_yet_captured_rows : List CashRow → List CashRow
not_yet_captured_rows = keep (λ row. is_not_yet_captured_bucket row.cash_bucket)

keep_both :
    (p : CashRow → Bool) (rows : List CashRow)
    → length (keep p rows) + length (keep (λ row. not (p row)) rows) ≡ length rows
keep_both p [] = omega arith
keep_both p (row ∷ rows) = ground (arith, keep_both p rows)

counts_add_up :
    (rows : List CashRow)
    → length (confirmed_rows rows)
        + length (in_transit_rows rows)
        + length (at_risk_rows rows)
        + length (not_yet_captured_rows rows)
      ≡ length rows
counts_add_up [] = omega arith
counts_add_up (row ∷ rows) = ground (arith, counts_add_up rows)

pub plus-left : (x : Option ℤ) (a b : ℤ) → plus x a +ℤ b ≡ plus x (a +ℤ b)
plus-left none a b = refl
plus-left (some x) a b = grind int_laws

pub plus-right : (x : Option ℤ) (a b : ℤ) → a +ℤ plus x b ≡ plus x (a +ℤ b)
plus-right none a b = refl
plus-right (some x) a b = grind int_laws

pub sum_of-both :
    (column : CashRow → Option ℤ) (p : CashRow → Bool) (rows : List CashRow)
    → sum_of column (keep p rows) +ℤ sum_of column (keep (λ row. not (p row)) rows)
      ≡ sum_of column rows
unfolding sum_of
sum_of-both column p [] = grind int_laws
sum_of-both column p (row ∷ rows) = elim (Bool-cases (p row)) [
  | inl e ↦ simp e (plus-left (column row) _ _ ∙ ap (plus (column row)) (sum_of-both column p rows))
  | inr e ↦
      simp e (plus-right (column row) _ _ ∙ ap (plus (column row)) (sum_of-both column p rows))
]

bucket_cases :
    (b : CashBucket)
    → (b ≡ CashBucket.confirmed)
      ⊎ ((b ≡ CashBucket.in_transit)
          ⊎ ((b ≡ CashBucket.at_risk) ⊎ (b ≡ CashBucket.not_yet_captured)))
bucket_cases CashBucket.confirmed = inl refl
bucket_cases CashBucket.in_transit = inr (inl refl)
bucket_cases CashBucket.at_risk = inr (inr (inl refl))
bucket_cases CashBucket.not_yet_captured = inr (inr (inr refl))

module _ (column : CashRow → Option ℤ) where
  three_buckets :
      (rows : List CashRow)
      → sum_of column (confirmed_rows rows)
          +ℤ (sum_of column (in_transit_rows rows) +ℤ sum_of column (at_risk_rows rows))
        ≡ sum_of column (captured_rows rows)
  unfolding sum_of
  three_buckets [] = grind int_laws
  three_buckets (row ∷ rows) =
      let rest = three_buckets rows in
      let x = column row in
      let confirmed = sum_of column (confirmed_rows rows) in
      elim (bucket_cases row.cash_bucket) [
        | inl e ↦ simp e (plus-left x _ _ ∙ ap (plus x) rest)
        | inr (inl e) ↦
            simp e
              (ap (λ b. confirmed +ℤ b) (plus-left x _ _) ∙ plus-right x _ _ ∙ ap (plus x) rest)
        | inr (inr (inl e)) ↦
            simp e
              (ap (λ b. confirmed +ℤ b) (plus-right x _ _) ∙ plus-right x _ _ ∙ ap (plus x) rest)
        | inr (inr (inr e)) ↦ simp e rest
      ]

  pub sums_add_up :
      (rows : List CashRow)
      → sum_of column (confirmed_rows rows)
          +ℤ (sum_of column (in_transit_rows rows)
              +ℤ (sum_of column (held_rows rows) +ℤ sum_of column (at_risk_due_rows rows)))
        ≡ sum_of column (captured_rows rows)
  sums_add_up rows =
      let held = sum_of-both column (λ row. row.is_held) (at_risk_rows rows) in
      ap
        (λ at_risk.
          sum_of column (confirmed_rows rows) +ℤ (sum_of column (in_transit_rows rows) +ℤ at_risk))
        held
      ∙ three_buckets rows

-- The buckets of the snapshot, the held payments apart, count each payment of the detail once; those
-- confirmed are the clean and the resolved ones; and the sums of the buckets are together the cash of
-- the payments that are captured.
pub summarize_snapshot-partition :
    (detail : List CashRow)
    → ((summarize_snapshot detail).confirmed_count
          + (summarize_snapshot detail).in_transit_count
          + (summarize_snapshot detail).held_count
          + (summarize_snapshot detail).at_risk_due_count
          + (summarize_snapshot detail).not_yet_captured_count
        ≡ length detail)
      × (((summarize_snapshot detail).confirmed_clean_count
              + (summarize_snapshot detail).confirmed_auto_resolved_count
            ≡ (summarize_snapshot detail).confirmed_count)
          × ((summarize_snapshot detail).confirmed_sum
                +ℤ ((summarize_snapshot detail).in_transit_sum
                    +ℤ ((summarize_snapshot detail).held_sum
                        +ℤ (summarize_snapshot detail).at_risk_due_nominal))
              ≡ cash_total (captured_rows detail)))
unfolding summarize_snapshot
summarize_snapshot-partition detail =
    let all = counts_add_up detail in
    let held = keep_both (λ row. row.is_held) (at_risk_rows detail) in
    (
      omega (arith, all, held),
      (
        keep_both (λ row. row.payment.is_clean) (confirmed_rows detail),
        sums_add_up (λ row. row.cash_amount) detail,
      ),
    )
