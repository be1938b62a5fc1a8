-- ===== src/Tests/CashRuns.antt =====
-- cash_position/ on two payments, one banked and one disputed, and on a bank statement with a row that
-- no settlement takes.
use close_control.Base.{◌≡◌, ◌↔◌, ◌<◌, ◌+◌, refl, List, [], ◌∷◌, true, length}
use close_control.Base.Int.{pos, ◌+ℤ◌, ◌-ℤ◌}
use close_control.Matching.{BankRow, Settlement}
use close_control.Matching.Blocking.{is_candidate, build_blocks}
use close_control.Matching.Engine.{MatchResult, best_single_candidate, best_pair}
use close_control.Matching.Engine.Passes.{exact_pass, split_pass, shortage_pass, overage_pass}
use close_control.Matching.Engine.Loop.{
  run_matching, match_from, match_settlement, try_passes, available_rows,
}
use close_control.Matching.Report.{PaymentRow}
use close_control.Matching.RootCause.{
  occurrences, sum_over, escalated, ids_of, ClusterSorting, cluster_escalated_cases, clustered_ids,
}
use close_control.Matching.RootCause.Partition.{cluster_escalated_cases-partition}
use close_control.CashPosition.{
  CashRow, classify_positions, classify, summarize_snapshot, is_confirmed_bucket, cash_total,
}
use close_control.CashPosition.Daily.{build_cash_position}
use close_control.CashPosition.Totals.{summarize_snapshot-partition, captured_rows}
use close_control.CashPosition.Confirmed.{IsBanked, classify-IsBanked}
use close_control.CashPosition.Forecast.{reached, at, build_cash_position-forecast}
use close_control.CashPosition.BankSide.{Bucket, Covered, bank_side_coverage}
use close_control.CashPosition.BankSide.Coverage.{Accounts, bank_side_coverage-Accounts}
use close_control.CashPosition.BankSide.LeftOver.{left_over_candidate_fails}
use close_control.Tests.MatchingRuns.{by_insertion, bank_row, settlement}
use close_control.Tests.BooksRuns.{gateway, ledger, matched, led, row_of}

abbrev report : List PaymentRow
report = row_of "TXN1" ∷ row_of "TXN2" ∷ []

abbrev detail : List CashRow
detail = classify_positions report gateway 25

classify-IsBanked_example :
    (is_confirmed_bucket (classify gateway 25 (row_of "TXN1")).cash_bucket ≡ true)
    ↔ IsBanked (matched ∷ []) gateway ledger [] (led "TXN1") 25
classify-IsBanked_example = classify-IsBanked (matched ∷ []) gateway ledger [] (led "TXN1") 25

summarize_snapshot-partition_example :
    ((summarize_snapshot detail).confirmed_count
        + (summarize_snapshot detail).in_transit_count
        + (summarize_snapshot detail).held_count
        + (summarize_snapshot detail).at_risk_due_count
        + (summarize_snapshot detail).not_yet_captured_count
      ≡ 2)
    × (((summarize_snapshot detail).confirmed_clean_count
            + (summarize_snapshot detail).confirmed_auto_resolved_count
          ≡ (summarize_snapshot detail).confirmed_count)
        × ((summarize_snapshot detail).confirmed_sum
              +ℤ ((summarize_snapshot detail).in_transit_sum
                  +ℤ ((summarize_snapshot detail).held_sum
                      +ℤ (summarize_snapshot detail).at_risk_due_nominal))
            ≡ cash_total (captured_rows detail)))
unfolding classify_positions
summarize_snapshot-partition_example = summarize_snapshot-partition detail

-- On the 20th, two days before they settle, both payments are in transit.
build_cash_position-forecast_example :
    (length (build_cash_position report gateway 20 3).forecast + 20
      ≡ (build_cash_position report gateway 20 3).coverage.horizon_end)
    × (((reached (at 20 0 (pos 0)) (build_cash_position report gateway 20 3).forecast).day
          ≡ (build_cash_position report gateway 20 3).coverage.horizon_end)
        × (((reached
                (at 20 0 (pos 0))
                (build_cash_position report gateway 20 3).forecast).business_days
              ≡ 3)
            × ((reached
                    (at 20 0 (pos 0))
                    (build_cash_position report gateway 20 3).forecast).cumulative
                  +ℤ (build_cash_position report gateway 20 3).coverage.beyond_horizon_sum
                ≡ (build_cash_position report gateway 20 3).snapshot.in_transit_sum)))
build_cash_position-forecast_example = build_cash_position-forecast report gateway 20 3

-- Two rows that fit one settlement: one takes it, and the other is left.
abbrev settlements : List Settlement
settlements = settlement "S1" 100000 ∷ []

abbrev taken : BankRow
taken = bank_row "B1" 100000

abbrev left : BankRow
left = bank_row "B2" 90000

abbrev bank : List BankRow
bank = taken ∷ left ∷ []

abbrev results : List MatchResult
results = run_matching by_insertion settlements (build_blocks settlements bank)

bank_side_coverage-Accounts_example :
    Accounts bank (bank_side_coverage settlements bank results ("S1" ∷ []))
bank_side_coverage-Accounts_example =
    bank_side_coverage-Accounts by_insertion settlements bank ("S1" ∷ []) (refl, (refl, tt))

left_over_candidate_fails_example :
    (rows : Bucket) × ((bank_side_coverage settlements bank results ("S1" ∷ [])
        ≡ Covered.invariant_error rows)
      × (0 < rows.count))
unfolding run_matching match_from match_settlement try_passes available_rows build_blocks exact_pass
    split_pass shortage_pass overage_pass is_candidate best_single_candidate best_pair ◌+ℤ◌ ◌-ℤ◌
left_over_candidate_fails_example =
    left_over_candidate_fails settlements results ("S1" ∷ []) (taken ∷ []) [] left (refl, tt) refl
      refl

abbrev as_they_come : ClusterSorting
as_they_come = record {
  by_size = λ clusters. clusters;
  by_size_keeps = λ f clusters. refl;
  sort_ids = λ ids. ids;
  sort_ids_keeps = λ id ids. refl;
}

cluster_escalated_cases-partition_example :
    (occurrences "TXN2" (clustered_ids (cluster_escalated_cases as_they_come report))
      ≡ occurrences "TXN2" (ids_of (escalated report)))
    × (sum_over (λ c. c.case_count) (cluster_escalated_cases as_they_come report)
        ≡ length (escalated report))
cluster_escalated_cases-partition_example =
    cluster_escalated_cases-partition as_they_come report "TXN2"
