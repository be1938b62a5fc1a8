-- ===== src/Matching/Diagnostics/Conservation.antt =====
-- The conservation summary of matching/diagnostics.py over the results of the matching.
use close_control.Base.{
  ◌≡◌, refl, sym, ap, ◌∙◌, ℕ, suc, ◌+◌, ◌≤◌, ◌<◌, some, List, [], ◌∷◌, Bool, true, false, arith,
  length, keep, All, Bool-cases, inl, inr, if◌then◌else◌,
}
use close_control.Base.Int.{ℤ, pos, negsuc, ◌-ℤ◌, abs}
use close_control.Matching.{Settlement, exact_match_tolerance}
use close_control.Matching.Engine.{MatchResult, MatchStatus, Sorting}
use close_control.Matching.Engine.Loop.{Blocks, run_matching}
use close_control.Matching.Engine.Loop.Results.{run_matching-Fits}
use close_control.Matching.Engine.Passes.Fit.{FitsAs, Fits}
use close_control.Matching.Diagnostics.{
  settled, known_delta, delta_is, is_within, is_shortage, is_overage,
  settlement_conservation_summary,
}

abbrev one_if : Bool → ℕ
one_if b = if b then 1 else 0

small_delta :
    (delta : ℤ)
    → abs delta ≤ exact_match_tolerance
    → (is_within delta ≡ true) × ((is_shortage delta ≡ false) × (is_overage delta ≡ false))
unfolding ◌-ℤ◌
small_delta (pos n) h = (ground (arith, h), (ground (arith, h), ground (arith, h)))
small_delta (negsuc n) h = (ground (arith, h), (ground (arith, h), ground (arith, h)))

large_delta :
    (delta : ℤ)
    → exact_match_tolerance < abs delta
    → (is_within delta ≡ false) × (one_if (is_shortage delta) + one_if (is_overage delta) ≡ 1)
unfolding ◌-ℤ◌
large_delta (pos n) h = (ground (arith, h), ground (arith, h))
large_delta (negsuc n) h = (ground (arith, h), ground (arith, h))

delta_of :
    (p : ℤ → Bool) (r : MatchResult) (t : ℤ)
    → r.matched_total ≡ some t
    → delta_is p r ≡ p (t -ℤ r.expected_total)
delta_of p r t e = ap (λ total. known_delta p total r.expected_total) e

abbrev is_exactly : MatchStatus → Bool
is_exactly MatchStatus.matched = true
is_exactly _ = false

abbrev is_with_exception : MatchStatus → Bool
is_with_exception MatchStatus.matched_with_exception = true
is_with_exception _ = false

abbrev pub exactly_matched : List MatchResult → List MatchResult
exactly_matched = keep (λ r. is_exactly r.match_status)

abbrev pub matched_with_exception : List MatchResult → List MatchResult
matched_with_exception = keep (λ r. is_with_exception r.match_status)

-- Those within the tolerance are the exact matches, and each match with an exception is a shortage or
-- an overage.
abbrev Conserves : List MatchResult → Type 0
Conserves results =
    (length (keep (delta_is is_within) (settled results)) ≡ length (exactly_matched results))
    × (length (keep (delta_is is_shortage) (settled results))
          + length (keep (delta_is is_overage) (settled results))
        ≡ length (matched_with_exception results))

only_one : (b : Bool) → 1 + one_if b ≡ 1 → b ≡ false
only_one b h = ground (arith, h)

the_other : (b : Bool) → 0 + one_if b ≡ 1 → b ≡ true
the_other b h = ground (arith, h)

one_result :
    (s : MatchStatus) (r : MatchResult) (results : List MatchResult)
    → r.match_status ≡ s
    → FitsAs s r
    → Conserves results
    → Conserves (r ∷ results)
one_result MatchStatus.unmatched r results e fits h = simp e h
one_result MatchStatus.ambiguous r results e fits h = simp e h
one_result MatchStatus.matched r results e (t, total, close) h =
    let (within, (short, over)) = small_delta (t -ℤ r.expected_total) close in
    let w = delta_of is_within r t total ∙ within in
    let s = delta_of is_shortage r t total ∙ short in
    let o = delta_of is_overage r t total ∙ over in simp (e, w, s, o) (ap suc h.0, h.1)
one_result MatchStatus.matched_with_exception r results e (t, total, far, _, _) h =
    let (within, one) = large_delta (t -ℤ r.expected_total) far in
    let w = delta_of is_within r t total ∙ within in
    let delta = t -ℤ r.expected_total in
    let s = delta_of is_shortage r t total in
    let o = delta_of is_overage r t total in
    elim (Bool-cases (is_shortage delta)) [
      | inl short ↦
          let over : is_overage delta ≡ false =
            only_one (is_overage delta)
              (ap (λ b. one_if b + one_if (is_overage delta)) (sym short) ∙ one) in
          simp (e, w, s ∙ short, o ∙ over) (h.0, omega (arith, h.1))
      | inr not_short ↦
          let over : is_overage delta ≡ true =
            the_other (is_overage delta)
              (ap (λ b. one_if b + one_if (is_overage delta)) (sym not_short) ∙ one) in
          simp (e, w, s ∙ not_short, o ∙ over) (h.0, omega (arith, h.1))
    ]

results_conserve : (results : List MatchResult) → All Fits results → Conserves results
results_conserve [] h = (refl, omega arith)
results_conserve (r ∷ results) h =
    one_result r.match_status r results refl h.0 (results_conserve results h.1)

-- Over the results of the matching, those of the matched settlements that are within the tolerance
-- are as many as the exact matches, and those short or over as many as the matches with an exception.
pub settlement_conservation_summary-counts :
    (sorting : Sorting) (settlements : List Settlement) (blocks : Blocks)
    → let results = run_matching sorting settlements blocks in
      ((settlement_conservation_summary results).within_tolerance
        ≡ length (exactly_matched results))
      × ((settlement_conservation_summary results).shortage
            + (settlement_conservation_summary results).overage
          ≡ length (matched_with_exception results))
unfolding settlement_conservation_summary
settlement_conservation_summary-counts sorting settlements blocks =
    results_conserve (run_matching sorting settlements blocks)
      (run_matching-Fits sorting settlements blocks)
