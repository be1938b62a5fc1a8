-- ===== src/Matching/Engine/Passes/Fit.antt =====
-- How well a result of matching/engine.py fits the total that the settlement expects.
use close_control.Base.{
  ◌≡◌, ◌+◌, refl, inl, inr, ℕ, ◌≤◌, ◌<◌, Option, none, some, List, [], ◌∷◌, Bool, true, arith, leb,
  ltb, length, All-keep_self, Bool-cases, leb→le, le→leb, ltb→lt, and_true, All-imp,
}
use close_control.Base.Int.{ℤ, pos, pos_part, neg_part, ltb_ℤ, ◌-ℤ◌, ◌+ℤ◌, abs, int_laws}
use close_control.Matching.{BankRow, Settlement, exact_match_tolerance, scaled_leb}
use close_control.Matching.Engine.{
  MatchResult, MatchStatus, MatchPass, Sorting, Single, Pair, is_exact, delta_from, pair_delta,
  pairs, closer, scan_pairs, best_pair,
}
use close_control.Matching.Engine.Selection.{SingleHas, best_single_candidate-SingleHas}
use close_control.Matching.Engine.Passes.{
  Outcome, competing_split, claim_exact, exact_pass, claim_pair, split_pass, is_short, is_over,
  claim_tolerant, shortage_pass, overage_pass,
}

-- A match is within two paise of the total; a match with an exception is further off, but between
-- 90% and 115% of it; any other result names no row.
abbrev pub FitsAs : MatchStatus → MatchResult → Type 0
FitsAs MatchStatus.matched r =
    (t : ℤ) × (r.matched_total ≡ some t) × (abs (t -ℤ r.expected_total) ≤ exact_match_tolerance)
FitsAs MatchStatus.matched_with_exception r =
    (t : ℤ) × (r.matched_total ≡ some t)
    × (exact_match_tolerance < abs (t -ℤ r.expected_total))
    × (scaled_leb 90 r.expected_total 100 t ≡ true)
    × (scaled_leb 100 t 115 r.expected_total ≡ true)
FitsAs _ r = (r.matched_bank_txn_ids ≡ []) × (r.matched_total ≡ none)

abbrev pub Fits : MatchResult → Type 0
Fits r = FitsAs r.match_status r

abbrev pub OutcomeFits : Outcome → Type 0
OutcomeFits none = Unit
OutcomeFits (some (r, taken)) = Fits r

claim_exact-Fits :
    (available : List BankRow) (s : Settlement) (best : Option Single)
    → SingleHas (λ row. is_exact s.expected_total row ≡ true) best
    → OutcomeFits (claim_exact available s best)
unfolding claim_exact
claim_exact-Fits available s none h = tt
claim_exact-Fits available s (some best) h = elim (Bool-cases best.is_tied) [
  | inl tied ↦ simp tied (refl, refl)
  | inr free ↦ elim (Bool-cases (competing_split available s.expected_total best.row)) [
    | inl e ↦ simp (free, e) (refl, refl)
    | inr e ↦ simp (free, e) (best.row.credit_amount, refl, leb→le _ _ h)
  ]
]

pub exact_pass-Fits :
    (sorting : Sorting) (available : List BankRow) (s : Settlement)
    → OutcomeFits (exact_pass sorting available s)
unfolding exact_pass
exact_pass-Fits sorting available s =
    claim_exact-Fits available s _
      (best_single_candidate-SingleHas sorting _ s.expected_total _ (All-keep_self _ available))

-- The distance that a pair carries is the distance of its sum.
abbrev IsMeasured : ℤ → Option Pair → Type 0
IsMeasured expected none = Unit
IsMeasured expected (some p) = p.delta ≡ pair_delta expected (p.first, p.second)

closer-IsMeasured :
    (expected : ℤ) (best : Option Pair) (p : BankRow × BankRow)
    → IsMeasured expected best
    → IsMeasured expected (closer best p (pair_delta expected p))
closer-IsMeasured expected none (a, b) h = refl
closer-IsMeasured expected (some best) (a, b) h =
    elim (Bool-cases (ltb (pair_delta expected (a, b)) best.delta)) [
      | inl e ↦ rw (e, IsMeasured) refl
      | inr e ↦ rw (e, IsMeasured) h
    ]

scan_pairs-IsMeasured :
    (expected : ℤ) (ps : List (BankRow × BankRow)) (best : Option Pair) (n : ℕ)
    → IsMeasured expected best
    → IsMeasured expected (scan_pairs expected ps best n).0
unfolding scan_pairs
scan_pairs-IsMeasured expected [] best n h = h
scan_pairs-IsMeasured expected (p ∷ ps) best n h =
    scan_pairs-IsMeasured expected ps _ _ (closer-IsMeasured expected best p h)

best_pair-IsMeasured :
    (rows : List BankRow) (expected : ℤ) → IsMeasured expected (best_pair rows expected).0
unfolding best_pair
best_pair-IsMeasured rows expected = scan_pairs-IsMeasured expected (pairs rows) none 0 tt

claim_pair-Fits :
    (s : Settlement) (best : Option Pair) (n : ℕ)
    → IsMeasured s.expected_total best
    → OutcomeFits (claim_pair s best n)
unfolding claim_pair
claim_pair-Fits s none n h = tt
claim_pair-Fits s (some p) n h = elim (Bool-cases (leb p.delta exact_match_tolerance)) [
  | inl e ↦ elim (Bool-cases (ltb 1 n)) [
    | inl many ↦ rw (e, many, OutcomeFits) (refl, refl)
    | inr sole ↦
        rw (e, sole, OutcomeFits)
          (p.first.credit_amount +ℤ p.second.credit_amount, refl, omega (arith, h, leb→le _ _ e))
  ]
  | inr e ↦ rw (e, OutcomeFits) tt
]

pub split_pass-Fits :
    (available : List BankRow) (s : Settlement) → OutcomeFits (split_pass available s)
unfolding split_pass
split_pass-Fits available s = elim (Bool-cases (leb 2 (length available))) [
  | inl e ↦
      rw (e, OutcomeFits) (claim_pair-Fits s _ _ (best_pair-IsMeasured available s.expected_total))
  | inr e ↦ rw (e, OutcomeFits) tt
]

ltb_ℤ→lt : (a b : ℤ) → ltb_ℤ a b ≡ true → pos_part a + neg_part b < pos_part b + neg_part a
ltb_ℤ→lt a b h = ltb→lt _ _ h

-- What both tolerant passes ask of a row.
record IsTolerable (expected : ℤ) (row : BankRow) : Type 0 where
  off : exact_match_tolerance < delta_from expected row
  enough : scaled_leb 90 expected 100 row.credit_amount ≡ true
  not_over : scaled_leb 100 row.credit_amount 115 expected ≡ true

is_short-IsTolerable :
    (expected : ℤ) (row : BankRow) → is_short expected row ≡ true → IsTolerable expected row
is_short-IsTolerable expected row h =
    let (enough, short) = and_true _ _ h in
    let below = ltb_ℤ→lt row.credit_amount (expected -ℤ pos exact_match_tolerance) short in
    record {
      off = omega (int_laws, below);
      enough = enough;
      not_over = le→leb _ _ (omega (int_laws, below, leb→le _ _ enough));
    }

is_over-IsTolerable :
    (expected : ℤ) (row : BankRow) → is_over expected row ≡ true → IsTolerable expected row
is_over-IsTolerable expected row h =
    let (over, not_over) = and_true _ _ h in
    let above = ltb_ℤ→lt (expected +ℤ pos exact_match_tolerance) row.credit_amount over in
    record {
      off = omega (int_laws, above);
      enough = le→leb _ _ (omega (int_laws, above, leb→le _ _ not_over));
      not_over = not_over;
    }

claim_tolerant-Fits :
    (s : Settlement) (tie pass : MatchPass) (overage : Bool) (best : Option Single)
    → SingleHas (IsTolerable s.expected_total) best
    → OutcomeFits (claim_tolerant s tie pass overage best)
unfolding claim_tolerant
claim_tolerant-Fits s tie pass overage none h = tt
claim_tolerant-Fits s tie pass overage (some best) h = elim (Bool-cases best.is_tied) [
  | inl tied ↦ simp tied (refl, refl)
  | inr free ↦ simp free (best.row.credit_amount, refl, h.off, h.enough, h.not_over)
]

pub shortage_pass-Fits :
    (sorting : Sorting) (available : List BankRow) (s : Settlement)
    → OutcomeFits (shortage_pass sorting available s)
unfolding shortage_pass
shortage_pass-Fits sorting available s = claim_tolerant-Fits s _ _ _ _ (
    best_single_candidate-SingleHas sorting _ s.expected_total _
      (All-imp (is_short-IsTolerable s.expected_total) _ (All-keep_self _ available)))

pub overage_pass-Fits :
    (sorting : Sorting) (available : List BankRow) (s : Settlement)
    → OutcomeFits (overage_pass sorting available s)
unfolding overage_pass
overage_pass-Fits sorting available s = claim_tolerant-Fits s _ _ _ _ (
    best_single_candidate-SingleHas sorting _ s.expected_total _
      (All-imp (is_over-IsTolerable s.expected_total) _ (All-keep_self _ available)))
