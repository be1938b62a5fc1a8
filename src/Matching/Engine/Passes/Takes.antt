-- ===== src/Matching/Engine/Passes/Takes.antt =====
-- What a pass of matching/engine.py consumes: the rows that its result names, which are different
-- rows among those that were available.
use close_control.Base.{
  ◌≡◌, refl, inl, inr, ℕ, Option, none, some, List, Bool, true, arith, leb, ltb, length, keep,
  contains, All, All-keep, Distinct, Bool-cases,
}
use close_control.Matching.{BankRow, Settlement, exact_match_tolerance}
use close_control.Matching.Engine.{MatchPass, Sorting, Single, Pair, is_exact}
use close_control.Matching.Engine.Selection.{
  ids, IsAmong, All-IsAmong, SingleHas, best_single_candidate-SingleHas, IsBestPairAmong,
  best_pair-IsAmong,
}
use close_control.Matching.Engine.Passes.{
  Outcome, competing_split, claim_exact, exact_pass, claim_pair, split_pass, is_short, is_over,
  claim_tolerant, shortage_pass, overage_pass,
}

-- The rows that an outcome consumes are named by its result, available, and different.
abbrev pub Takes : List BankRow → Outcome → Type 0
Takes available none = Unit
Takes available (some (result, taken)) =
    (result.matched_bank_txn_ids ≡ taken)
    × (All (λ id. contains (ids available) id ≡ true) taken × Distinct taken)

candidates-IsAmong :
    (available : List BankRow) (p : BankRow → Bool) → All (IsAmong available) (keep p available)
candidates-IsAmong available p = All-keep _ p available (All-IsAmong available)

claim_exact-Takes :
    (available : List BankRow) (s : Settlement) (best : Option Single)
    → SingleHas (IsAmong available) best
    → Takes available (claim_exact available s best)
unfolding claim_exact
claim_exact-Takes available s none h = tt
claim_exact-Takes available s (some best) h = elim (Bool-cases best.is_tied) [
  | inl tied ↦ rw (tied, Takes) (refl, (tt, tt))
  | inr free ↦ elim (Bool-cases (competing_split available s.expected_total best.row)) [
    | inl e ↦ simp (free, e) (refl, (tt, tt))
    | inr e ↦ simp (free, e) (refl, ((h, tt), (refl, tt)))
  ]
]

pub exact_pass-Takes :
    (sorting : Sorting) (available : List BankRow) (s : Settlement)
    → Takes available (exact_pass sorting available s)
unfolding exact_pass
exact_pass-Takes sorting available s = claim_exact-Takes available s _ (
    best_single_candidate-SingleHas sorting (IsAmong available) s.expected_total _
      (candidates-IsAmong available (is_exact s.expected_total)))

claim_pair-Takes :
    (available : List BankRow) (s : Settlement) (best : Option Pair) (n : ℕ)
    → IsBestPairAmong available best
    → Takes available (claim_pair s best n)
unfolding claim_pair
claim_pair-Takes available s none n h = tt
claim_pair-Takes available s (some p) n h = elim (Bool-cases (leb p.delta exact_match_tolerance)) [
  | inl e ↦ elim (Bool-cases (ltb 1 n)) [
    | inl many ↦ rw (e, many, Takes) (refl, (tt, tt))
    | inr sole ↦ rw (e, sole, Takes) (refl, ((h.0, (h.1.0, tt)), (ground arith, (refl, tt))))
  ]
  | inr e ↦ rw (e, Takes) tt
]

pub split_pass-Takes :
    (available : List BankRow) (s : Settlement)
    → Distinct (ids available)
    → Takes available (split_pass available s)
unfolding split_pass
split_pass-Takes available s d = elim (Bool-cases (leb 2 (length available))) [
  | inl e ↦
      rw (e, Takes)
        (claim_pair-Takes available s _ _ (best_pair-IsAmong available s.expected_total d))
  | inr e ↦ rw (e, Takes) tt
]

claim_tolerant-Takes :
    (available : List BankRow) (s : Settlement) (tie pass : MatchPass) (overage : Bool)
    (best : Option Single)
    → SingleHas (IsAmong available) best
    → Takes available (claim_tolerant s tie pass overage best)
unfolding claim_tolerant
claim_tolerant-Takes available s tie pass overage none h = tt
claim_tolerant-Takes available s tie pass overage (some best) h = elim (Bool-cases best.is_tied) [
  | inl tied ↦ simp tied (refl, (tt, tt))
  | inr free ↦ simp free (refl, ((h, tt), (refl, tt)))
]

pub shortage_pass-Takes :
    (sorting : Sorting) (available : List BankRow) (s : Settlement)
    → Takes available (shortage_pass sorting available s)
unfolding shortage_pass
shortage_pass-Takes sorting available s = claim_tolerant-Takes available s _ _ _ _ (
    best_single_candidate-SingleHas sorting (IsAmong available) s.expected_total _
      (candidates-IsAmong available (is_short s.expected_total)))

pub overage_pass-Takes :
    (sorting : Sorting) (available : List BankRow) (s : Settlement)
    → Takes available (overage_pass sorting available s)
unfolding overage_pass
overage_pass-Takes sorting available s = claim_tolerant-Takes available s _ _ _ _ (
    best_single_candidate-SingleHas sorting (IsAmong available) s.expected_total _
      (candidates-IsAmong available (is_over s.expected_total)))
