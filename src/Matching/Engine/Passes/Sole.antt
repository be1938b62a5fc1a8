-- ===== src/Matching/Engine/Passes/Sole.antt =====
-- The first pass of matching/engine.py never guesses: a row that it matches is the only explanation
-- of the total among the rows that are available.
use mathlib.Core.Path.{subst}
use close_control.Base.{
  ◌≡◌, refl, sym, ap, ◌∙◌, inl, inr, ℕ, suc, ◌≤◌, Option, none, some, List, [], ◌∷◌, Bool, true,
  false, not, ◌&&◌, arith, leb, ltb, length, keep, str_eq, eq_iff, All, All-imp, ◌<◌, All-keep,
  All-keep_self, Bool-cases, leb→le, le→leb, String,
}
use close_control.Base.Int.{ℤ}
use close_control.Matching.{BankRow, Settlement, exact_match_tolerance}
use close_control.Matching.Engine.{
  MatchResult, MatchStatus, Sorting, Single, Pair, is_exact, is_tie, delta_from, pair_delta, pairs,
  scan_pairs, best_pair, first_of_order, best_single_candidate,
}
use close_control.Matching.Engine.Selection.{IsAmong, All-IsAmong}
use close_control.Matching.Engine.Passes.{Outcome, competing_split, claim_exact, exact_pass}

-- The available rows but those with the id of `row`.
abbrev pub others : List BankRow → BankRow → List BankRow
others available row = keep (λ other. not (str_eq other.bank_txn_id row.bank_txn_id)) available

-- The rows that are a paisa from the total at most.
abbrev pub is_near : ℤ → BankRow → Bool
is_near expected row = leb (delta_from expected row) 1

-- `row` is within two paise of the total, no other available row is within one, and no two others sum
-- to within one. At a difference of two paise it hangs on the floats whether a row is exact.
pub record SoleExplanation (available : List BankRow) (expected : ℤ) (row : BankRow) : Type 0 where
  pub within : delta_from expected row ≤ 2
  pub no_other : keep (is_near expected) available ≡ keep (is_near expected) (row ∷ [])
  pub no_split : All (λ p. 1 < pair_delta expected p) (pairs (others available row))

keep-within :
    (expected : ℤ) (rows : List BankRow)
    → keep (is_near expected) (keep (is_exact expected) rows) ≡ keep (is_near expected) rows
keep-within expected [] = refl
keep-within expected (row ∷ rows) =
    let rest = keep-within expected rows in
    elim (Bool-cases (is_near expected row)) [
      | inl e ↦
          let exact : is_exact expected row ≡ true = le→leb _ _ (omega (arith, leb→le _ _ e)) in
          rw (exact, keep, e) (ap (λ more. row ∷ more) rest)
      | inr e ↦ elim (Bool-cases (is_exact expected row)) [
        | inl exact ↦ rw (exact, keep, e) rest
        | inr far ↦ rw (far, keep, e) rest
      ]
    ]

scan_pairs-zero :
    (expected : ℤ) (ps : List (BankRow × BankRow)) (best : Option Pair) (n : ℕ)
    → (scan_pairs expected ps best n).1 ≡ 0
    → (n ≡ 0) × All (λ p. leb (pair_delta expected p) exact_match_tolerance ≡ false) ps
unfolding scan_pairs
scan_pairs-zero expected [] best n h = (h, tt)
scan_pairs-zero expected (p ∷ ps) best n h =
    let (none_yet, rest) = scan_pairs-zero expected ps _ _ h in
    elim (Bool-cases (leb (pair_delta expected p) exact_match_tolerance)) [
      | inl e ↦ absurd (omega (arith, rw e at none_yet))
      | inr e ↦ (rw e at none_yet, (e, rest))
    ]

length-keep : {A : Type 0} (p : A → Bool) (rows : List A) → length (keep p rows) ≤ length rows
length-keep p [] = omega arith
length-keep p (a ∷ rows) = ground (arith, length-keep p rows)

str_eq-sym : (a b : String) → str_eq a b ≡ true → str_eq b a ≡ true
str_eq-sym a b h = (eq_iff b a).1 (sym ((eq_iff a b).0 h))

length-others :
    (rows : List BankRow) (row : BankRow)
    → IsAmong rows row
    → suc (length (others rows row)) ≤ length rows
length-others [] row h = absurd (ground arith)
length-others (a ∷ rows) row h = elim (Bool-cases (str_eq a.bank_txn_id row.bank_txn_id)) [
  | inl e ↦
      simp e
        (omega (arith, length-keep (λ other. not (str_eq other.bank_txn_id row.bank_txn_id)) rows))
  | inr e ↦ elim (Bool-cases (str_eq row.bank_txn_id a.bank_txn_id)) [
    | inl e' ↦ absurd (ground (arith, str_eq-sym _ _ e'))
    | inr e' ↦ simp e (omega (arith, length-others rows row (ground (arith, h, e'))))
  ]
]

short_pairs : (rows : List BankRow) → length rows ≤ 1 → pairs rows ≡ []
unfolding pairs
short_pairs [] h = refl
short_pairs (a ∷ []) h = refl
short_pairs (a ∷ b ∷ rows) h = absurd (omega arith)

none_found :
    (n : ℕ) (enough many : Bool)
    → (enough && (many && ltb 0 n)) ≡ false
    → enough ≡ true
    → many ≡ true
    → n ≡ 0
none_found n enough many c e m = ground (arith, c, e, m)

at_most_one : (n : ℕ) → leb 2 n ≡ false → n ≤ 1
at_most_one n h = ground arith

no_competing_split :
    (available : List BankRow) (expected : ℤ) (row : BankRow)
    → IsAmong available row
    → competing_split available expected row ≡ false
    → All
        (λ p. leb (pair_delta expected p) exact_match_tolerance ≡ false)
        (pairs (others available row))
unfolding competing_split best_pair
no_competing_split available expected row h c =
    elim (Bool-cases (leb 2 (length (others available row)))) [
      | inl many ↦
          (scan_pairs-zero expected (pairs (others available row)) none 0 (
            none_found (best_pair (others available row) expected).1 _ _ c
              (le→leb 3 (length available)
                (omega (arith, length-others available row h, leb→le 2 _ many)))
              many)).1
      | inr few ↦
          subst (All (λ p. leb (pair_delta expected p) exact_match_tolerance ≡ false))
            (sym (short_pairs (others available row) (at_most_one _ few))) tt
    ]

untied_order :
    (expected : ℤ) (order : List BankRow) (best : Single)
    → All (λ row. is_exact expected row ≡ true) order
    → first_of_order expected order ≡ some best
    → best.is_tied ≡ false
    → order ≡ best.row ∷ []
unfolding first_of_order
untied_order expected [] best hs h free = absurd (ground arith)
untied_order expected (a ∷ []) best hs h free =
    ap (λ o. elim o [ none ↦ a ∷ [] | some b ↦ b.row ∷ [] ]) h
untied_order expected (a ∷ b ∷ more) best hs h free =
    let tied : is_tie (delta_from expected a) (delta_from expected b) ≡ true =
      simp (hs.0, hs.1.0) refl in
    absurd (ground (arith, tied, free, ap (λ o. elim o [ none ↦ true | some b ↦ b.is_tied ]) h))

one_sorted :
    (sorting : Sorting) (expected : ℤ) (a : BankRow) (more : List BankRow) (row : BankRow)
    → sorting.by_delta (delta_from expected) (a ∷ more) ≡ row ∷ []
    → a ∷ more ≡ row ∷ []
one_sorted sorting expected a [] row e =
    ap (λ r. r ∷ [])
      (sym
        (subst (All (λ r. r ≡ a)) e
          (sorting.by_delta_keeps (delta_from expected) (λ r. r ≡ a) (a ∷ []) (refl, tt))).0)
one_sorted sorting expected a (b ∷ more) row e =
    absurd
      (omega (arith, sorting.by_delta_length (delta_from expected) (a ∷ b ∷ more), ap length e))

sole_candidate :
    (sorting : Sorting) (expected : ℤ) (candidates : List BankRow) (best : Single)
    → All (λ row. is_exact expected row ≡ true) candidates
    → best_single_candidate sorting candidates expected ≡ some best
    → best.is_tied ≡ false
    → candidates ≡ best.row ∷ []
unfolding best_single_candidate
sole_candidate sorting expected [] best hs h free = absurd (ground arith)
sole_candidate sorting expected (a ∷ more) best hs h free =
    one_sorted sorting expected a more best.row (
      untied_order expected _ best (sorting.by_delta_keeps (delta_from expected) _ (a ∷ more) hs) h
        free)

status_of : Outcome → MatchStatus
status_of none = MatchStatus.unmatched
status_of (some (result, taken)) = result.match_status

ids_of : Outcome → List String
ids_of none = []
ids_of (some (result, taken)) = result.matched_bank_txn_ids

claim_exact-matched :
    (available : List BankRow) (s : Settlement) (chosen : Option Single)
    → status_of (claim_exact available s chosen) ≡ MatchStatus.matched
    → (best : Single) × ((chosen ≡ some best)
        × ((best.is_tied ≡ false)
            × ((competing_split available s.expected_total best.row ≡ false)
                × (ids_of (claim_exact available s chosen) ≡ best.row.bank_txn_id ∷ []))))
unfolding claim_exact status_of ids_of
claim_exact-matched available s none m = absurd (ground arith)
claim_exact-matched available s (some best) m = elim (Bool-cases best.is_tied) [
  | inl tied ↦ absurd (ground (arith, rw tied at m))
  | inr free ↦ elim (Bool-cases (competing_split available s.expected_total best.row)) [
    | inl e ↦ absurd (ground (arith, simp (free, e) at m))
    | inr e ↦ (best, (refl, (free, (e, simp (free, e) refl))))
  ]
]

selected_IsAmong :
    (available : List BankRow) (p : BankRow → Bool) (row : BankRow)
    → keep p available ≡ row ∷ []
    → IsAmong available row
selected_IsAmong available p row e =
    (subst (All (IsAmong available)) e (All-keep _ p available (All-IsAmong available))).0

-- When pass 1 reports `matched`, it names one row that is within two paise of the total; no other
-- available row is within one paisa of it, and no two others sum to within one paisa of it.
pub exact_pass-SoleExplanation :
    (sorting : Sorting) (available : List BankRow) (s : Settlement) (result : MatchResult)
    (taken : List String)
    → exact_pass sorting available s ≡ some (result, taken)
    → result.match_status ≡ MatchStatus.matched
    → (row : BankRow) × ((result.matched_bank_txn_ids ≡ row.bank_txn_id ∷ [])
        × SoleExplanation available s.expected_total row)
unfolding exact_pass status_of ids_of
exact_pass-SoleExplanation sorting available s result taken h m =
    let m' : status_of (exact_pass sorting available s) ≡ MatchStatus.matched =
      ap status_of h ∙ m in
    let exact : List BankRow = keep (is_exact s.expected_total) available in
    let (best, (found, (free, (alone, named)))) =
      claim_exact-matched available s (best_single_candidate sorting exact s.expected_total) m' in
    let only =
      sole_candidate sorting s.expected_total exact best
        (All-keep_self (is_exact s.expected_total) available) found free in
    (
      best.row,
      (
        sym (ap ids_of h) ∙ named,
        record {
          within =
              leb→le _ _
                (subst (All (λ row. is_exact s.expected_total row ≡ true)) only
                  (All-keep_self (is_exact s.expected_total) available)).0;
          no_other =
              sym (keep-within s.expected_total available)
              ∙ ap (keep (is_near s.expected_total)) only;
          no_split =
              All-imp (λ p far. ground (arith, far)) (pairs (others available best.row))
                (no_competing_split available s.expected_total best.row
                  (selected_IsAmong available (is_exact s.expected_total) best.row only) alone);
        },
      ),
    )
