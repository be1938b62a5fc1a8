-- ===== src/Review/Stats/Counted.antt =====
-- The loop of GET /api/stats over the cases.
use mathlib.Core.List.{append-nil, append_assoc}
use close_control.Base.{
  ◌≡◌, refl, sym, ap, ◌∙◌, ℕ, ◌+◌, String, some, List, [], ◌∷◌, ◌++◌, map, Bool, true, ◌⊎◌, inl,
  inr, arith, str_eq, eq_iff, contains, length, keep, All, Bool-cases, if◌then◌else◌,
}
use close_control.Review.{Status, is_open}
use close_control.Review.Chain.{Row}
use close_control.Review.Reverify.{status_in}
use close_control.Review.Listing.{status_text}
use close_control.Review.Stats.{
  StatsRow, case_of, id_of, Numbers, status_keys, after, add_at, number_at, add_tier, Totals,
  with_counts, count_row, then_count, count_rows,
}

abbrev names : Numbers → List String
names = map (λ entry. entry.0)

abbrev if_here : String → String → ℕ → ℕ
if_here t key n = if str_eq key t then n else 0

record Added (key : String) (n : ℕ) (numbers : Numbers) : Type 0 where
  numbers' : Numbers
  added : add_at key n numbers ≡ some numbers'
  same_names : names numbers' ≡ names numbers
  at : (t : String) → number_at t numbers' ≡ number_at t numbers + if_here t key n

add_at-Added :
    (key : String) (n : ℕ) (numbers : Numbers)
    → contains (names numbers) key ≡ true
    → Added key n numbers
unfolding add_at number_at
add_at-Added key n [] h = absurd (ground (arith, h))
add_at-Added key n ((k, m) ∷ numbers) h = elim (Bool-cases (str_eq k key)) [
  | inl e ↦ record {
    numbers' = (k, m + n) ∷ numbers;
    added = rw e refl;
    same_names = refl;
    at = λ t. ground (arith, e, eq_iff k key, eq_iff k t, eq_iff key t);
  }
  | inr e ↦
      let rest = add_at-Added key n numbers (ground (arith, h, e, eq_iff k key, eq_iff key k)) in
      record {
        numbers' = (k, m) ∷ rest.numbers';
        added = rw e (ap (after (k, m)) rest.added);
        same_names = ap (λ others. k ∷ others) rest.same_names;
        at = λ t. ground (arith, e, rest.at t, eq_iff k key, eq_iff k t, eq_iff key t);
      }
]

add_tier-known :
    (tier : ℕ) (by_tier : ℕ × ℕ)
    → (tier ≡ 1) ⊎ (tier ≡ 2)
    → (by_tier' : ℕ × ℕ) × (add_tier tier by_tier ≡ some by_tier')
add_tier-known tier (first, second) (inl e) = ((first + 1, second), rw e refl)
add_tier-known tier (first, second) (inr e) = ((first, second + 1), rw e refl)

-- What one turn of the loop makes of the variables that are read below.
record Stepped (row : StatsRow) (s : Status) (t : Totals) : Type 0 where
  t' : Totals
  ends : count_row row s t ≡ some t'
  count_names : names t'.counts ≡ names t.counts
  amount_names : names t'.amount_by_status ≡ names t.amount_by_status
  count_at :
      (k : String) → number_at k t'.counts ≡ number_at k t.counts + if_here k (status_text s) 1
  amount_at :
      (k : String)
      → number_at k t'.amount_by_status
        ≡ number_at k t.amount_by_status + if_here k (status_text s) row.amount_at_risk
  open_ids : t'.still_open ≡ (if is_open s then t.still_open ++ id_of row ∷ [] else t.still_open)

count_row-Stepped :
    (row : StatsRow) (s : Status) (t : Totals)
    → contains (names t.counts) (status_text s) ≡ true
    → contains (names t.amount_by_status) (status_text s) ≡ true
    → ((case_of row).required_approval_tier ≡ 1) ⊎ ((case_of row).required_approval_tier ≡ 2)
    → Stepped row s t
unfolding count_row
count_row-Stepped row s t in_counts in_amounts tier =
    let c = add_at-Added (status_text s) 1 t.counts in_counts in
    let a = add_at-Added (status_text s) row.amount_at_risk t.amount_by_status in_amounts in
    let (by_tier, k) = add_tier-known (case_of row).required_approval_tier t.by_tier tier in
    let amounts = add_at (status_text s) row.amount_at_risk t.amount_by_status in
    let tiers = add_tier (case_of row).required_approval_tier t.by_tier in
    record {
      t' = _;
      ends =
          ap (λ x. with_counts row s t x amounts tiers) c.added
          ∙ (ap (λ x. with_counts row s t (some c.numbers') x tiers) a.added
              ∙ ap (λ x. with_counts row s t (some c.numbers') (some a.numbers') x) k);
      count_names = c.same_names;
      amount_names = a.same_names;
      count_at = c.at;
      amount_at = a.at;
      open_ids = refl;
    }

abbrev pub amount_of : List StatsRow → ℕ
amount_of [] = 0
amount_of (row ∷ rows) = row.amount_at_risk + amount_of rows

module _ {Hash : Type 0} (reviews : List (Row Hash)) where
  abbrev pub status_of : StatsRow → Status
  status_of row = status_in reviews (case_of row)

  abbrev pub in_status : String → StatsRow → Bool
  in_status s row = str_eq (status_text (status_of row)) s

  abbrev pub waits : StatsRow → Bool
  waits row = is_open (status_of row)

  abbrev pub Known : StatsRow → Type 0
  Known row =
      (contains status_keys (status_text (status_of row)) ≡ true)
      × (((case_of row).required_approval_tier ≡ 1) ⊎ ((case_of row).required_approval_tier ≡ 2))

  pub record Counted (rows : List StatsRow) (t : Totals) : Type 0 where
    pub final : Totals
    pub ends : count_rows reviews rows t ≡ some final
    pub counts :
        (s : String)
        → number_at s final.counts ≡ number_at s t.counts + length (keep (in_status s) rows)
    pub amounts :
        (s : String)
        → number_at s final.amount_by_status
          ≡ number_at s t.amount_by_status + amount_of (keep (in_status s) rows)
    pub open_ids : final.still_open ≡ t.still_open ++ map id_of (keep waits rows)

  still :
      (row : StatsRow) (rows : List StatsRow) (t : Totals) (turn : Stepped row (status_of row) t)
      → turn.t'.still_open ++ map id_of (keep waits rows)
        ≡ t.still_open ++ map id_of (keep waits (row ∷ rows))
  still row rows t turn = elim (Bool-cases (waits row)) [
    | inl e ↦ rw e (
        ap (λ ids. ids ++ map id_of (keep waits rows)) (rw e at turn.open_ids)
        ∙ append_assoc t.still_open (id_of row ∷ []) _)
    | inr e ↦ rw e (ap (λ ids. ids ++ map id_of (keep waits rows)) (rw e at turn.open_ids))
  ]

  pub count_rows-Counted :
      (rows : List StatsRow) (t : Totals)
      → names t.counts ≡ status_keys
      → names t.amount_by_status ≡ status_keys
      → All Known rows
      → Counted rows t
  unfolding count_rows
  count_rows-Counted [] t hc ha known = record {
    final = t;
    ends = refl;
    counts = λ s. omega arith;
    amounts = λ s. omega arith;
    open_ids = sym (append-nil _);
  }
  count_rows-Counted (row ∷ rows) t hc ha ((key, tier), known) =
      let turn = count_row-Stepped row (status_of row) t (rw hc key) (rw ha key) tier in
      let rest =
        count_rows-Counted rows turn.t' (turn.count_names ∙ hc) (turn.amount_names ∙ ha) known in
      record {
        final = rest.final;
        ends = ap (λ step. then_count step (count_rows reviews rows)) turn.ends ∙ rest.ends;
        counts = λ s. ground (arith, rest.counts s, turn.count_at s);
        amounts = λ s. ground (arith, rest.amounts s, turn.amount_at s);
        open_ids = rest.open_ids ∙ still row rows t turn;
      }
