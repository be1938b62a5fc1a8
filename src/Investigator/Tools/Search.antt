-- ===== src/Investigator/Tools/Search.antt =====
-- The search of investigator/tools.py over the bank statement: what it calls a near miss.
use native.Mathlib.Nat.{le_trans}
use mathlib.Core.Path.{subst}
use close_control.Base.{
  ◌≡◌, refl, sym, ap, ◌∙◌, ℕ, ◌≤◌, String, Option, none, some, List, [], ◌∷◌, Bool, true, false,
  ◌&&◌, arith, ltb, length, keep, contains, eq_iff, All, All-imp, All-keep, All-keep_self,
  Bool-cases, inl, inr, if◌then◌else◌,
}
use close_control.Base.Int.{ℤ}
use close_control.Matching.{BankRow}
use close_control.Matching.Engine.Selection.{ids}
use close_control.CashPosition.{captured_date_of}
use close_control.Investigator.Tools.{
  ToolContext, primary_of, in_window, amount_diff, is_close, closest, NearMiss,
  near_miss_window_days, miss_of, expected_in, search_from, report_row_of, nearest, find_near_miss,
  SearchResult, when_empty, search_around, search_bank_statement,
}

-- The row of the bank that is shown, within thirty days, refused by the search, and no further off
-- than any other of those days.
pub record IsNearMiss (bank : List BankRow) (ref_date : ℕ) (expected : ℤ) (window tolerance : ℕ)
    (m : NearMiss) : Type 0 where
  pub listed : contains (ids bank) m.row.bank_txn_id ≡ true
  pub near : in_window ref_date near_miss_window_days m.row ≡ true
  pub refused :
      (in_window ref_date window m.row && is_close (some expected) tolerance m.row) ≡ false
  pub distance : m.amount_diff ≡ amount_diff expected m.row
  pub least :
      All
        (λ row.
          in_window ref_date near_miss_window_days row ≡ true
          → m.amount_diff ≤ amount_diff expected row)
        bank

module _ (expected : ℤ) where
  abbrev NoFurther : BankRow → BankRow → Type 0
  NoFurther best row = amount_diff expected best ≤ amount_diff expected row

  abbrev nearer : BankRow → BankRow → BankRow
  nearer best row = if ltb (amount_diff expected row) (amount_diff expected best) then row else best

  nearer-le :
      (best row : BankRow) → NoFurther (nearer best row) best × NoFurther (nearer best row) row
  nearer-le best row =
      elim (Bool-cases (ltb (amount_diff expected row) (amount_diff expected best))) [
        | inl e ↦ rw e (ground arith, omega arith)
        | inr e ↦ rw e (omega arith, ground arith)
      ]

  nearer-has : (P : BankRow → Type 0) (best row : BankRow) → P best → P row → P (nearer best row)
  nearer-has P best row h k =
      elim (Bool-cases (ltb (amount_diff expected row) (amount_diff expected best))) [
        | inl e ↦ rw e k
        | inr e ↦ rw e h
      ]

  -- A property of all rows is one of the closest.
  closest-All :
      (P : BankRow → Type 0) (best : BankRow) (rows : List BankRow)
      → P best
      → All P rows
      → P (closest expected best rows)
  closest-All P best [] h hs = h
  closest-All P best (row ∷ rows) h hs =
      closest-All P (nearer best row) rows (nearer-has P best row h hs.0) hs.1

  closest-le :
      (best : BankRow) (rows : List BankRow) (d : ℕ)
      → amount_diff expected best ≤ d
      → amount_diff expected (closest expected best rows) ≤ d
  closest-le best [] d h = h
  closest-le best (row ∷ rows) d h =
      closest-le (nearer best row) rows d (le_trans (nearer-le best row).0 h)

  closest-least :
      (best : BankRow) (rows : List BankRow)
      → All (NoFurther (closest expected best rows)) (best ∷ rows)
  closest-least best [] = (omega arith, tt)
  closest-least best (row ∷ rows) =
      let (first, rest) = closest-least (nearer best row) rows in
      let (le_best, le_row) = nearer-le best row in
      (le_trans first le_best, (le_trans first le_row, rest))

module _ (p : BankRow → Bool) where
  -- What holds of the kept rows holds of all rows that pass.
  All-of_keep :
      (P : BankRow → Type 0) (rows : List BankRow)
      → All P (keep p rows)
      → All (λ row. p row ≡ true → P row) rows
  All-of_keep P [] h = tt
  All-of_keep P (row ∷ rows) h = elim (Bool-cases (p row)) [
    | inl e ↦ let (here, rest) = rw e at h in (λ _. here, All-of_keep P rows rest)
    | inr e ↦ (λ t. absurd (ground arith), All-of_keep P rows (rw e at h))
  ]

each_listed : (rows : List BankRow) → All (λ row. contains (ids rows) row.bank_txn_id ≡ true) rows
each_listed [] = tt
each_listed (row ∷ rows) = (
  ground (arith, eq_iff row.bank_txn_id row.bank_txn_id),
  All-imp (λ other h. ground (arith, h)) rows (each_listed rows),
)

when_empty-some :
    (matches : List BankRow) (miss : Option NearMiss) (m : NearMiss)
    → when_empty matches miss ≡ some m
    → (matches ≡ []) × (miss ≡ some m)
when_empty-some [] miss m h = (refl, h)
when_empty-some (row ∷ rows) miss m h = cc

-- A row that passes is kept, so of an empty choice none passes.
none_kept :
    (p : BankRow → Bool) (rows : List BankRow) → keep p rows ≡ [] → All (λ row. p row ≡ false) rows
none_kept p [] h = tt
none_kept p (row ∷ rows) h = elim (Bool-cases (p row)) [
  | inl e ↦ absurd (ground (arith, h, e))
  | inr e ↦ (e, none_kept p rows (rw e at h))
]

module _ (ctx : ToolContext) (ref_date : ℕ) (expected : ℤ) (window tolerance : ℕ) where
  abbrev wide : BankRow → Bool
  wide = in_window ref_date near_miss_window_days

  abbrev strict : BankRow → Bool
  strict row = in_window ref_date window row && is_close (some expected) tolerance row

  best_IsNearMiss :
      (row : BankRow) (rows : List BankRow)
      → keep wide ctx.bank ≡ row ∷ rows
      → keep strict ctx.bank ≡ []
      → IsNearMiss ctx.bank ref_date expected window tolerance
          (miss_of ctx ref_date expected (closest expected row rows))
  best_IsNearMiss row rows e none_close =
      let of_kept : (P : BankRow → Type 0)
          → All P (keep wide ctx.bank)
          → P (closest expected row rows) =
        λ P all. let here = subst (All P) e all in closest-All expected P row rows here.0 here.1 in
      record {
        listed =
            of_kept (λ r. contains (ids ctx.bank) r.bank_txn_id ≡ true)
              (All-keep _ wide ctx.bank (each_listed ctx.bank));
        near = of_kept (λ r. wide r ≡ true) (All-keep_self wide ctx.bank);
        refused =
            of_kept (λ r. strict r ≡ false)
              (All-keep _ wide ctx.bank (none_kept strict ctx.bank none_close));
        distance = refl;
        least = All-of_keep wide (NoFurther expected (closest expected row rows)) ctx.bank (
            subst (All (NoFurther expected (closest expected row rows))) (sym e)
              (closest-least expected row rows));
      }

  nearest-IsNearMiss :
      (rows : List BankRow) (m : NearMiss)
      → keep wide ctx.bank ≡ rows
      → keep strict ctx.bank ≡ []
      → nearest ctx ref_date expected rows ≡ some m
      → IsNearMiss ctx.bank ref_date expected window tolerance m
  nearest-IsNearMiss [] m e none_close h = cc
  nearest-IsNearMiss (row ∷ rows) m e none_close h =
      let same : miss_of ctx ref_date expected (closest expected row rows) ≡ m = cc h in
      subst (IsNearMiss ctx.bank ref_date expected window tolerance) same
        (best_IsNearMiss row rows e none_close)

-- A near miss is only shown where the search finds nothing, and the report has an expectation.
around_near_miss :
    (ctx : ToolContext) (ref_date : ℕ) (expected : Option ℤ) (window tolerance : ℕ) (m : NearMiss)
    → (search_around ctx ref_date expected window tolerance).near_miss ≡ some m
    → ((search_around ctx ref_date expected window tolerance).candidate_count ≡ 0)
      × ((total : ℤ) × ((expected ≡ some total)
            × IsNearMiss ctx.bank ref_date total window tolerance m))
unfolding find_near_miss
around_near_miss ctx ref_date none window tolerance m h =
    let found = when_empty-some _ none m h in cc (found.1)
around_near_miss ctx ref_date (some total) window tolerance m h =
    let found = when_empty-some _ (find_near_miss ctx ref_date (some total)) m h in
    (
      ap length found.0,
      (
        total,
        (refl, nearest-IsNearMiss ctx ref_date total window tolerance _ m refl found.0 found.1),
      ),
    )

-- A near miss that the search for a captured payment shows: nothing was found by the search itself,
-- and it is a row of the bank within thirty days of the capture that the search refuses, with the
-- amount that is the closest of those days to what the report expects.
pub search_bank_statement-near_miss :
    (ctx : ToolContext) (transaction_id : String) (ref_date window tolerance : ℕ) (r : SearchResult)
    (m : NearMiss)
    → captured_date_of (primary_of ctx transaction_id) ≡ some ref_date
    → search_bank_statement ctx transaction_id window tolerance ≡ some r
    → r.near_miss ≡ some m
    → (r.candidate_count ≡ 0)
      × ((expected : ℤ) × ((expected_in (report_row_of ctx.report transaction_id) ≡ some expected)
            × IsNearMiss ctx.bank ref_date expected window tolerance m))
unfolding search_bank_statement
search_bank_statement-near_miss ctx transaction_id ref_date window tolerance r m captured found h =
    let expected = expected_in (report_row_of ctx.report transaction_id) in
    let same : some (search_around ctx ref_date expected window tolerance) ≡ some r =
      ap (λ date. search_from ctx transaction_id date window tolerance) (sym captured) ∙ found in
    let this : search_around ctx ref_date expected window tolerance ≡ r = cc same in
    let (nothing, rest) =
      around_near_miss ctx ref_date expected window tolerance m (ap (λ s. s.near_miss) this ∙ h) in
    (ap (λ s. s.candidate_count) (sym this) ∙ nothing, rest)
