-- ===== src/Review/Listing/Answer.antt =====
-- What GET /api/cases of review_backend/main.py answers: which queries it refuses, and how many cases
-- it finds for the others.
use close_control.Base.{
  ◌≡◌, ◌≤◌, ◌⊎◌, ◌↔◌, refl, sym, ap, ◌∙◌, inl, inr, ℕ, String, Option, none, some, List, Bool, true,
  false, ◌&&◌, arith, str_eq, eq_iff, length, keep, is_some_text, Bool-cases,
}
use close_control.Base.Int.{ℤ, pos, ◌≤ℤ◌, leb_ℤ}
use close_control.Matching.LedgerCheck.{LedgerRow}
use close_control.Review.Chain.{Row}
use close_control.Review.Cases.{get_reviews, derive_status}
use close_control.Review.Reverify.{status_in}
use close_control.Review.Reverify.Latest.{status_in-derive_status}
use close_control.Review.Listing.{
  QueueRow, SortKey, SortDirection, Query, Database, is_allowed_sort, is_allowed_direction,
  is_valid_query, passes, at_least, at_most, like_pattern, where_clause, status_text, has_status,
  listed, Listing, list_cases,
}
use close_control.Review.Listing.Pages.{in_order, total_found, length-slice, valid_size}

-- A query that is refused: a page below the first, a size that is not from 1 to 200, or an order by a
-- column or in a direction that the queue does not have.
abbrev pub Refused : Query → Type 0
Refused q =
    (q.page ≤ℤ pos 0)
    ⊎ ((q.page_size ≤ℤ pos 0)
        ⊎ ((pos 201 ≤ℤ q.page_size)
            ⊎ (((column : String) × (q.sort ≡ SortKey.other column))
                ⊎ ((direction : String) × (q.sort_direction ≡ SortDirection.other direction)))))

sort_cases :
    (key : SortKey)
    → (is_allowed_sort key ≡ true) ⊎ ((column : String) × (key ≡ SortKey.other column))
sort_cases SortKey.amount_at_risk_rupees = inl refl
sort_cases SortKey.agent_confidence = inl refl
sort_cases SortKey.transaction_id = inl refl
sort_cases SortKey.seeded_at = inl refl
sort_cases (SortKey.other column) = inr (column, refl)

direction_cases :
    (direction : SortDirection)
    → (is_allowed_direction direction ≡ true)
      ⊎ ((other : String) × (direction ≡ SortDirection.other other))
direction_cases SortDirection.asc = inl refl
direction_cases SortDirection.desc = inl refl
direction_cases (SortDirection.other other) = inr (other, refl)

invalid-Refused : (q : Query) → is_valid_query q ≡ false → Refused q
invalid-Refused q h = elim (sort_cases q.sort) [
  | inr unknown ↦ inr (inr (inr (inl unknown)))
  | inl known ↦ elim (direction_cases q.sort_direction) [
    | inr unknown ↦ inr (inr (inr (inr unknown)))
    | inl allowed ↦ elim (Bool-cases (leb_ℤ q.page (pos 0))) [
      | inl e ↦ inl (ground (arith, e))
      | inr page ↦ elim (Bool-cases (leb_ℤ q.page_size (pos 0))) [
        | inl e ↦ inr (inl (ground (arith, e)))
        | inr size ↦ inr (inr (inl (ground (arith, h, known, allowed, page, size))))
      ]
    ]
  ]
]

Refused-invalid : (q : Query) → Refused q → is_valid_query q ≡ false
Refused-invalid q (inl e) = ground (arith, e)
Refused-invalid q (inr (inl e)) = ground (arith, e)
Refused-invalid q (inr (inr (inl e))) = ground (arith, e)
Refused-invalid q (inr (inr (inr (inl (column, e))))) = rw e (ground arith)
Refused-invalid q (inr (inr (inr (inr (direction, e))))) = rw e (ground arith)

-- A filter that is absent, or an empty text, asks for nothing.
abbrev pub Asked : (String → Type 0) → Option String → Type 0
Asked P none = Unit
Asked P (some text) = (text ≡ "") ⊎ P text

abbrev pub NotBelow : Option ℤ → ℕ → Type 0
NotBelow none amount = Unit
NotBelow (some least) amount = least ≤ℤ pos amount

abbrev pub NotAbove : Option ℤ → ℕ → Type 0
NotAbove none amount = Unit
NotAbove (some most) amount = pos amount ≤ℤ most

passes-Asked :
    (p : String → Bool) (P : String → Type 0) (filter : Option String)
    → ((text : String) → (p text ≡ true) ↔ P text)
    → (passes p filter ≡ true) ↔ Asked P filter
passes-Asked p P none h = (λ e. tt, λ e. refl)
passes-Asked p P (some text) h = elim (Bool-cases (str_eq text "")) [
  | inl e ↦ (λ _. inl ((eq_iff text "").0 e), λ _. rw e refl)
  | inr e ↦ (
    λ passed. inr ((h text).0 (rw e at passed)),
    λ asked. elim asked [
      | inl empty ↦ cc ((eq_iff text "").1 empty, e)
      | inr wanted ↦ rw e ((h text).1 wanted)
    ],
  )
]

is_some_text-some :
    (text : String) (found : Option String) → (is_some_text text found ≡ true) ↔ (found ≡ some text)
is_some_text-some text none = (λ h. cc, λ h. cc)
is_some_text-some text (some other) =
    (λ h. ap some (sym ((eq_iff text other).0 h)), λ h. (eq_iff text other).1 (cc h))

at_least-NotBelow :
    (least : Option ℤ) (amount : ℕ) → (at_least least amount ≡ true) ↔ NotBelow least amount
at_least-NotBelow none amount = (λ h. tt, λ h. refl)
at_least-NotBelow (some least) amount = (λ h. ground (arith, h), λ h. ground (arith, h))

at_most-NotAbove :
    (most : Option ℤ) (amount : ℕ) → (at_most most amount ≡ true) ↔ NotAbove most amount
at_most-NotAbove none amount = (λ h. tt, λ h. refl)
at_most-NotAbove (some most) amount = (λ h. ground (arith, h), λ h. ground (arith, h))

and_iff :
    {P Q : Type 0} (a b : Bool) → (a ≡ true) ↔ P → (b ≡ true) ↔ Q → ((a && b) ≡ true) ↔ (P × Q)
and_iff true b p q = (λ h. (p.0 refl, q.0 h), λ h. q.1 h.1)
and_iff false b p q = (λ h. cc, λ h. p.1 h.0)

module _ {Hash : Type 0} (db : Database) (ledger : List LedgerRow) (as_of : ℕ)
    (cases : List QueueRow) (reviews : List (Row Hash)) where
  abbrev id_of : QueueRow → String
  id_of row = row.case_row.transaction_id

  -- What a query asks of a case: its exception type, its amount, its id by the pattern of the
  -- database, and the status that its own reviews give it.
  abbrev pub IsWanted : Query → QueueRow → Type 0
  IsWanted q row =
      (Asked (λ type. row.case_row.matcher_exception_type ≡ some type) q.exception_type
        × (NotBelow q.min_amount row.amount_at_risk
            × (NotAbove q.max_amount row.amount_at_risk
                × Asked (λ search. db.ilike (like_pattern search) (id_of row) ≡ true) q.search)))
      × Asked
          (λ text.
            status_text (derive_status row.case_row (get_reviews (id_of row) reviews)) ≡ text)
          q.status

  abbrev wanted : Query → QueueRow → Bool
  wanted q row = where_clause db q row && has_status reviews q.status row

  has_status-Asked :
      (row : QueueRow) (text : String)
      → (str_eq (status_text (status_in reviews row.case_row)) text ≡ true)
        ↔ (status_text (derive_status row.case_row (get_reviews (id_of row) reviews)) ≡ text)
  has_status-Asked row text =
      let same = ap status_text (status_in-derive_status row.case_row reviews) in
      (λ h. sym same ∙ (eq_iff _ text).0 h, λ h. (eq_iff _ text).1 (same ∙ h))

  wanted-IsWanted : (q : Query) (row : QueueRow) → (wanted q row ≡ true) ↔ IsWanted q row
  wanted-IsWanted q row =
      and_iff _ _
        (and_iff _ _
          (passes-Asked _ _ q.exception_type
            (λ type. is_some_text-some type row.case_row.matcher_exception_type))
          (and_iff _ _ (at_least-NotBelow q.min_amount row.amount_at_risk) (
            and_iff _ _ (at_most-NotAbove q.max_amount row.amount_at_risk)
              (passes-Asked _ _ q.search (λ search. (λ h. h, λ h. h))))))
        (passes-Asked _ _ q.status (has_status-Asked row))

  -- The total counts the cases that are wanted, and the page has no more than 200 of them.
  pub record Found (q : Query) (total items : ℕ) : Type 0 where
    chosen : QueueRow → Bool
    is_wanted : (row : QueueRow) → (chosen row ≡ true) ↔ IsWanted q row
    counted : total ≡ length (keep chosen cases)
    few : items ≤ 200
    within : items ≤ total

  abbrev pub IsAnswer : Query → Listing → Type 0
  IsAnswer q (Listing.http_error code) = (code ≡ 400) × Refused q
  IsAnswer q (Listing.page_of p) = (¬ Refused q) × Found q p.total (length p.items)

  -- A query is answered with 400 exactly if its page is below the first, its size is not from 1 to
  -- 200, or it orders by an unknown column or direction. Otherwise the total is the number of the
  -- cases with the exception type, the least and the greatest amount, the search and the status that
  -- it asks for, and the page has no more than 200 of them.
  pub list_cases-IsAnswer : (q : Query) → IsAnswer q (list_cases db ledger as_of cases reviews q)
  unfolding list_cases
  list_cases-IsAnswer q = elim (Bool-cases (is_valid_query q)) [
    | inl e ↦
        let found =
          listed ledger as_of reviews q.status (in_order db ledger as_of cases reviews q) in
        let (few, within) = length-slice q.page q.page_size found (valid_size q e) in
        rw (e, IsAnswer)
          (
            λ refused. cc (Refused-invalid q refused, e),
            record {
              chosen = wanted q;
              is_wanted = wanted-IsWanted q;
              counted = total_found db ledger as_of cases reviews q;
              few = few;
              within = within;
            },
          )
    | inr e ↦ rw (e, IsAnswer) (refl, invalid-Refused q e)
  ]
