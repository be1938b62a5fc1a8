-- ===== src/Review/Listing/Pages.antt =====
-- The pages of the queue in review_backend/main.py: together they are the cases that the filters let
-- through, each once and in the order of the query.
use native.Mathlib.Nat.{zero-mul, suc-mul}
use close_control.Base.{
  ◌≡◌, refl, sym, ap, ◌∙◌, ℕ, zero, suc, ◌*◌, ◌≤◌, String, Option, List, [], ◌∷◌, ◌++◌, map, Bool,
  true, ◌&&◌, arith, leb→le, length, keep, take, drop, take-add, take-all, Bool-cases, inl, inr,
  if◌then◌else◌,
}
use close_control.Base.Int.{ℤ, pos, negsuc, leb_ℤ}
use close_control.Matching.LedgerCheck.{LedgerRow}
use close_control.Review.Chain.{Row}
use close_control.Review.Listing.{
  QueueRow, Query, Database, is_valid_query, where_clause, Item, item_of, has_status, listed,
  Listing, slice, list_cases,
}

abbrev pub on_page : Query → ℕ → Query
on_page q k = record q { page = pos (suc k) }

on_page-valid :
    (q : Query) (k : ℕ) → is_valid_query (on_page q 0) ≡ true → is_valid_query (on_page q k) ≡ true
on_page-valid q k h = ground (arith, h)

-- `items`, and nothing for an error.
abbrev pub items_of : Listing → List Item
items_of (Listing.http_error code) = []
items_of (Listing.page_of p) = p.items

length-take :
    {A : Type 0} (n : ℕ) (xs : List A) → (length (take n xs) ≤ n) × (length (take n xs) ≤ length xs)
length-take zero xs = (omega arith, omega arith)
length-take (suc n) [] = (omega arith, omega arith)
length-take (suc n) (x ∷ xs) = let (a, b) = length-take n xs in (omega arith, omega arith)

length-drop : {A : Type 0} (n : ℕ) (xs : List A) → length (drop n xs) ≤ length xs
length-drop zero xs = omega arith
length-drop (suc n) [] = omega arith
length-drop (suc n) (x ∷ xs) = omega (arith, length-drop n xs)

pub length-slice :
    {A : Type 0} (page size : ℤ) (xs : List A)
    → leb_ℤ size (pos 200) ≡ true
    → (length (slice page size xs) ≤ 200) × (length (slice page size xs) ≤ length xs)
length-slice (negsuc k) size xs h = (omega arith, omega arith)
length-slice (pos zero) size xs h = (omega arith, omega arith)
length-slice (pos (suc k)) (negsuc n) xs h = (omega arith, omega arith)
length-slice (pos (suc k)) (pos n) xs h =
    let (a, b) = length-take n (drop (k * n) xs) in
    let c = length-drop (k * n) xs in let small = leb→le _ _ h in (omega arith, omega arith)

pub valid_size : (q : Query) → is_valid_query q ≡ true → leb_ℤ q.page_size (pos 200) ≡ true
valid_size q h = ground (arith, h)

module _ {Hash : Type 0} (db : Database) (ledger : List LedgerRow) (as_of : ℕ)
    (cases : List QueueRow) (reviews : List (Row Hash)) where
  abbrev pub items_on : Query → ℕ → List Item
  items_on q k = items_of (list_cases db ledger as_of cases reviews (on_page q k))

  -- The items of the first n pages, one page after the other.
  abbrev pub first_pages : Query → ℕ → List Item
  first_pages q zero = []
  first_pages q (suc n) = first_pages q n ++ items_on q n

  abbrev pub in_order : Query → List QueueRow
  in_order q = db.order_by q.sort q.sort_direction (keep (where_clause db q) cases)

  -- What the queue shows of the query, without its pages.
  abbrev pub shown : Query → List Item
  shown q = map (item_of ledger as_of reviews) (keep (has_status reviews q.status) (in_order q))

  listed-keep :
      (status : Option String) (rows : List QueueRow)
      → listed ledger as_of reviews status rows
        ≡ map (item_of ledger as_of reviews) (keep (has_status reviews status) rows)
  unfolding listed
  listed-keep status [] = refl
  listed-keep status (row ∷ rows) = elim (Bool-cases (has_status reviews status row)) [
    | inl e ↦
        rw (e, keep)
          (ap (λ rest. item_of ledger as_of reviews row ∷ rest) (listed-keep status rows))
    | inr e ↦ rw (e, keep) (listed-keep status rows)
  ]

  items_on-slice :
      (q : Query) (k : ℕ)
      → is_valid_query (on_page q 0) ≡ true
      → items_on q k ≡ slice (pos (suc k)) q.page_size (shown q)
  unfolding list_cases
  items_on-slice q k h =
      rw (on_page-valid q k h)
        (ap (slice (pos (suc k)) q.page_size) (listed-keep q.status (in_order q)))

  first_pages-take :
      (q : Query) (size n : ℕ)
      → is_valid_query (on_page q 0) ≡ true
      → q.page_size ≡ pos size
      → first_pages q n ≡ take (n * size) (shown q)
  first_pages-take q size zero valid e = rw zero-mul refl
  first_pages-take q size (suc n) valid e =
      ap (λ before. before ++ items_on q n) (first_pages-take q size n valid e)
      ∙ (ap (λ page. take (n * size) (shown q) ++ page)
            (items_on-slice q n valid ∙ ap (λ s. slice (pos (suc n)) s (shown q)) e)
          ∙ (sym (take-add (n * size) size (shown q))
              ∙ ap (λ count. take count (shown q)) (sym (suc-mul n size))))

  -- For a query that is not refused, its first pages joined are the cases that its filters let
  -- through, each once and in its order, as soon as they have room for them.
  pub list_cases-pages :
      (q : Query) (size n : ℕ)
      → is_valid_query (on_page q 0) ≡ true
      → q.page_size ≡ pos size
      → length (shown q) ≤ n * size
      → first_pages q n ≡ shown q
  list_cases-pages q size n valid e enough =
      first_pages-take q size n valid e ∙ take-all (n * size) (shown q) enough

  keep-keep :
      (p r : QueueRow → Bool) (rows : List QueueRow)
      → keep p (keep r rows) ≡ keep (λ row. r row && p row) rows
  keep-keep p r [] = refl
  keep-keep p r (row ∷ rows) = elim (Bool-cases (r row)) [
    | inl e ↦ rw (e, keep) (ap (λ rest. if p row then row ∷ rest else rest) (keep-keep p r rows))
    | inr e ↦ rw (e, keep) (keep-keep p r rows)
  ]

  length-map :
      (rows : List QueueRow) → length (map (item_of ledger as_of reviews) rows) ≡ length rows
  length-map [] = refl
  length-map (row ∷ rows) = ap suc (length-map rows)

  pub total_found :
      (q : Query)
      → length (listed ledger as_of reviews q.status (in_order q))
        ≡ length (keep (λ row. where_clause db q row && has_status reviews q.status row) cases)
  total_found q =
      ap length (listed-keep q.status (in_order q))
      ∙ (length-map (keep (has_status reviews q.status) (in_order q))
          ∙ (db.order_by_keeps q.sort q.sort_direction (has_status reviews q.status)
                (keep (where_clause db q) cases)
              ∙ ap length (keep-keep (has_status reviews q.status) (where_clause db q) cases)))
