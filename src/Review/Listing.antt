-- ===== src/Review/Listing.antt =====
-- review_backend/main.py, GET /api/cases: the filters, the order and the pages of the queue. The
-- order and the matching of a pattern are the database's: parameters. The columns that are only
-- passed on are left out.
pub mod Pages
pub mod Answer
use close_control.Base.{
  ◌≡◌, ℕ, suc, ◌+◌, ◌-◌, ◌*◌, String, Option, none, some, List, [], ◌∷◌, ◌++◌, map, Bool, true,
  false, not, ◌&&◌, ◌||◌, ◌==◌, leb, str_eq, length, keep, take, drop, codes, if◌then◌else◌,
  is_some_text,
}
use close_control.Base.Int.{ℤ, pos, leb_ℤ, ltb_ℤ}
use close_control.Matching.LedgerCheck.{LedgerRow}
use close_control.Review.{Status, is_open}
use close_control.Review.Chain.{Row}
use close_control.Review.Submission.{is_truthy}
use close_control.Review.Cases.{CaseRow}
use close_control.Review.Reverify.{status_in}
use close_control.Review.Sla.{Sla, sla_for_case}

-- A row of `cases` with the columns of the listing.
pub record QueueRow : Type 0 where
  pub case_row : CaseRow
  pub amount_at_risk : ℕ

pub data SortKey : Type 0 where
  amount_at_risk_rupees agent_confidence transaction_id seeded_at : SortKey
  other : String → SortKey

pub data SortDirection : Type 0 where
  asc desc : SortDirection
  other : String → SortDirection

pub record Query : Type 0 where
  pub exception_type : Option String
  pub status : Option String
  pub min_amount : Option ℤ
  pub max_amount : Option ℤ
  pub search : Option String
  pub sort : SortKey
  pub sort_direction : SortDirection
  pub page : ℤ
  pub page_size : ℤ

-- ILIKE with its pattern, and ORDER BY with the transaction id as its last key, which loses no row.
pub record Database : Type 0 where
  pub ilike : List ℕ → String → Bool
  pub order_by : SortKey → SortDirection → List QueueRow → List QueueRow
  pub order_by_keeps :
      (key : SortKey) (direction : SortDirection) (p : QueueRow → Bool) (rows : List QueueRow)
      → length (keep p (order_by key direction rows)) ≡ length (keep p rows)

abbrev is_allowed_sort : SortKey → Bool
is_allowed_sort (SortKey.other _) = false
is_allowed_sort _ = true

abbrev is_allowed_direction : SortDirection → Bool
is_allowed_direction (SortDirection.other _) = false
is_allowed_direction _ = true

-- The four guards, each of which answers 400.
abbrev pub is_valid_query : Query → Bool
is_valid_query q =
    not (ltb_ℤ q.page (pos 1))
    && ((leb_ℤ (pos 1) q.page_size && leb_ℤ q.page_size (pos 200))
        && (is_allowed_sort q.sort && is_allowed_direction q.sort_direction))

-- The wildcards of LIKE, each escaped.
abbrev escape : List ℕ → List ℕ
escape [] = []
escape (c ∷ cs) =
    let rest = escape cs in
    if (c == b'\\' || (c == b'%' || c == b'_')) then b'\\' ∷ c ∷ rest else c ∷ rest

abbrev pub like_pattern : String → List ℕ
like_pattern search = b'%' ∷ escape (codes search) ++ b'%' ∷ []

-- A filter that is absent, or an empty text, lets every row through.
abbrev passes : (String → Bool) → Option String → Bool
passes p none = true
passes p (some text) = if is_truthy (some text) then p text else true

abbrev at_least : Option ℤ → ℕ → Bool
at_least none amount = true
at_least (some least) amount = leb_ℤ least (pos amount)

abbrev at_most : Option ℤ → ℕ → Bool
at_most none amount = true
at_most (some most) amount = leb_ℤ (pos amount) most

-- The WHERE clause.
abbrev pub where_clause : Database → Query → QueueRow → Bool
where_clause db q row =
    passes (λ type. is_some_text type row.case_row.matcher_exception_type) q.exception_type
    && (at_least q.min_amount row.amount_at_risk
        && (at_most q.max_amount row.amount_at_risk
            && passes (λ search. db.ilike (like_pattern search) row.case_row.transaction_id)
                q.search))

abbrev pub status_text : Status → String
status_text Status.auto_resolved = "auto_resolved"
status_text Status.pending = "pending"
status_text Status.pending_manager_approval = "pending_manager_approval"
status_text Status.approved = "approved"
status_text Status.overridden = "overridden"
status_text Status.escalated = "escalated"
status_text Status.auto_closed = "auto_closed"
status_text (Status.other text) = text

pub record Item : Type 0 where
  pub transaction_id : String
  pub matcher_exception_type : Option String
  pub amount_at_risk : ℕ
  pub required_approval_tier : ℕ
  pub status : Status
  pub sla_days_overdue : ℕ
  pub sla_breached : Bool

abbrev no_sla : Sla
no_sla = record { deadline = none; days_overdue = 0; breached = false; compensation_accrued = 0 }

-- The deadline counts only for a case that still awaits a person.
abbrev pub sla_of : List LedgerRow → ℕ → String → Status → Sla
sla_of ledger as_of id status = if is_open status then sla_for_case ledger id as_of else no_sla

abbrev pub item_of : {Hash : Type 0} → List LedgerRow → ℕ → List (Row Hash) → QueueRow → Item
item_of ledger as_of reviews row =
    let status = status_in reviews row.case_row in
    let sla = sla_of ledger as_of row.case_row.transaction_id status in
    record {
      transaction_id = row.case_row.transaction_id;
      matcher_exception_type = row.case_row.matcher_exception_type;
      amount_at_risk = row.amount_at_risk;
      required_approval_tier = row.case_row.required_approval_tier;
      status = status;
      sla_days_overdue = sla.days_overdue;
      sla_breached = sla.breached;
    }

abbrev pub has_status : {Hash : Type 0} → List (Row Hash) → Option String → QueueRow → Bool
has_status reviews status row =
    passes (λ text. str_eq (status_text (status_in reviews row.case_row)) text) status

-- The loop over the rows of the query, with its `continue`.
unfoldable pub listed :
    {Hash : Type 0}
    → List LedgerRow
    → ℕ
    → List (Row Hash)
    → Option String
    → List QueueRow
    → List Item
unfolding status_in sla_for_case
listed ledger as_of reviews status [] = []
listed ledger as_of reviews status (row ∷ rows) =
    let rest = listed ledger as_of reviews status rows in
    if has_status reviews status row then item_of ledger as_of reviews row ∷ rest else rest

pub record Page : Type 0 where
  pub items : List Item
  pub total : ℕ
  pub page : ℤ
  pub page_size : ℤ

pub data Listing : Type 0 where
  http_error : ℕ → Listing
  page_of : Page → Listing

-- `cases[start:start + page_size]`, for a page and a size of one at least: the guards refuse the
-- others before the slice is taken.
abbrev pub slice : {A : Type 0} → ℤ → ℤ → List A → List A
slice (pos (suc page)) (pos size) xs = take size (drop (page * size) xs)
slice _ _ xs = []

-- list_cases(...), with the query's date for the deadlines.
unfoldable pub list_cases :
    {Hash : Type 0}
    → Database
    → List LedgerRow
    → ℕ
    → List QueueRow
    → List (Row Hash)
    → Query
    → Listing
unfolding listed
list_cases db ledger as_of cases reviews q =
    let rows = db.order_by q.sort q.sort_direction (keep (where_clause db q) cases) in
    let found = listed ledger as_of reviews q.status rows in
    if is_valid_query q
    then Listing.page_of (record {
      items = slice q.page q.page_size found;
      total = length found;
      page = q.page;
      page_size = q.page_size;
    })
    else Listing.http_error 400
