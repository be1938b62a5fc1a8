-- ===== src/Review/Cases.antt =====
-- review_backend/main.py: the rows of `cases`, and what the handlers read off the reviews of a
-- case: its status, and the analyst whose approval awaits a manager.
pub mod History
pub mod FourEyes
use mathlib.Core.List.{reverse}
use close_control.Base.{
  ℕ, String, Option, none, some, List, [], ◌∷◌, Bool, true, false, str_eq, if◌then◌else◌, get_last?,
  keep,
}
use close_control.Review.{Status, Decision, Role}
use close_control.Review.Chain.{Row}
use close_control.Review.Submission.{OverrideField, is_truthy}

-- The columns of `cases` that the handlers read; `column` holds the overridable ones.
pub record CaseRow : Type 0 where
  pub transaction_id : String
  pub required_approval_tier : ℕ
  pub matcher_exception_type : Option String
  pub investigation_gate_decision : Option String
  pub gate_final_decision : Option String
  pub column : OverrideField → Option String

abbrev pub or_else : Option String → Option String → Option String
or_else first second = if is_truthy first then first else second

abbrev initial_status : Option String → Status
initial_status none = Status.pending
initial_status (some decision) =
    if str_eq decision "auto_resolve" then Status.auto_resolved else Status.pending

unfoldable pub derive_status_from_latest : CaseRow → Option Status → Status
derive_status_from_latest case_row (some status) = status
derive_status_from_latest case_row none =
    initial_status (or_else case_row.investigation_gate_decision case_row.gate_final_decision)

-- _get_case_row
unfoldable pub find_case : String → List CaseRow → Option CaseRow
find_case id [] = none
find_case id (c ∷ cs) = if str_eq c.transaction_id id then some c else find_case id cs

abbrev pub is_of : {Hash : Type 0} → String → Row Hash → Bool
is_of id row = str_eq row.1.transaction_id id

-- _get_reviews: the rows of one case, in the order of their ids.
unfoldable pub get_reviews : {Hash : Type 0} → String → List (Row Hash) → List (Row Hash)
get_reviews id = keep (is_of id)

abbrev pub resulting : {Hash : Type 0} → Option (Row Hash) → Option Status
resulting none = none
resulting (some row) = some row.1.resulting_status

-- _derive_status
unfoldable pub derive_status : {Hash : Type 0} → CaseRow → List (Row Hash) → Status
unfolding derive_status_from_latest
derive_status case_row reviews = derive_status_from_latest case_row (resulting (get_last? reviews))

abbrev is_half_approval : Decision → Role → Status → Bool
is_half_approval Decision.approved Role.analyst Status.pending_manager_approval = true
is_half_approval _ _ _ = false

first_analyst : {Hash : Type 0} → List (Row Hash) → Option String
first_analyst [] = none
first_analyst ((id, f, h) ∷ rows) =
    if is_half_approval f.decision f.reviewer_role f.resulting_status
    then some f.reviewer_name
    else first_analyst rows

-- _prior_analyst_reviewer: the loop over the reversed reviews.
unfoldable pub prior_analyst_reviewer : {Hash : Type 0} → List (Row Hash) → Option String
unfolding first_analyst
prior_analyst_reviewer reviews = first_analyst (reverse reviews)
