-- ===== src/Review/Store/Interleaved.antt =====
-- Calls of `submit_review` of review_backend/main.py that overlap. A call first reads the case and its
-- reviews and decides; then, under the advisory lock that `next_chain_hash` takes, it reads the end
-- of the chain, inserts and commits. Between the two, other calls may commit.
pub mod Overlap
use close_control.Base.{
  ◌≡◌, refl, sym, ap, ◌∙◌, ℕ, String, Option, none, some, List, [], ◌∷◌, ◌++◌, Bool, true, false,
  ◌&&◌, length, Bool-cases, inl, inr, if◌then◌else◌,
}
use close_control.Review.{Status, Transition, http_status, next_status}
use close_control.Review.Chain.{Digest, Row, Fields, append_row, intact, verify_chain}
use close_control.Review.Chain.Audit.{append_row-intact}
use close_control.Review.Submission.{ReviewSubmission}
use close_control.Review.Cases.{
  CaseRow, find_case, get_reviews, derive_status, prior_analyst_reviewer,
}
use close_control.Review.Store.{
  Outside, Response, Db, has_moved, is_override, is_stale, review_fields, commit_if, commit_review,
  review_case, review_found, submit_review,
}

-- A call that has decided and not yet inserted.
pub record Pending : Type 0 where
  pub outside : Outside
  pub transaction_id : String
  pub case_row : CaseRow
  pub submission : ReviewSubmission
  pub current_status : Status
  pub new_status : Status

pub data Decided : Type 0 where
  refuses : ℕ → Decided
  decides : Pending → Decided

decide_if : Transition → Outside → String → CaseRow → ReviewSubmission → Status → Decided
decide_if (Transition.refused e) o id c s current = Decided.refuses (http_status e)
decide_if (Transition.to new_status) o id c s current = Decided.decides (record {
  outside = o;
  transaction_id = id;
  case_row = c;
  submission = s;
  current_status = current;
  new_status = new_status;
})

module _ (d : Digest) where
  open d use {Hash}

  decide_case : Outside → String → CaseRow → ReviewSubmission → Db Hash → Decided
  unfolding decide_if
  decide_case o id c s db =
      let reviews = get_reviews id db.reviews in
      let current = derive_status c reviews in
      if has_moved s.expected_review_count (length reviews)
      then Decided.refuses 409
      else if is_override s.decision && is_stale c s
      then Decided.refuses 422
      else decide_if
          (next_status current c.required_approval_tier s.decision s.reviewer_role s.reviewer_name
            (prior_analyst_reviewer reviews))
          o id c s current

  decide_found : Option CaseRow → Outside → String → ReviewSubmission → Db Hash → Decided
  unfolding decide_case
  decide_found none o id s db = Decided.refuses 404
  decide_found (some c) o id s db = decide_case o id c s db

  -- The part of `submit_review` before the lock.
  unfoldable pub decide : Outside → String → ReviewSubmission → Db Hash → Decided
  unfolding decide_found
  decide o id s db = decide_found (find_case id db.cases) o id s db

  -- The part under the lock.
  unfoldable pub commit : Pending → Db Hash → Response × Db Hash
  unfolding commit_review
  commit p db =
      commit_review d p.outside p.transaction_id p.case_row p.submission p.current_status
        p.new_status db

  unfoldable pub finish : Decided → Db Hash → Response × Db Hash
  unfolding commit
  finish (Decided.refuses code) db = (Response.http_error code, db)
  finish (Decided.decides p) db = commit p db

  finish-commit_if :
      (t : Transition) (o : Outside) (id : String) (c : CaseRow) (s : ReviewSubmission)
      (current : Status) (db : Db Hash)
      → commit_if d t o id c s current db ≡ finish (decide_if t o id c s current) db
  unfolding finish commit commit_if decide_if
  finish-commit_if (Transition.refused e) o id c s current db = refl
  finish-commit_if (Transition.to new_status) o id c s current db = refl

  finish-review_case :
      (o : Outside) (id : String) (c : CaseRow) (s : ReviewSubmission) (db : Db Hash)
      → review_case d o id c s db ≡ finish (decide_case o id c s db) db
  unfolding finish review_case decide_case
  finish-review_case o id c s db =
      elim (Bool-cases (has_moved s.expected_review_count (length (get_reviews id db.reviews)))) [
        | inl moved ↦ simp moved refl
        | inr same ↦ elim (Bool-cases (is_override s.decision && is_stale c s)) [
          | inl stale ↦ simp (same, stale) refl
          | inr fits ↦ simp (same, fits) (finish-commit_if _ o id c s _ db)
        ]
      ]

  finish-review_found :
      (found : Option CaseRow) (o : Outside) (id : String) (s : ReviewSubmission) (db : Db Hash)
      → review_found d found o id s db ≡ finish (decide_found found o id s db) db
  unfolding finish review_found decide_found
  finish-review_found none o id s db = refl
  finish-review_found (some c) o id s db = finish-review_case o id c s db

  -- A call that nothing overlaps is the two parts one after the other.
  pub submit_review-finish :
      (o : Outside) (id : String) (s : ReviewSubmission) (db : Db Hash)
      → submit_review d o id s db ≡ finish (decide o id s db) db
  unfolding submit_review decide
  submit_review-finish o id s db = finish-review_found (find_case id db.cases) o id s db

  -- A decision starts from the status that the reviews of the case give.
  abbrev pub StartsFrom : Option CaseRow → List (Row Hash) → Decided → Type 0
  StartsFrom found reviews (Decided.refuses code) = Unit
  StartsFrom none reviews (Decided.decides p) = ⊥
  StartsFrom (some c) reviews (Decided.decides p) = p.current_status ≡ derive_status c reviews

  decide_if-StartsFrom :
      (t : Transition) (o : Outside) (id : String) (c : CaseRow) (s : ReviewSubmission)
      (reviews : List (Row Hash))
      → StartsFrom (some c) reviews (decide_if t o id c s (derive_status c reviews))
  unfolding decide_if
  decide_if-StartsFrom (Transition.refused e) o id c s reviews = tt
  decide_if-StartsFrom (Transition.to new_status) o id c s reviews = refl

  decide_case-StartsFrom :
      (o : Outside) (id : String) (c : CaseRow) (s : ReviewSubmission) (db : Db Hash)
      → StartsFrom (some c) (get_reviews id db.reviews) (decide_case o id c s db)
  unfolding decide_case
  decide_case-StartsFrom o id c s db =
      elim (Bool-cases (has_moved s.expected_review_count (length (get_reviews id db.reviews)))) [
        | inl moved ↦ rw (moved, StartsFrom) tt
        | inr same ↦ elim (Bool-cases (is_override s.decision && is_stale c s)) [
          | inl stale ↦ rw (same, stale, StartsFrom) tt
          | inr fits ↦
              rw (same, fits, StartsFrom)
                (decide_if-StartsFrom _ o id c s (get_reviews id db.reviews))
        ]
      ]

  decide_found-StartsFrom :
      (found : Option CaseRow) (o : Outside) (id : String) (s : ReviewSubmission) (db : Db Hash)
      → StartsFrom found (get_reviews id db.reviews) (decide_found found o id s db)
  unfolding decide_found
  decide_found-StartsFrom none o id s db = tt
  decide_found-StartsFrom (some c) o id s db = decide_case-StartsFrom o id c s db

  pub decide-StartsFrom :
      (o : Outside) (id : String) (s : ReviewSubmission) (db : Db Hash)
      → StartsFrom (find_case id db.cases) (get_reviews id db.reviews) (decide o id s db)
  unfolding decide
  decide-StartsFrom o id s db = decide_found-StartsFrom (find_case id db.cases) o id s db
