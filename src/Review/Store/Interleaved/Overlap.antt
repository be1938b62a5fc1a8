-- ===== src/Review/Store/Interleaved/Overlap.antt =====
-- Overlapping calls of `submit_review` of review_backend/main.py as steps of one system, and what may
-- and may not come of them.
use mathlib.Core.Path.{subst}
use close_control.Base.{
  ◌≡◌, refl, sym, ap, ◌∙◌, String, Option, none, some, List, [], ◌∷◌, ◌++◌, true,
}
use close_control.Review.Cases.{CaseRow, find_case, get_reviews}
use close_control.Review.Chain.{Digest, Fields, Row, append_row, intact, verify_chain}
use close_control.Review.Chain.Audit.{append_row-intact}
use close_control.Review.Submission.{ReviewSubmission}
use close_control.Review.Store.{Outside, Db, review_fields, commit_review}
use close_control.Review.Store.Interleaved.{
  Pending, Decided, decide, commit, StartsFrom, decide-StartsFrom,
}

-- What a call that has decided adds to those that wait for the lock.
abbrev waiting : Decided → List Pending → List Pending
waiting (Decided.refuses code) pending = pending
waiting (Decided.decides p) pending = p ∷ pending

-- The fields that a waiting call inserts.
pub pending_fields : Pending → Fields
unfolding review_fields
pending_fields p =
    review_fields p.outside p.transaction_id p.submission p.current_status p.new_status

module _ (d : Digest) where
  open d use {Hash}

  -- The tables, and the calls that wait for the lock.
  abbrev pub System : Type 0
  System = Db Hash × List Pending

  -- A call decides, or one that waits commits.
  infix 45 ◌⇒◌
  pub data ◌⇒◌ : System → System → Type 0 where
    reads :
        {db : Db Hash} {pending : List Pending} (o : Outside) (id : String) (s : ReviewSubmission)
        → (db, pending) ⇒ (db, waiting (decide d o id s db) pending)
    commits :
        {db : Db Hash} (before after : List Pending) (p : Pending)
        → (db, before ++ p ∷ after) ⇒ ((commit d p db).1, before ++ after)

  -- Any schedule of the calls.
  infix 45 ◌⇒*◌
  pub data ◌⇒*◌ : System → System → Type 0 where
    done : {a : System} → a ⇒* a
    step : {a b c : System} → a ⇒ b → b ⇒* c → a ⇒* c

  commit-reviews :
      (p : Pending) (db : Db Hash)
      → (commit d p db).1.reviews ≡ append_row d p.outside.row_id (pending_fields p) db.reviews
  unfolding commit commit_review pending_fields
  commit-reviews p db = refl

  step-intact :
      {a b : System}
      → a ⇒ b
      → intact (verify_chain d a.0.reviews) ≡ true
      → intact (verify_chain d b.0.reviews) ≡ true
  step-intact (reads o id s) h = h
  step-intact {a} {b} (commits {db} before after p) h =
      subst (λ rows. intact (verify_chain d rows) ≡ true) (sym (commit-reviews p db))
        (append_row-intact d db.reviews p.outside.row_id (pending_fields p) h)

  -- No schedule of overlapping calls breaks an intact audit chain.
  pub schedule-intact :
      {a b : System}
      → a ⇒* b
      → intact (verify_chain d a.0.reviews) ≡ true
      → intact (verify_chain d b.0.reviews) ≡ true
  schedule-intact done h = h
  schedule-intact (step s rest) h = schedule-intact rest (step-intact s h)

  same_start :
      (found : Option CaseRow) (reviews : List (Row Hash)) (p p' : Pending)
      → StartsFrom d found reviews (Decided.decides p)
      → StartsFrom d found reviews (Decided.decides p')
      → p'.current_status ≡ p.current_status
  same_start none reviews p p' h h' = absurd h
  same_start (some c) reviews p p' h h' = h' ∙ sym h

  -- Two calls on one case that have decided on the same tables can both commit: the second review
  -- then stands in the chain after the first, and has the status before the first as its previous one.
  pub overlapping_calls_both_commit :
      (db : Db Hash) (o o' : Outside) (id : String) (s s' : ReviewSubmission) (p p' : Pending)
      → decide d o id s db ≡ Decided.decides p
      → decide d o' id s' db ≡ Decided.decides p'
      → (after : Db Hash) × (((db, []) ⇒* (after, []))
          × ((after.reviews
                ≡ append_row d p'.outside.row_id
                    (pending_fields p')
                    (append_row d p.outside.row_id (pending_fields p) db.reviews))
              × ((pending_fields p').previous_status ≡ (pending_fields p).previous_status)))
  unfolding pending_fields
  overlapping_calls_both_commit db o o' id s s' p p' first second =
      let one : System = (db, p ∷ []) in
      let two : System = (db, p' ∷ p ∷ []) in
      let committed = (commit d p db).1 in
      let read_first : (db, []) ⇒ one =
        subst (λ r. (db, []) ⇒ (db, waiting r [])) first (reads o id s) in
      let read_second : one ⇒ two =
        subst (λ r. one ⇒ (db, waiting r (p ∷ []))) second (reads o' id s') in
      let found = find_case id db.cases in
      let start =
        subst (StartsFrom d found (get_reviews id db.reviews)) first
          (decide-StartsFrom d o id s db) in
      let start' =
        subst (StartsFrom d found (get_reviews id db.reviews)) second
          (decide-StartsFrom d o' id s' db) in
      (
        (commit d p' committed).1,
        (
          step read_first
              (step read_second (step (commits (p' ∷ []) [] p) (step (commits [] [] p') done))),
          (
            commit-reviews p' committed
                ∙ ap (append_row d p'.outside.row_id (pending_fields p')) (commit-reviews p db),
            same_start found (get_reviews id db.reviews) p p' start start',
          ),
        ),
      )
