-- ===== src/Review/Store/Corrected.antt =====
-- What `submit_review` of review_backend/main.py appends to the correction log.
use close_control.Base.{
  String, ◌≡◌, refl, inl, inr, Option, none, some, List, [], ◌∷◌, ◌++◌, ◌&&◌, length, Bool-cases,
  if◌then◌else◌,
}
use close_control.Review.{Status, Transition}
use close_control.Review.Submission.{ReviewSubmission, is_valid_submission}
use close_control.Review.Chain.{Digest}
use close_control.Review.Cases.{CaseRow, find_case, get_reviews, derive_status}
use close_control.Review.Store.{
  Outside, Response, Db, Correction, has_moved, is_stale, is_override, correction, commit_review,
  commit_if, review_case, review_found, submit_review, post_review,
}

-- The entry that an override of the case is recorded with.
unfoldable pub entry_of : Outside → String → CaseRow → ReviewSubmission → Correction
unfolding correction
entry_of o id c s = correction o id c s

module _ (d : Digest) where
  open d use {Hash}

  abbrev pub logged :
      Outside → String → CaseRow → ReviewSubmission → List Correction → List Correction
  logged o id c s log =
      if is_override s.decision && o.log_writable then log ++ entry_of o id c s ∷ [] else log

  -- A call that answers with an error logs nothing; any other logs an override, where it can.
  abbrev pub Logs : Outside → String → ReviewSubmission → Db Hash → Response × Db Hash → Type 0
  Logs o id s db (Response.http_error code, db') = db'.corrections ≡ db.corrections
  Logs o id s db (Response.accepted a, db') =
      (c : CaseRow) × ((find_case id db.cases ≡ some c)
        × (db'.corrections ≡ logged o id c s db.corrections))

  commit_if-Logs :
      (t : Transition) (o : Outside) (id : String) (c : CaseRow) (s : ReviewSubmission)
      (current : Status) (db : Db Hash)
      → find_case id db.cases ≡ some c
      → Logs o id s db (commit_if d t o id c s current db)
  unfolding commit_if commit_review correction entry_of
  commit_if-Logs (Transition.refused e) o id c s current db f = refl
  commit_if-Logs (Transition.to new_status) o id c s current db f = (c, (f, refl))

  review_found-Logs :
      (found : Option CaseRow) (o : Outside) (id : String) (s : ReviewSubmission) (db : Db Hash)
      → find_case id db.cases ≡ found
      → Logs o id s db (review_found d found o id s db)
  unfolding review_found review_case
  review_found-Logs none o id s db f = refl
  review_found-Logs (some c) o id s db f =
      let reviews = get_reviews id db.reviews in
      elim (Bool-cases (has_moved s.expected_review_count (length reviews))) [
        | inl moved ↦ rw (moved, Logs) refl
        | inr same ↦ elim (Bool-cases (is_override s.decision && is_stale c s)) [
          | inl stale ↦ rw (same, stale, Logs) refl
          | inr fits ↦
              rw (same, fits, Logs) (commit_if-Logs _ o id c s (derive_status c reviews) db f)
        ]
      ]

  pub post_review-Logs :
      (o : Outside) (id : String) (s : ReviewSubmission) (db : Db Hash)
      → Logs o id s db (post_review d o id s db)
  unfolding post_review submit_review
  post_review-Logs o id s db = elim (Bool-cases (is_valid_submission s)) [
    | inl e ↦ rw (e, Logs) (review_found-Logs _ o id s db refl)
    | inr e ↦ rw (e, Logs) refl
  ]
