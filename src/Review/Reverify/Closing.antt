-- ===== src/Review/Reverify/Closing.antt =====
-- The second pass of a re-verification of review_backend/main.py closes what the first has found, if
-- nobody reviews in between.
use mathlib.Core.Path.{subst}
use mathlib.Core.List.{append-nil}
use close_control.Base.{
  ◌≡◌, refl, sym, ap, ◌∙◌, ℕ, String, Option, some, List, [], ◌∷◌, ◌++◌, true, false, ◌||◌, ◌==◌,
  arith, length, map, contains, All, str_eq, eq_iff, keep-append,
}
use close_control.Review.{Status, Decision, Role, Transition, is_open, next_status}
use close_control.Review.Chain.{Digest, Row, append_row}
use close_control.Review.Cases.{
  CaseRow, find_case, get_reviews, derive_status, is_of, prior_analyst_reviewer,
}
use close_control.Review.Cases.History.{derive_status-concat}
use close_control.Review.Submission.{ReviewSubmission}
use close_control.Review.Store.{Outside, Db}
use close_control.Review.Store.Accepts.{Commits, submit_review-Commits}
use close_control.Review.Reverify.{Candidate, closing}

-- The automatic closing of an open case of tier 1 or 2.
close_open :
    (current : Status) (tier : ℕ) (name : String) (prior : Option String)
    → is_open current ≡ true
    → (tier == 1 || tier == 2) ≡ true
    → next_status current tier Decision.auto_closed Role.analyst name prior
      ≡ Transition.to Status.auto_closed
unfolding next_status
close_open Status.auto_resolved tier name prior h t = absurd (ground (arith, h))
close_open Status.pending tier name prior h t = simp t refl
close_open Status.pending_manager_approval tier name prior h t = simp t refl
close_open Status.approved tier name prior h t = absurd (ground (arith, h))
close_open Status.overridden tier name prior h t = absurd (ground (arith, h))
close_open Status.escalated tier name prior h t = absurd (ground (arith, h))
close_open Status.auto_closed tier name prior h t = absurd (ground (arith, h))
close_open (Status.other text) tier name prior h t = absurd (ground (arith, h))

module _ (d : Digest) where
  open d use {Hash}

  -- The case can be closed with the count of reviews that the candidate has.
  pub record Ready (db : Db Hash) (x : Candidate) : Type 0 where
    pub case_row : CaseRow
    pub found : find_case x.transaction_id db.cases ≡ some case_row
    pub known_tier :
        (case_row.required_approval_tier == 1 || case_row.required_approval_tier == 2) ≡ true
    pub open_still :
        is_open (derive_status case_row (get_reviews x.transaction_id db.reviews)) ≡ true
    pub counted : x.review_count ≡ length (get_reviews x.transaction_id db.reviews)

  pub record IsClosed (db : Db Hash) (id : String) : Type 0 where
    pub case_row : CaseRow
    pub found : find_case id db.cases ≡ some case_row
    pub closed : derive_status case_row (get_reviews id db.reviews) ≡ Status.auto_closed

  get_reviews-other :
      (id : String) (rows : List (Row Hash)) (row : Row Hash)
      → str_eq row.1.transaction_id id ≡ false
      → get_reviews id (rows ++ row ∷ []) ≡ get_reviews id rows
  unfolding get_reviews
  get_reviews-other id rows row h = keep-append (is_of id) rows (row ∷ []) ∙ rw h (append-nil _)

  get_reviews-own :
      (id : String) (rows : List (Row Hash)) (row : Row Hash)
      → str_eq row.1.transaction_id id ≡ true
      → get_reviews id (rows ++ row ∷ []) ≡ get_reviews id rows ++ row ∷ []
  unfolding get_reviews
  get_reviews-own id rows row h = keep-append (is_of id) rows (row ∷ []) ∙ rw h refl

  pub submit-Commits :
      (o : Outside) (x : Candidate) (notes : String) (db : Db Hash)
      → Ready db x
      → Commits d o x.transaction_id (closing notes x.review_count) Status.auto_closed db
  unfolding closing
  submit-Commits o x notes db r =
      let reviews = get_reviews x.transaction_id db.reviews in
      submit_review-Commits d o x.transaction_id (closing notes x.review_count) Status.auto_closed
        db r.case_row r.found (ap some r.counted) refl
        (close_open (derive_status r.case_row reviews) r.case_row.required_approval_tier _
          (prior_analyst_reviewer reviews) r.open_still r.known_tier)

  -- The reviews of the other cases stay.
  pub others_stay :
      {o : Outside} {id : String} {s : ReviewSubmission} {new_status : Status} {db : Db Hash}
      (w : Commits d o id s new_status db) (other : String)
      → str_eq id other ≡ false
      → get_reviews other w.after.reviews ≡ get_reviews other db.reviews
  unfolding append_row
  others_stay {o} {id} {s} {new_status} {db} w other h =
      ap (get_reviews other) w.appended
      ∙ get_reviews-other other db.reviews _ (ap (λ i. str_eq i other) w.of_case ∙ h)

  pub after-IsClosed :
      {o : Outside} {s : ReviewSubmission} {db : Db Hash} (x : Candidate)
      (w : Commits d o x.transaction_id s Status.auto_closed db)
      → Ready db x
      → IsClosed w.after x.transaction_id
  unfolding append_row
  after-IsClosed {o} {s} {db} x w r =
      let id = x.transaction_id in
      let same_id : str_eq w.fields.transaction_id id ≡ true = (eq_iff _ _).1 w.of_case in
      record {
        case_row = r.case_row;
        found = subst (λ cs. find_case id cs ≡ some r.case_row) (sym w.same_cases) r.found;
        closed =
            ap (λ rows. derive_status r.case_row (get_reviews id rows)) w.appended
            ∙ ap (derive_status r.case_row) (get_reviews-own id db.reviews _ same_id)
            ∙ derive_status-concat r.case_row (get_reviews id db.reviews) o.row_id w.fields _
            ∙ w.gives;
      }

  after-Ready :
      {o : Outside} {id : String} {s : ReviewSubmission} {new_status : Status} {db : Db Hash}
      (w : Commits d o id s new_status db) (x : Candidate)
      → str_eq id x.transaction_id ≡ false
      → Ready db x
      → Ready w.after x
  after-Ready {o} {id} {s} {new_status} {db} w x h r =
      let same = sym (others_stay w x.transaction_id h) in
      record {
        case_row = r.case_row;
        found =
            subst (λ cs. find_case x.transaction_id cs ≡ some r.case_row) (sym w.same_cases)
              r.found;
        known_tier = r.known_tier;
        open_still =
            subst (λ rows. is_open (derive_status r.case_row rows) ≡ true) same r.open_still;
        counted = subst (λ rows. x.review_count ≡ length rows) same r.counted;
      }

  abbrev pub candidate_ids : List Candidate → List String
  candidate_ids = map (λ x. x.transaction_id)

  pub All-Ready :
      {o : Outside} {id : String} {s : ReviewSubmission} {new_status : Status} {db : Db Hash}
      (w : Commits d o id s new_status db) (xs : List Candidate)
      → contains (candidate_ids xs) id ≡ false
      → All (Ready db) xs
      → All (Ready w.after) xs
  All-Ready w [] h r = tt
  All-Ready w (x ∷ xs) h r =
      (after-Ready w x (ground (arith, h)) r.0, All-Ready w xs (ground (arith, h)) r.1)
