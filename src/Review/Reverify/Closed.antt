-- ===== src/Review/Reverify/Closed.antt =====
-- The second pass of a re-verification of review_backend/main.py over its candidates: each is closed.
use mathlib.Core.Path.{subst}
use close_control.Base.{
  ◌≡◌, refl, sym, ap, ◌∙◌, String, Option, some, List, [], ◌∷◌, false, arith, contains, All,
  Distinct, str_eq, eq_iff,
}
use close_control.Review.{Status}
use close_control.Review.Chain.{Digest}
use close_control.Review.Cases.{find_case, get_reviews, derive_status}
use close_control.Review.Submission.{ReviewSubmission}
use close_control.Review.Store.{Outside, Db, Response}
use close_control.Review.Store.Accepts.{Commits}
use close_control.Review.Reverify.{Candidate, close_all, Outcomes, outcome_of}
use close_control.Review.Reverify.Closing.{
  Ready, IsClosed, candidate_ids, submit-Commits, others_stay, after-IsClosed, All-Ready,
}

module _ (d : Digest) where
  open d use {Hash}

  -- What the second pass leaves: all of these closed, none skipped, and the other cases untouched.
  pub record AllClosed (db : Db Hash) (xs : List Candidate) (outcomes : Outcomes) (final : Db Hash)
      : Type 0 where
    pub outcome : outcomes ≡ record { closed = candidate_ids d xs; skipped = [] }
    pub same_cases : final.cases ≡ db.cases
    pub others :
        (id : String)
        → contains (candidate_ids d xs) id ≡ false
        → get_reviews id final.reviews ≡ get_reviews id db.reviews
    pub all : All (IsClosed d final) (candidate_ids d xs)

  IsClosed-stays :
      (db final : Db Hash) (id : String)
      → final.cases ≡ db.cases
      → get_reviews id final.reviews ≡ get_reviews id db.reviews
      → IsClosed d db id
      → IsClosed d final id
  IsClosed-stays db final id cases reviews h = record {
    case_row = h.case_row;
    found = subst (λ cs. find_case id cs ≡ some h.case_row) (sym cases) h.found;
    closed = ap (derive_status h.case_row) reviews ∙ h.closed;
  }

  not_same : (a b : String) → str_eq a b ≡ false → str_eq b a ≡ false
  not_same a b h = ground (arith, eq_iff a b, eq_iff b a, h)

  one_more :
      {o : Outside} {s : ReviewSubmission} {db : Db Hash} (x : Candidate) (xs : List Candidate)
      (w : Commits d o x.transaction_id s Status.auto_closed db) (outcomes : Outcomes)
      (final : Db Hash)
      → Ready d db x
      → contains (candidate_ids d xs) x.transaction_id ≡ false
      → AllClosed w.after xs outcomes final
      → AllClosed db
          (x ∷ xs)
          (outcome_of x.transaction_id (Response.accepted w.accepted) outcomes)
          final
  one_more {o} {s} {db} x xs w outcomes final ready apart rest =
      let id = x.transaction_id in
      record {
        outcome = ap (λ r. outcome_of id (Response.accepted w.accepted) r) rest.outcome;
        same_cases = rest.same_cases ∙ w.same_cases;
        others = λ other h.
            rest.others other (ground (arith, h))
            ∙ others_stay d w other (not_same other id (ground (arith, h)));
        all = (
          IsClosed-stays w.after final id rest.same_cases (rest.others id apart)
              (after-IsClosed d x w ready),
          rest.all,
        );
      }

  pub close_all-AllClosed :
      (outside : String → Outside) (note : Option String → String) (xs : List Candidate)
      (db : Db Hash)
      → Distinct (candidate_ids d xs)
      → All (Ready d db) xs
      → AllClosed db xs (close_all d outside note xs db).0 (close_all d outside note xs db).1
  unfolding close_all
  close_all-AllClosed outside note [] db apart h = record {
    outcome = refl;
    same_cases = refl;
    others = λ id e. refl;
    all = tt;
  }
  close_all-AllClosed outside note (x ∷ xs) db apart h =
      let id = x.transaction_id in
      let w = submit-Commits d (outside id) x (note x.original_exception_type) db h.0 in
      let rest =
        close_all-AllClosed outside note xs w.after apart.1 (All-Ready d w xs apart.0 h.1) in
      rw w.answers (one_more x xs w _ _ h.0 apart.0 rest)
