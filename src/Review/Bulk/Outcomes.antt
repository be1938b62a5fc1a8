-- ===== src/Review/Bulk/Outcomes.antt =====
-- What a bulk review of review_backend/main.py does: it reports each case once, and it is a sequence
-- of single reviews.
use close_control.Base.{
  ◌≡◌, refl, ap, ◌∙◌, ℕ, suc, ◌+◌, String, Option, none, some, List, [], ◌∷◌, ◌++◌, true, arith,
  length, length-append,
}
use close_control.Review.{Decision, Role}
use close_control.Review.Submission.{is_valid_submission}
use close_control.Review.Chain.{Digest, intact, verify_chain}
use close_control.Review.Cases.{CaseRow, find_case, get_reviews}
use close_control.Review.Store.{Outside, Db}
use close_control.Review.Store.Effect.{submit_review-Effect}
use close_control.Review.Store.Histories.{Effect-intact}
use close_control.Review.Bulk.{
  BulkReviewRequest, is_valid_bulk, submission_of, Outcome, Counted, sort_in, sweep,
  missing_outcomes, count_reviewed, count_skipped, review_counted, bulk_review,
}

sort_in-length :
    (o : Option CaseRow) (c : Counted) (s : List String × List Counted)
    → length (sort_in o c s).0 + length (sort_in o c s).1 ≡ suc (length s.0 + length s.1)
sort_in-length none (id, n) (missing, counted) = omega arith
sort_in-length (some _) (id, n) (missing, counted) = omega arith

sweep-length :
    {Hash : Type 0} (ids : List String) (db : Db Hash)
    → length (sweep ids db).0 + length (sweep ids db).1 ≡ length ids
unfolding sweep
sweep-length [] db = refl
sweep-length (id ∷ ids) db =
    sort_in-length (find_case id db.cases) (id, length (get_reviews id db.reviews)) (sweep ids db)
    ∙ ap suc (sweep-length ids db)

missing_outcomes-length : (ids : List String) → length (missing_outcomes ids) ≡ length ids
missing_outcomes-length [] = refl
missing_outcomes-length (id ∷ ids) = ap suc (missing_outcomes-length ids)

counts_add_up : (all : List Outcome) → count_reviewed all + count_skipped all ≡ length all
counts_add_up [] = omega arith
counts_add_up (Outcome.reviewed id s ∷ rest) = omega (arith, counts_add_up rest)
counts_add_up (Outcome.skipped id ∷ rest) = omega (arith, counts_add_up rest)

valid_by_decision :
    (ids : List String) (name : String) (role : Role) (decision : Decision) (notes : Option String)
    (n : ℕ)
    → is_valid_bulk (record {
      transaction_ids = ids;
      reviewer_name = name;
      reviewer_role = role;
      decision = decision;
      notes = notes;
    })
      ≡ true
    → is_valid_submission (
        submission_of
          (record {
            transaction_ids = ids;
            reviewer_name = name;
            reviewer_role = role;
            decision = decision;
            notes = notes;
          })
          n)
      ≡ true
unfolding is_valid_bulk is_valid_submission submission_of
valid_by_decision ids name role Decision.approved notes n h = ground arith
valid_by_decision ids name role Decision.escalated notes n h = ground arith
valid_by_decision ids name role Decision.overridden notes n h = absurd (ground arith)
valid_by_decision ids name role Decision.reverted notes n h = absurd (ground arith)
valid_by_decision ids name role Decision.auto_closed notes n h = absurd (ground arith)
valid_by_decision ids name role (Decision.other text) notes n h = absurd (ground arith)

-- A bulk request that its own validation accepts makes only single reviews that theirs accepts.
pub submission_of-valid :
    (p : BulkReviewRequest) (n : ℕ)
    → is_valid_bulk p ≡ true
    → is_valid_submission (submission_of p n) ≡ true
submission_of-valid p n h =
    valid_by_decision p.transaction_ids p.reviewer_name p.reviewer_role p.decision p.notes n h

module _ (d : Digest) where
  open d use {Hash}

  review_counted-length :
      (outside : String → Outside) (p : BulkReviewRequest) (counted : List Counted) (db : Db Hash)
      → length (review_counted d outside p counted db).0 ≡ length counted
  unfolding review_counted
  review_counted-length outside p [] db = refl
  review_counted-length outside p ((id, n) ∷ counted) db =
      ap suc (review_counted-length outside p counted _)

  -- The counts of a bulk review add up to the number of cases that it was asked for.
  pub bulk_review-counts :
      (outside : String → Outside) (p : BulkReviewRequest) (db : Db Hash)
      → (bulk_review d outside p db).0.reviewed_count + (bulk_review d outside p db).0.skipped_count
        ≡ (bulk_review d outside p db).0.requested
  unfolding bulk_review
  bulk_review-counts outside p db =
      let (missing, counted) = sweep p.transaction_ids db in
      let results = (review_counted d outside p counted db).0 in
      omega (
        arith,
        counts_add_up (missing_outcomes missing ++ results),
        length-append (missing_outcomes missing) results,
        missing_outcomes-length missing,
        review_counted-length outside p counted db,
        sweep-length p.transaction_ids db,
      )

  review_counted-intact :
      (outside : String → Outside) (p : BulkReviewRequest) (counted : List Counted) (db : Db Hash)
      → intact (verify_chain d db.reviews) ≡ true
      → intact (verify_chain d (review_counted d outside p counted db).1.reviews) ≡ true
  unfolding review_counted
  review_counted-intact outside p [] db h = h
  review_counted-intact outside p ((id, n) ∷ counted) db h =
      review_counted-intact outside p counted _ (
        Effect-intact d (outside id) id db _
          (submit_review-Effect d (outside id) id (submission_of p n) db) h)

  -- A bulk review leaves an intact audit chain intact.
  pub bulk_review-intact :
      (outside : String → Outside) (p : BulkReviewRequest) (db : Db Hash)
      → intact (verify_chain d db.reviews) ≡ true
      → intact (verify_chain d (bulk_review d outside p db).1.reviews) ≡ true
  unfolding bulk_review
  bulk_review-intact outside p db h =
      review_counted-intact outside p (sweep p.transaction_ids db).1 db h
