-- ===== src/Review/Reverify/Run.antt =====
-- What a re-verification of review_backend/main.py does to the queue when nobody reviews meanwhile.
use mathlib.Core.Path.{subst}
use close_control.Base.{
  ◌≡◌, refl, sym, ap, ◌∙◌, String, Option, List, [], true, false, length, keep, contains, All,
  Distinct, Distinct-map-keep,
}
use close_control.Review.Chain.{Digest}
use close_control.Review.Cases.{get_reviews}
use close_control.Review.Store.{Outside, Db}
use close_control.Review.Reverify.{Report, first_pass, close_all, reverify}
use close_control.Review.Reverify.Sorted.{is_open_case, first_pass-size}
use close_control.Review.Reverify.Closing.{IsClosed}
use close_control.Review.Reverify.Closed.{AllClosed, close_all-AllClosed}
use close_control.Review.Reverify.Candidates.{
  case_ids, each_found, is_closable, KnownTier, candidates-ids, candidates-Ready,
}

module _ (d : Digest) (outside : String → Outside) (note : Option String → String)
    (report : Report) where
  open d use {Hash}

  -- The ids of the open cases that the report calls clean.
  abbrev pub to_close : Db Hash → List String
  to_close db = case_ids d (keep (is_closable d report db.reviews) db.cases)

  all_closed :
      (db : Db Hash)
      → Distinct (case_ids d db.cases)
      → All (KnownTier d) db.cases
      → let found = (first_pass report db.reviews db.cases).closed_candidates in
        AllClosed d db found
          (close_all d outside note found db).0
          (close_all d outside note found db).1
  all_closed db apart tiers =
      close_all-AllClosed d outside note _ db
        (subst Distinct (sym (candidates-ids d report db db.cases)) (
          Distinct-map-keep (λ c. c.transaction_id) (is_closable d report db.reviews) db.cases
            apart))
        (candidates-Ready d report db db.cases (each_found d db.cases apart) tiers)

  -- Over cases with different ids and a tier of 1 or 2, a re-verification closes each open case that
  -- the report calls clean and skips none, and these are automatically closed at its end.
  pub reverify-closes :
      (db : Db Hash)
      → Distinct (case_ids d db.cases)
      → All (KnownTier d) db.cases
      → ((reverify d outside note report false db).0.closed ≡ to_close db)
        × (((reverify d outside note report false db).0.skipped ≡ [])
            × All (IsClosed d (reverify d outside note report false db).1) (to_close db))
  unfolding reverify
  reverify-closes db apart tiers =
      let done = all_closed db apart tiers in
      let ids = candidates-ids d report db db.cases in
      (
        ap (λ o. o.closed) done.outcome ∙ ids,
        (
          ap (λ o. o.skipped) done.outcome,
          subst (All (IsClosed d (reverify d outside note report false db).1)) ids done.all,
        ),
      )

  -- Any other case keeps its reviews: so does each that a person or the gate has decided, and each
  -- that the report does not call clean.
  pub reverify-others :
      (db : Db Hash) (id : String)
      → Distinct (case_ids d db.cases)
      → All (KnownTier d) db.cases
      → contains (to_close db) id ≡ false
      → get_reviews id (reverify d outside note report false db).1.reviews
        ≡ get_reviews id db.reviews
  unfolding reverify
  reverify-others db id apart tiers other =
      (all_closed db apart tiers).others id
        (ap (λ ids. contains ids id) (candidates-ids d report db db.cases) ∙ other)

  -- A dry run changes nothing, and names the cases that a run closes, over cases with different ids
  -- and a tier of 1 or 2; both count the open cases.
  pub reverify-dry_run :
      (db : Db Hash)
      → Distinct (case_ids d db.cases)
      → All (KnownTier d) db.cases
      → ((reverify d outside note report true db).1 ≡ db)
        × (((reverify d outside note report true db).0.closed
              ≡ (reverify d outside note report false db).0.closed)
            × (((reverify d outside note report true db).0.checked
                  ≡ length (keep (is_open_case report db.reviews) db.cases))
                × ((reverify d outside note report false db).0.checked
                    ≡ length (keep (is_open_case report db.reviews) db.cases))))
  unfolding reverify
  reverify-dry_run db apart tiers =
      let size = first_pass-size report db.reviews db.cases in
      (refl, (sym (ap (λ o. o.closed) (all_closed db apart tiers).outcome), (size, size)))
