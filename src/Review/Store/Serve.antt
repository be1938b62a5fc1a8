-- ===== src/Review/Store/Serve.antt =====
-- Any sequence of calls of POST /api/cases/{id}/review of review_backend/main.py, from an empty
-- table of reviews: what holds of the queue at the end.
use close_control.Base.{String, ◌≡◌, some, List, [], ◌∷◌, true}
use close_control.Review.{Status}
use close_control.Review.Submission.{ReviewSubmission}
use close_control.Review.Chain.{Fields, Digest, Row, intact, verify_chain}
use close_control.Review.Cases.{CaseRow, find_case, get_reviews, derive_status}
use close_control.Review.Cases.History.{start}
use close_control.Review.Cases.FourEyes.{AnalystApproval, ManagerApproval, two_approvers}
use close_control.Review.Store.{Outside, Db, post_review}
use close_control.Review.Store.Effect.{post_review-Effect}
use close_control.Review.Store.Histories.{IsValid, Effect-IsValid, Effect-intact}

-- A request: what it takes from outside, the case it names, and its body.
abbrev pub Request : Type 0
Request = Outside × String × ReviewSubmission

abbrev pub initial : {Hash : Type 0} → List CaseRow → Db Hash
initial cases = record { cases = cases; reviews = []; corrections = [] }

module _ (d : Digest) where
  open d use {Hash}

  unfoldable pub serve : List Request → Db Hash → Db Hash
  serve [] db = db
  serve ((o, id, s) ∷ requests) db = serve requests (post_review d o id s db).1

  serve-IsValid :
      (requests : List Request) (db : Db Hash) → IsValid d db → IsValid d (serve requests db)
  unfolding serve
  serve-IsValid [] db h = h
  serve-IsValid ((o, id, s) ∷ requests) db h =
      serve-IsValid requests _ (Effect-IsValid d o id db _ (post_review-Effect d o id s db) h)

  -- No sequence of requests breaks an intact audit chain.
  pub serve-intact :
      (requests : List Request) (db : Db Hash)
      → intact (verify_chain d db.reviews) ≡ true
      → intact (verify_chain d (serve requests db).reviews) ≡ true
  unfolding serve
  serve-intact [] db h = h
  serve-intact ((o, id, s) ∷ requests) db h =
      serve-intact requests _ (Effect-intact d o id db _ (post_review-Effect d o id s db) h)

  -- The reviews of a case after the requests, the queue starting with no review.
  abbrev pub reviews_after : List CaseRow → List Request → String → List (Row Hash)
  reviews_after cases requests id = get_reviews id (serve requests (initial cases)).reviews

  -- After any requests, a tier-2 case that is approved has among its reviews an approval by an
  -- analyst and one by a manager of another name.
  pub serve_four_eyes :
      (cases : List CaseRow) (requests : List Request) (id : String) (c : CaseRow)
      → find_case id (serve requests (initial cases)).cases ≡ some c
      → c.required_approval_tier ≡ 2
      → derive_status c (reviews_after cases requests id) ≡ Status.approved
      → (a m : Fields) × AnalystApproval (reviews_after cases requests id) a
        × ManagerApproval (reviews_after cases requests id) a m
  unfolding get_reviews
  serve_four_eyes cases requests id c found tier approved =
      two_approvers c (serve-IsValid requests _ (λ j row e. start) id c found) tier approved
