-- ===== src/Review/Store/Histories.antt =====
-- The cases of review_backend/main.py keep their histories, and the audit chain stays intact,
-- under every call of the endpoint.
use mathlib.Core.Path.{subst, subst₂}
use mathlib.Core.Option.{some-injective}
use mathlib.Core.List.{append-nil}
use close_control.Base.{
  String, ◌≡◌, sym, ap, ◌∙◌, inl, inr, some, List, [], ◌∷◌, ◌++◌, true, str_eq, eq_iff,
  if◌then◌else◌, keep-append, Bool-cases,
}
use close_control.Review.Chain.{Digest, Row, intact, verify_chain, append_row, next_chain_hash}
use close_control.Review.Chain.Audit.{append_row-intact}
use close_control.Review.Cases.{CaseRow, find_case, get_reviews, is_of}
use close_control.Review.Cases.History.{Allowed, History, next}
use close_control.Review.Store.{Outside, Response, Db}
use close_control.Review.Store.Effect.{Committed, Effect}

module _ (d : Digest) where
  open d use {Hash}

  -- Every case has a history in the table of the reviews.
  abbrev pub IsValid : Db Hash → Type 0
  IsValid db =
      (id : String) (c : CaseRow)
      → find_case id db.cases ≡ some c
      → History c (get_reviews id db.reviews)

  get_reviews-append :
      (id : String) (rows : List (Row Hash)) (row : Row Hash)
      → get_reviews id (rows ++ row ∷ [])
        ≡ get_reviews id rows ++ (if str_eq row.1.transaction_id id then row ∷ [] else [])
  unfolding get_reviews
  get_reviews-append id rows row = keep-append (is_of id) rows (row ∷ [])

  -- The case that a committed review is of, found under another spelling of its id.
  Committed-Allowed :
      {o : Outside} {id : String} {db db' : Db Hash} (j : String) (c : CaseRow)
      → (w : Committed d o id db db') → w.fields.transaction_id ≡ j
      → find_case j db.cases ≡ some c
      → Allowed c (get_reviews j db.reviews) w.fields
  Committed-Allowed {o} {id} {db} j c w e f =
      let same : id ≡ j = sym w.of_case ∙ e in
      let found : find_case j db.cases ≡ some w.case_row =
        subst (λ i. find_case i db.cases ≡ some w.case_row) same w.found in
      subst₂ (λ i row. Allowed row (get_reviews i db.reviews) w.fields) same
        (some-injective _ _ (sym found ∙ f)) w.allowed

  Committed-IsValid :
      {o : Outside} {id : String} {db db' : Db Hash}
      → Committed d o id db db'
      → IsValid db
      → IsValid db'
  unfolding append_row
  Committed-IsValid {o} {id} {db} {db'} w h j c f =
      let f' = subst (λ cs. find_case j cs ≡ some c) w.same_cases f in
      let row : Row Hash = (o.row_id, w.fields, some (next_chain_hash d db.reviews w.fields)) in
      let split = ap (get_reviews j) w.appended ∙ get_reviews-append j db.reviews row in
      elim (Bool-cases (str_eq w.fields.transaction_id j)) [
        | inl e ↦
            next o.row_id w.fields row.2 (h j c f') (Committed-Allowed j c w ((eq_iff _ _).0 e) f')
              (split ∙ rw e)
        | inr e ↦ subst (History c) (sym (split ∙ rw e (append-nil _))) (h j c f')
      ]

  -- Every call keeps the histories.
  pub Effect-IsValid :
      (o : Outside) (id : String) (db : Db Hash) (result : Response × Db Hash)
      → Effect d o id db result
      → IsValid db
      → IsValid result.1
  Effect-IsValid o id db (Response.http_error code, db') e h = subst IsValid (sym e) h
  Effect-IsValid o id db (Response.accepted a, db') e h = Committed-IsValid e h

  -- A call leaves an intact audit chain intact.
  pub Effect-intact :
      (o : Outside) (id : String) (db : Db Hash) (result : Response × Db Hash)
      → Effect d o id db result
      → intact (verify_chain d db.reviews) ≡ true
      → intact (verify_chain d result.1.reviews) ≡ true
  Effect-intact o id db (Response.http_error code, db') e h =
      subst (λ b. intact (verify_chain d b.reviews) ≡ true) (sym e) h
  Effect-intact o id db (Response.accepted a, db') e h =
      subst (λ rows. intact (verify_chain d rows) ≡ true) (sym e.appended)
        (append_row-intact d db.reviews o.row_id e.fields h)
