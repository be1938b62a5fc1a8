-- ===== src/Review/Chain/Audit.antt =====
-- `verify_chain` of review_backend/chain.py decides whether the rows are linked, and
-- `next_chain_hash` keeps them linked.
use close_control.Base.{
  ℕ, ◌≡◌, refl, sym, ap, ◌↔◌, inl, inr, none, some, List, [], ◌∷◌, ◌++◌, Bool, true, false,
  get_last?, get_last?-concat, Bool-cases, All, ◌∙◌,
}
use close_control.Review.Chain.{
  Fields, Digest, Row, Walk, intact, prev_hash, next_chain_hash, skip, pass, walk, verify_chain,
  append_row,
}

module _ (d : Digest) where
  open d use {Hash, genesis, same, same_iff, compute_chain_hash}

  -- Each row that has a hash has the digest of its fields and of the hash before it.
  abbrev pub Linked : Hash → List (Row Hash) → Type 0
  Linked prev [] = Unit
  Linked prev ((id, fields, none) ∷ rows) = Linked genesis rows
  Linked prev ((id, fields, some stored) ∷ rows) =
      (compute_chain_hash prev fields ≡ stored) × Linked stored rows

  abbrev is_sound : Walk Hash → Bool
  is_sound w = elim w.broken_at [ none ↦ true | some _ ↦ false ]

  walk-Linked :
      (prev : Hash) (rows : List (Row Hash)) (w : Walk Hash)
      → is_sound (walk d prev rows w) ≡ true
      → Linked prev rows
  unfolding walk
  walk-Linked prev [] w h = tt
  walk-Linked prev ((id, fields, none) ∷ rows) w h = walk-Linked genesis rows (skip d id w) h
  walk-Linked prev ((id, fields, some stored) ∷ rows) w h =
      elim (Bool-cases (same (compute_chain_hash prev fields) stored)) [
        | inl e ↦
            ((same_iff _ _).0 e, walk-Linked stored rows (pass d id w) (rw (e, is_sound) at h))
        | inr e ↦ let broken = rw (e, is_sound) at h in cc broken
      ]

  Linked-walk :
      (prev : Hash) (rows : List (Row Hash)) (w : Walk Hash)
      → is_sound w ≡ true
      → Linked prev rows
      → is_sound (walk d prev rows w) ≡ true
  unfolding walk
  Linked-walk prev [] w s h = s
  Linked-walk prev ((id, fields, none) ∷ rows) w s h = Linked-walk genesis rows (skip d id w) s h
  Linked-walk prev ((id, fields, some stored) ∷ rows) w s h =
      rw ((same_iff (compute_chain_hash prev fields) stored).1 h.0, is_sound)
        (Linked-walk stored rows (pass d id w) s h.1)

  -- The verdict by the relation on the rows.
  pub verify_chain-Linked :
      (rows : List (Row Hash)) → (intact (verify_chain d rows) ≡ true) ↔ Linked genesis rows
  unfolding verify_chain
  verify_chain-Linked rows = (walk-Linked genesis rows _, Linked-walk genesis rows _ refl)

  -- Each row with the rows before it.
  abbrev pub with_before : List (Row Hash) → List (Row Hash) → List (List (Row Hash) × Row Hash)
  with_before before [] = []
  with_before before (row ∷ rows) = (before, row) ∷ with_before (before ++ row ∷ []) rows

  -- A row that has a hash has the one that it would be given at its insertion.
  abbrev pub IsAsInserted : List (Row Hash) × Row Hash → Type 0
  IsAsInserted (before, (id, fields, none)) = Unit
  IsAsInserted (before, (id, fields, some stored)) = next_chain_hash d before fields ≡ stored

  next_chain_hash-concat :
      (before : List (Row Hash)) (row : Row Hash) (fields : Fields)
      → next_chain_hash d (before ++ row ∷ []) fields
        ≡ compute_chain_hash (prev_hash d (some row)) fields
  unfolding next_chain_hash
  next_chain_hash-concat before row fields =
      ap (λ last. compute_chain_hash (prev_hash d last) fields) (get_last?-concat before row)

  -- The digest that a next row is given, whatever its fields.
  abbrev Follows : List (Row Hash) → Hash → Type 0
  Follows before prev =
      (fields : Fields) → next_chain_hash d before fields ≡ compute_chain_hash prev fields

  after_row :
      (before : List (Row Hash)) (row : Row Hash) (prev : Hash)
      → prev_hash d (some row) ≡ prev
      → Follows (before ++ row ∷ []) prev
  after_row before row prev e fields =
      next_chain_hash-concat before row fields ∙ ap (λ h. compute_chain_hash h fields) e

  Linked-inserted :
      (before rows : List (Row Hash)) (prev : Hash)
      → Follows before prev
      → Linked prev rows ↔ All IsAsInserted (with_before before rows)
  unfolding prev_hash
  Linked-inserted before [] prev f = (λ h. tt, λ h. tt)
  Linked-inserted before ((id, fields, none) ∷ rows) prev f =
      let (there, back) =
        Linked-inserted (before ++ (id, fields, none) ∷ []) rows genesis
          (after_row before (id, fields, none) genesis refl) in
      (λ h. (tt, there h), λ h. back h.1)
  Linked-inserted before ((id, fields, some stored) ∷ rows) prev f =
      let (there, back) =
        Linked-inserted (before ++ (id, fields, some stored) ∷ []) rows stored
          (after_row before (id, fields, some stored) stored refl) in
      (λ h. (f fields ∙ h.0, there h.1), λ h. (sym (f fields) ∙ h.0, back h.1))

  -- `verify_chain` reports an intact chain exactly if each row that has a hash has the one that
  -- `next_chain_hash` gives its fields after the rows that stand before it. A row without a hash is
  -- not checked.
  pub verify_chain-IsAsInserted :
      (rows : List (Row Hash))
      → (intact (verify_chain d rows) ≡ true) ↔ All IsAsInserted (with_before [] rows)
  unfolding next_chain_hash prev_hash
  verify_chain-IsAsInserted rows =
      let (intact_linked, linked_intact) = verify_chain-Linked rows in
      let (there, back) = Linked-inserted [] rows genesis (λ fields. refl) in
      (λ h. there (intact_linked h), λ h. linked_intact (back h))

  -- The hash that the row after `rows` is linked to.
  abbrev end_hash : Hash → List (Row Hash) → Hash
  end_hash prev [] = prev
  end_hash prev ((id, fields, none) ∷ rows) = end_hash genesis rows
  end_hash prev ((id, fields, some stored) ∷ rows) = end_hash stored rows

  pub Linked-append :
      (prev : Hash) (rows more : List (Row Hash))
      → Linked prev (rows ++ more) ↔ (Linked prev rows × Linked (end_hash prev rows) more)
  Linked-append prev [] more = (λ h. (tt, h), λ h. h.1)
  Linked-append prev ((id, fields, none) ∷ rows) more = Linked-append genesis rows more
  Linked-append prev ((id, fields, some stored) ∷ rows) more =
      let (there, back) = Linked-append stored rows more in
      (λ h. ((h.0, (there h.1).0), (there h.1).1), λ h. (h.0.0, back (h.0.1, h.1)))

  prev_hash-last :
      (prev : Hash) (row : Row Hash) (rows : List (Row Hash))
      → prev_hash d (get_last? (row ∷ rows)) ≡ end_hash prev (row ∷ rows)
  unfolding prev_hash
  prev_hash-last prev (id, fields, none) [] = refl
  prev_hash-last prev (id, fields, some h) [] = refl
  prev_hash-last prev (id, fields, none) (row ∷ rows) = prev_hash-last genesis row rows
  prev_hash-last prev (id, fields, some h) (row ∷ rows) = prev_hash-last h row rows

  prev_hash-end_hash :
      (rows : List (Row Hash)) → prev_hash d (get_last? rows) ≡ end_hash genesis rows
  unfolding prev_hash
  prev_hash-end_hash [] = refl
  prev_hash-end_hash (row ∷ rows) = prev_hash-last genesis row rows

  -- A row inserted under `next_chain_hash` leaves an intact chain intact.
  pub append_row-intact :
      (rows : List (Row Hash)) (id : ℕ) (fields : Fields)
      → intact (verify_chain d rows) ≡ true
      → intact (verify_chain d (append_row d id fields rows)) ≡ true
  unfolding append_row next_chain_hash
  append_row-intact rows id fields h = (verify_chain-Linked _).1 (
      (Linked-append genesis rows _).1 (
        (verify_chain-Linked rows).0 h,
        (ap (λ h. compute_chain_hash h fields) (sym (prev_hash-end_hash rows)), tt),
      ))
