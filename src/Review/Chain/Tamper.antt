-- ===== src/Review/Chain/Tamper.antt =====
-- What the chain of review_backend/chain.py detects: if the digests have no collisions, the last
-- hash of an intact table fixes every chained field of every row.
use mathlib.Core.Path.{subst}
use mathlib.Core.List.{reverse, reverse_aux, reverse-reverse}
use close_control.Base.{◌≡◌, refl, sym, ap, ◌∙◌, ◌≢◌, none, some, List, [], ◌∷◌, map, true}
use close_control.Review.Chain.{Fields, Digest, Row, intact, verify_chain}
use close_control.Review.Chain.Audit.{Linked, verify_chain-Linked}

-- SHA-256 has no known collisions; no payload is known whose digest is sixty-four zeros.
pub record CollisionFree (d : Digest) : Type 0 where
  pub injective :
      (p q : d.Hash) (f g : Fields)
      → d.compute_chain_hash p f ≡ d.compute_chain_hash q g
      → (p ≡ q) × (f ≡ g)
  pub never_genesis : (p : d.Hash) (f : Fields) → d.compute_chain_hash p f ≢ d.genesis

module _ (d : Digest) where
  open d use {Hash, genesis, compute_chain_hash}

  -- Every row carries a hash: the table holds no row older than the column.
  abbrev pub AllChained : List (Row Hash) → Type 0
  AllChained [] = Unit
  AllChained ((id, fields, none) ∷ rows) = ⊥
  AllChained ((id, fields, some h) ∷ rows) = AllChained rows

  -- The `chain_hash` of the last row.
  abbrev pub head_of_chain : Hash → List (Row Hash) → Hash
  head_of_chain prev [] = prev
  head_of_chain prev ((id, fields, none) ∷ rows) = head_of_chain prev rows
  head_of_chain prev ((id, fields, some h) ∷ rows) = head_of_chain h rows

  abbrev pub contents : List (Row Hash) → List Fields
  contents = map (λ row. row.1)

  -- The hash after a history, whose latest entry comes first.
  seal : List Fields → Hash
  seal [] = genesis
  seal (f ∷ fs) = compute_chain_hash (seal fs) f

  seal-injective : CollisionFree d → (fs gs : List Fields) → seal fs ≡ seal gs → fs ≡ gs
  unfolding seal
  seal-injective c [] [] e = refl
  seal-injective c [] (g ∷ gs) e = absurd (c.never_genesis _ _ (sym e))
  seal-injective c (f ∷ fs) [] e = absurd (c.never_genesis _ _ e)
  seal-injective c (f ∷ fs) (g ∷ gs) e =
      let (before, last) = c.injective _ _ f g e in cc (seal-injective c fs gs before, last)

  head_of_chain-seal :
      (rows : List (Row Hash)) (past : List Fields)
      → AllChained rows
      → Linked d (seal past) rows
      → head_of_chain (seal past) rows ≡ seal (reverse_aux (contents rows) past)
  unfolding seal
  head_of_chain-seal [] past a l = refl
  head_of_chain-seal ((id, fields, none) ∷ rows) past a l = elim a [ ]
  head_of_chain-seal ((id, fields, some h) ∷ rows) past a l =
      subst (λ k. head_of_chain k rows ≡ seal (reverse_aux (contents rows) (fields ∷ past))) l.0
        (head_of_chain-seal rows (fields ∷ past) a (subst (λ k. Linked d k rows) (sym l.0) l.1))

  head_of_chain-intact :
      (rows : List (Row Hash))
      → AllChained rows
      → intact (verify_chain d rows) ≡ true
      → head_of_chain genesis rows ≡ seal (reverse (contents rows))
  unfolding seal
  head_of_chain-intact rows a h = head_of_chain-seal rows [] a ((verify_chain-Linked d rows).0 h)

  -- Two tables whose rows all have hashes, which `verify_chain` finds intact and which end in the
  -- same hash, hold the same reviews in the same order, if the digests have no collisions.
  pub same_head_same_history :
      CollisionFree d
      → (rows rows' : List (Row Hash)) → AllChained rows
      → AllChained rows'
      → intact (verify_chain d rows) ≡ true
      → intact (verify_chain d rows') ≡ true
      → head_of_chain genesis rows ≡ head_of_chain genesis rows'
      → contents rows ≡ contents rows'
  same_head_same_history c rows rows' a a' h h' e =
      sym (reverse-reverse (contents rows))
      ∙ ap reverse (
          seal-injective c _ _
            (sym (head_of_chain-intact rows a h) ∙ e ∙ head_of_chain-intact rows' a' h'))
      ∙ reverse-reverse (contents rows')
