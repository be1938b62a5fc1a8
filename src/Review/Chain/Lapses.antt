-- ===== src/Review/Chain/Lapses.antt =====
-- What the chain of review_backend/chain.py does not detect.
use close_control.Base.{◌≡◌, List, ◌++◌, true}
use close_control.Review.Chain.{Digest, Row, intact, verify_chain}
use close_control.Review.Chain.Audit.{Linked-append, verify_chain-Linked}

module _ (d : Digest) where
  -- A table whose latest rows have been deleted is found intact whenever the whole table was.
  pub truncation_undetected :
      (rows lost : List (Row d.Hash))
      → intact (verify_chain d (rows ++ lost)) ≡ true
      → intact (verify_chain d rows) ≡ true
  truncation_undetected rows lost h =
      (verify_chain-Linked d rows).1
        ((Linked-append d d.genesis rows lost).0 ((verify_chain-Linked d _).0 h)).0
