-- ===== src/Review/Chain.antt =====
-- review_backend/chain.py: the hash-chained audit trail over the `reviews` table.
-- SHA-256 over the JSON text of a payload is code of Python's libraries: a parameter here, with
-- the type of its digests. The table is the list of its rows in the order of their ids.
pub mod Audit
pub mod Tamper
pub mod Lapses
use close_control.Base.{
  ℕ, String, Option, none, some, List, [], ◌∷◌, ◌++◌, Bool, true, false, ◌+◌, ◌≡◌, ◌↔◌, length,
  get_last?,
}
use close_control.Review.{Status, Decision, Role}
use close_control.Review.Submission.{OverrideField}

-- CHAINED_FIELDS: every column of a review but `id` and `chain_hash`.
pub record Fields : Type 0 where
  pub review_uuid : String
  pub transaction_id : String
  pub reviewer_name : String
  pub reviewer_role : Role
  pub decision : Decision
  pub override_field : Option OverrideField
  pub override_old_value : Option String
  pub override_new_value : Option String
  pub notes : Option String
  pub previous_status : Status
  pub resulting_status : Status
  pub created_at : String
  pub application_version : String

-- The digests, GENESIS_HASH, Python's `==` on digests, and `compute_chain_hash`.
pub record Digest : Type 1 where
  pub Hash : Type 0
  pub genesis : Hash
  pub same : Hash → Hash → Bool
  pub same_iff : (a b : Hash) → (same a b ≡ true) ↔ (a ≡ b)
  pub compute_chain_hash : Hash → Fields → Hash

-- A row: its id, its fields, and its `chain_hash`, which is NULL in a row older than the column.
abbrev pub Row : Type 0 → Type 0
Row Hash = ℕ × Fields × Option Hash

pub record BrokenAt (Hash : Type 0) : Type 0 where
  pub id : ℕ
  pub expected : Hash
  pub stored : Hash

-- The result of `verify_chain`; `rows` holds the id of each row that was walked and its `verified`.
pub record Verification (Hash : Type 0) : Type 0 where
  pub total_rows : ℕ
  pub pre_chain_rows : ℕ
  pub checked : ℕ
  pub broken_at : Option (BrokenAt Hash)
  pub rows : List (ℕ × Option Bool)

-- `broken_at is None`
abbrev pub intact : {Hash : Type 0} → Verification Hash → Bool
intact v = elim v.broken_at [ none ↦ true | some _ ↦ false ]

-- The variables of the loop, but `prev_hash`.
pub record Walk (Hash : Type 0) : Type 0 where
  pub pre_chain_rows : ℕ
  pub checked : ℕ
  pub broken_at : Option (BrokenAt Hash)
  pub verified_rows : List (ℕ × Option Bool)

module _ (d : Digest) where
  open d use {Hash, genesis, same, compute_chain_hash}

  -- `row["chain_hash"] if row and row["chain_hash"] else GENESIS_HASH`
  prev_hash : Option (Row Hash) → Hash
  prev_hash (some (id, fields, some h)) = h
  prev_hash _ = genesis

  -- next_chain_hash(conn, fields), over the rows of the table.
  unfoldable pub next_chain_hash : List (Row Hash) → Fields → Hash
  unfolding prev_hash
  next_chain_hash rows fields = compute_chain_hash (prev_hash (get_last? rows)) fields

  abbrev skip : ℕ → Walk Hash → Walk Hash
  skip id w = record w {
    pre_chain_rows = w.pre_chain_rows + 1;
    verified_rows = w.verified_rows ++ (id, none) ∷ [];
  }

  abbrev pass : ℕ → Walk Hash → Walk Hash
  pass id w = record w {
    checked = w.checked + 1;
    verified_rows = w.verified_rows ++ (id, some true) ∷ [];
  }

  abbrev fail : ℕ → Hash → Hash → Walk Hash → Walk Hash
  fail id expected stored w = record w {
    checked = w.checked + 1;
    verified_rows = w.verified_rows ++ (id, some false) ∷ [];
    broken_at = some (record { id = id; expected = expected; stored = stored });
  }

  -- The loop of `verify_chain`, which the first broken row ends.
  walk : Hash → List (Row Hash) → Walk Hash → Walk Hash
  walk prev [] w = w
  walk prev ((id, fields, none) ∷ rows) w = walk genesis rows (skip id w)
  walk prev ((id, fields, some stored) ∷ rows) w =
      let expected = compute_chain_hash prev fields in
      elim (same expected stored) [
        | true ↦ walk stored rows (pass id w)
        | false ↦ fail id expected stored w
      ]

  abbrev fresh : Walk Hash
  fresh = record { pre_chain_rows = 0; checked = 0; broken_at = none; verified_rows = [] }

  unfoldable pub verify_chain : List (Row Hash) → Verification Hash
  unfolding walk
  verify_chain rows =
      let w = walk genesis rows fresh in
      record {
        total_rows = length rows;
        pre_chain_rows = w.pre_chain_rows;
        checked = w.checked;
        broken_at = w.broken_at;
        rows = w.verified_rows;
      }

  -- The row that `submit_review` inserts.
  unfoldable pub append_row : ℕ → Fields → List (Row Hash) → List (Row Hash)
  append_row id fields rows = rows ++ (id, fields, some (next_chain_hash rows fields)) ∷ []
