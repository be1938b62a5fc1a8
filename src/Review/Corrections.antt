-- ===== src/Review/Corrections.antt =====
-- corrections.py: the log of the overrides, and what a prompt shows of it. A line of the file is its
-- entry; the prompt's fixed text is left out, so a block is the list of its lines.
pub mod Memory
use close_control.Base.{
  ℕ, ◌+◌, String, Option, none, some, List, [], ◌∷◌, ◌++◌, map, Bool, true, false, str_eq, length,
  get_last?, if◌then◌else◌,
}
use close_control.Review.Submission.{OverrideField}
use close_control.Review.Store.{Correction}

abbrev pub same_type : Option String → Option String → Bool
same_type none none = true
same_type (some a) (some b) = str_eq a b
same_type _ _ = false

-- A dictionary from the exception types, in the order of its keys.
abbrev pub ByType : Type 0
ByType = List (Option String × List Correction)

-- `by_type.setdefault(type, []).append(entry)`
unfoldable pub add_entry : Correction → ByType → ByType
add_entry c [] = (c.matcher_exception_type, c ∷ []) ∷ []
add_entry c ((key, entries) ∷ by_type) =
    let rest = add_entry c by_type in
    if same_type key c.matcher_exception_type
    then (key, entries ++ c ∷ []) ∷ by_type
    else (key, entries) ∷ rest

unfoldable pub load_from : ByType → List Correction → ByType
unfolding add_entry
load_from by_type [] = by_type
load_from by_type (c ∷ log) = load_from (add_entry c by_type) log

-- load_corrections(data_dir), over the lines of the file; no file is an empty one.
unfoldable pub load_corrections : List Correction → ByType
unfolding load_from
load_corrections log = load_from [] log

-- `by_type.get(exception_type, [])`
unfoldable pub entries_of : Option String → ByType → List Correction
entries_of type [] = []
entries_of type ((key, entries) ∷ by_type) =
    let rest = entries_of type by_type in if same_type key type then entries else rest

pub record Line : Type 0 where
  pub override_field : Option OverrideField
  pub override_old_value : Option String
  pub override_new_value : Option String
  pub reason : Option String

abbrev pub line_of : Correction → Line
line_of c = record {
  override_field = c.override_field;
  override_old_value = c.override_old_value;
  override_new_value = c.override_new_value;
  reason = c.reason;
}

-- `corrections[-MAX_CORRECTIONS_PER_TYPE:]`, which is the last one.
abbrev pub latest : Option Correction → List Line
latest none = []
latest (some c) = line_of c ∷ []

-- correction_block_for(exception_type, data_dir)
unfoldable pub correction_block_for : Option String → List Correction → List Line
unfolding load_corrections entries_of
correction_block_for type log = latest (get_last? (entries_of type (load_corrections log)))

-- `sum(len(v) for v in by_type.values())`
unfoldable pub total_corrections : ByType → ℕ
total_corrections [] = 0
total_corrections ((key, entries) ∷ by_type) = length entries + total_corrections by_type
