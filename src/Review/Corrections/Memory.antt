-- ===== src/Review/Corrections/Memory.antt =====
-- What a prompt shows of the correction log of corrections.py, after the reviews that wrote it.
use mathlib.Core.Path.{subst}
use mathlib.Core.List.{append-nil, append_assoc}
use close_control.Base.{
  ◌≡◌, refl, sym, ap, ◌∙◌, String, Option, none, some, List, [], ◌∷◌, ◌++◌, ◌&&◌, Bool, true, arith,
  eq_iff, keep, keep-append, get_last?, get_last?-concat, Bool-cases, inl, inr, if◌then◌else◌,
}
use close_control.Review.Submission.{ReviewSubmission}
use close_control.Review.Chain.{Digest}
use close_control.Review.Cases.{CaseRow, find_case}
use close_control.Review.Store.{
  Outside, Response, Accepted, Db, Correction, is_override, post_review,
}
use close_control.Review.Store.Corrected.{entry_of, Logs, post_review-Logs}
use close_control.Review.Corrections.{
  same_type, ByType, add_entry, load_from, load_corrections, entries_of, line_of, latest,
  correction_block_for,
}

abbrev pub of_type : Option String → Correction → Bool
of_type type c = same_type c.matcher_exception_type type

same_type-swap : (a b c : Option String) → same_type a b ≡ true → same_type a c ≡ same_type b c
same_type-swap none none c h = refl
same_type-swap none (some b) c h = absurd (ground arith)
same_type-swap (some a) none c h = absurd (ground arith)
same_type-swap (some a) (some b) c h = ap (λ x. same_type (some x) c) ((eq_iff a b).0 h)

same_type_comm : (a b : Option String) → same_type a b ≡ same_type b a
same_type_comm none none = refl
same_type_comm none (some b) = refl
same_type_comm (some a) none = refl
same_type_comm (some a) (some b) = ground (arith, eq_iff a b, eq_iff b a)

same_type_refl : (a : Option String) → same_type a a ≡ true
same_type_refl none = refl
same_type_refl (some a) = (eq_iff a a).1 refl

entries_of-add_entry :
    (type : Option String) (c : Correction) (by_type : ByType)
    → entries_of type (add_entry c by_type)
      ≡ entries_of type by_type ++ keep (of_type type) (c ∷ [])
unfolding entries_of add_entry
entries_of-add_entry type c [] = refl
entries_of-add_entry type c ((key, entries) ∷ by_type) =
    let rest = entries_of-add_entry type c by_type in
    elim (Bool-cases (same_type key c.matcher_exception_type)) [
      | inl e ↦
          let swap = same_type-swap key c.matcher_exception_type type e in
          elim (Bool-cases (same_type key type)) [
            | inl k ↦ rw (e, k, sym swap ∙ k) refl
            | inr k ↦ rw (e, k, sym swap ∙ k) (sym (append-nil (entries_of type by_type)))
          ]
      | inr e ↦ elim (Bool-cases (same_type key type)) [
        | inl k ↦
            let apart =
              same_type_comm c.matcher_exception_type type
              ∙ (sym (same_type-swap key type c.matcher_exception_type k) ∙ e) in
            rw (e, k, apart) (sym (append-nil entries))
        | inr k ↦ simp (e, k) rest
      ]
    ]

entries_of-load_from :
    (type : Option String) (by_type : ByType) (log : List Correction)
    → entries_of type (load_from by_type log) ≡ entries_of type by_type ++ keep (of_type type) log
unfolding load_from
entries_of-load_from type by_type [] = sym (append-nil (entries_of type by_type))
entries_of-load_from type by_type (c ∷ log) =
    entries_of-load_from type (add_entry c by_type) log
    ∙ (ap (λ found. found ++ keep (of_type type) log) (entries_of-add_entry type c by_type)
        ∙ (append_assoc (entries_of type by_type) (keep (of_type type) (c ∷ []))
              (keep (of_type type) log)
            ∙ ap (λ kept. entries_of type by_type ++ kept)
                (sym (keep-append (of_type type) (c ∷ []) log))))

-- The entries of a type are those of the log with that type, in the order of the log.
pub entries_of-load_corrections :
    (type : Option String) (log : List Correction)
    → entries_of type (load_corrections log) ≡ keep (of_type type) log
unfolding load_corrections entries_of
entries_of-load_corrections type log = entries_of-load_from type [] log

correction_block_for-concat :
    (type : Option String) (log : List Correction) (c : Correction)
    → correction_block_for type (log ++ c ∷ [])
      ≡ (if of_type type c then line_of c ∷ [] else correction_block_for type log)
unfolding correction_block_for
correction_block_for-concat type log c =
    let all =
      entries_of-load_corrections type (log ++ c ∷ []) ∙ keep-append (of_type type) log (c ∷ []) in
    let before = entries_of-load_corrections type log in
    elim (Bool-cases (of_type type c)) [
      | inl e ↦
          ap (λ found. latest (get_last? found)) all
          ∙ rw e (ap latest (get_last?-concat (keep (of_type type) log) c))
      | inr e ↦
          ap (λ found. latest (get_last? found)) all
          ∙ rw e (
              ap (λ found. latest (get_last? found))
                (append-nil (keep (of_type type) log) ∙ sym before))
    ]

module _ (d : Digest) where
  open d use {Hash}

  -- After an accepted override, where the log can be written, a prompt for the exception type of the
  -- case shows this override alone, and a prompt for any other type shows what it showed before.
  pub correction_block_for-post_review :
      (o : Outside) (id : String) (s : ReviewSubmission) (db db' : Db Hash) (a : Accepted)
      (type : Option String)
      → post_review d o id s db ≡ (Response.accepted a, db')
      → is_override s.decision ≡ true
      → o.log_writable ≡ true
      → (c : CaseRow) × ((find_case id db.cases ≡ some c)
          × (correction_block_for type db'.corrections ≡ (
              if same_type c.matcher_exception_type type
              then line_of (entry_of o id c s) ∷ []
              else correction_block_for type db.corrections)))
  unfolding entry_of
  correction_block_for-post_review o id s db db' a type e overrides writable =
      let (c, (found, log)) = subst (Logs d o id s db) e (post_review-Logs d o id s db) in
      let both : (is_override s.decision && o.log_writable) ≡ true =
        ground (arith, overrides, writable) in
      let now : db'.corrections ≡ db.corrections ++ entry_of o id c s ∷ [] =
        log
        ∙ ap (λ b. if b then db.corrections ++ entry_of o id c s ∷ [] else db.corrections) both in
      (
        c,
        (
          found,
          ap (correction_block_for type) now
              ∙ correction_block_for-concat type db.corrections (entry_of o id c s),
        ),
      )
