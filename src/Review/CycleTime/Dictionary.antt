-- ===== src/Review/CycleTime/Dictionary.antt =====
-- The dictionaries of review_backend/cycle_time.py, and the list that is made of their keys.
use close_control.Base.{
  ◌≡◌, refl, ap, suc, String, List, [], ◌∷◌, ◌++◌, map, Bool, true, ◌&&◌, ◌||◌, inl, inr, arith,
  str_eq, eq_iff, contains, length, keep, All, Bool-cases, if◌then◌else◌,
}
use close_control.Review.CycleTime.{ByStatus, append_at, entries_at, keys}

pub entries_at-append_at :
    {A : Type 0} (t s : String) (x : A) (by_status : ByStatus A)
    → entries_at t (append_at s x by_status)
      ≡ (if str_eq s t then entries_at t by_status ++ x ∷ [] else entries_at t by_status)
unfolding append_at entries_at
entries_at-append_at t s x [] = refl
entries_at-append_at t s x ((key, xs) ∷ by_status) =
    let rest = entries_at-append_at t s x by_status in
    ground (arith, rest, eq_iff key s, eq_iff key t, eq_iff s t, eq_iff s key)

pub keys-append_at :
    {A : Type 0} (t s : String) (x : A) (by_status : ByStatus A)
    → contains (keys (append_at s x by_status)) t ≡ (str_eq t s || contains (keys by_status) t)
unfolding append_at
keys-append_at t s x [] = refl
keys-append_at t s x ((key, xs) ∷ by_status) =
    let rest = keys-append_at t s x by_status in
    ground (arith, rest, eq_iff key s, eq_iff s key, eq_iff t key, eq_iff t s)

pub length-map : {A B : Type 0} (f : A → B) (xs : List A) → length (map f xs) ≡ length xs
length-map f [] = refl
length-map f (x ∷ xs) = ap suc (length-map f xs)

pub All-map-keep :
    {A B : Type 0} (P : B → Type 0) (f : A → B) (p : A → Bool) (xs : List A)
    → ((x : A) → p x ≡ true → P (f x))
    → All P (map f (keep p xs))
All-map-keep P f p [] h = tt
All-map-keep P f p (x ∷ xs) h = elim (Bool-cases (p x)) [
  | inl e ↦ rw e (h x e, All-map-keep P f p xs h)
  | inr e ↦ rw e (All-map-keep P f p xs h)
]

pub contains-keep :
    (p : String → Bool) (xs : List String) (s : String)
    → contains (keep p xs) s ≡ (p s && contains xs s)
contains-keep p [] s = ground arith
contains-keep p (x ∷ xs) s = ground (arith, contains-keep p xs s, eq_iff s x)

pub keys-pairs :
    {A : Type 0} (f : String → A) (xs : List String)
    → map {A = String × A} (λ entry. entry.0) (map (λ s. (s, f s)) xs) ≡ xs
keys-pairs f [] = refl
keys-pairs f (x ∷ xs) = ap (λ rest. x ∷ rest) (keys-pairs f xs)
