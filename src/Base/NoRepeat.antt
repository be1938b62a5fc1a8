-- ===== src/Base/NoRepeat.antt =====
-- Lists of names without repetition.
use Prim.Native.String.{String}
use mathlib.Core.Path.{◌≡◌, refl}
use mathlib.Core.Bool.{Bool, true, false, ◌||◌}
use mathlib.Core.List.{List, [], ◌∷◌, ◌++◌, map}
use native.Mathlib.Omega.{arith}
use text.Mathlib.TextEquality.{eq_iff}
use close_control.Base.Lists.{contains, keep, All}
use mathlib.Core.Logic.{inl, inr}
use close_control.Base.Tests.{Bool-cases}

abbrev pub Distinct : List String → Type 0
Distinct [] = Unit
Distinct (x ∷ xs) = (contains xs x ≡ false) × Distinct xs

-- No name of the second list stands in the first.
abbrev pub Apart : List String → List String → Type 0
Apart xs ys = All (λ y. contains xs y ≡ false) ys

pub contains-append :
    (xs ys : List String) (a : String) → contains (xs ++ ys) a ≡ (contains xs a || contains ys a)
contains-append [] ys a = refl
contains-append (x ∷ xs) ys a = ground (arith, contains-append xs ys a)

pub Apart-head : (x : String) (xs ys : List String) → Apart (x ∷ xs) ys → contains ys x ≡ false
Apart-head x xs [] h = refl
Apart-head x xs (y ∷ ys) h = ground (arith, eq_iff x y, eq_iff y x, Apart-head x xs ys h.1)

Apart-tail : (x : String) (xs ys : List String) → Apart (x ∷ xs) ys → Apart xs ys
Apart-tail x xs [] h = tt
Apart-tail x xs (y ∷ ys) h = (ground arith, Apart-tail x xs ys h.1)

pub Distinct-append :
    (xs ys : List String) → Distinct xs → Distinct ys → Apart xs ys → Distinct (xs ++ ys)
Distinct-append [] ys dx dy h = dy
Distinct-append (x ∷ xs) ys dx dy h = (
  ground (arith, contains-append xs ys x, Apart-head x xs ys h),
  Distinct-append xs ys dx.1 dy (Apart-tail x xs ys h),
)

-- Apart from a joined list is apart from each of its parts.
pub Apart-append : (xs ys zs : List String) → Apart (xs ++ ys) zs → Apart xs zs × Apart ys zs
Apart-append xs ys [] h = (tt, tt)
Apart-append xs ys (z ∷ zs) h =
    let (left, right) = Apart-append xs ys zs h.1 in
    (
      (ground (arith, contains-append xs ys z), left),
      (ground (arith, contains-append xs ys z), right),
    )

module _ {ℓ} {A : Type ℓ} where
  pub All-keep {κ} : (P : A → Type κ) (p : A → Bool) (xs : List A) → All P xs → All P (keep p xs)
  All-keep P p [] h = tt
  All-keep P p (x ∷ xs) h = elim (Bool-cases (p x)) [
    | inl e ↦ rw (e, All) (h.0, All-keep P p xs h.1)
    | inr e ↦ rw (e, All) (All-keep P p xs h.1)
  ]

  pub All-keep_self : (p : A → Bool) (xs : List A) → All (λ x. p x ≡ true) (keep p xs)
  All-keep_self p [] = tt
  All-keep_self p (x ∷ xs) = elim (Bool-cases (p x)) [
    | inl e ↦ rw (e, All) (e, All-keep_self p xs)
    | inr e ↦ rw (e, All) (All-keep_self p xs)
  ]

  pub All-imp {κ μ} :
      {P : A → Type κ} {Q : A → Type μ} (f : (x : A) → P x → Q x) (xs : List A)
      → All P xs
      → All Q xs
  All-imp f [] h = tt
  All-imp f (x ∷ xs) h = (f x h.0, All-imp f xs h.1)

module _ {ℓ} {A : Type ℓ} (key : A → String) (p : A → Bool) where
  contains-map-keep :
      (xs : List A) (name : String)
      → contains (map key xs) name ≡ false
      → contains (map key (keep p xs)) name ≡ false
  contains-map-keep [] name h = refl
  contains-map-keep (x ∷ xs) name h = elim (Bool-cases (p x)) [
    | inl e ↦ rw (e, contains) (ground (arith, contains-map-keep xs name))
    | inr e ↦ rw (e, contains) (contains-map-keep xs name (ground arith))
  ]

  pub Distinct-map-keep : (xs : List A) → Distinct (map key xs) → Distinct (map key (keep p xs))
  Distinct-map-keep [] h = tt
  Distinct-map-keep (x ∷ xs) h = elim (Bool-cases (p x)) [
    | inl e ↦ rw (e, Distinct) (contains-map-keep xs (key x) h.0, Distinct-map-keep xs h.1)
    | inr e ↦ rw (e, Distinct) (Distinct-map-keep xs h.1)
  ]
