-- ===== src/Prelude/Sort.antt =====
-- `sort.Strings` and `sort.Slice` by a string key: a sorted permutation, computed by insertion.
use mathlib.Core.Path.{◌≡◌, refl, subst}
use mathlib.Core.Bool.{true, false, ◌||◌}
use mathlib.Core.List.{List, [], ◌∷◌, Perm}
use mathlib.Core.List.Perm
use mathlib.Core.Logic.{inl, inr}
use native.Mathlib.Omega.{arith}
use scala_gazelle.Prelude.Tests.{Eq, ◌==◌, if◌then◌else◌, Bool-cases}
use scala_gazelle.Prelude.Lists.{All, All-map, contains}
use scala_gazelle.Prelude.Text.{Str, str_lt}

-- a is not after b
abbrev pub Leq : Str → Str → Type 0
Leq s t = str_lt t s ≡ false

pub Leq-trans : (s t u : Str) → Leq s t → Leq t u → Leq s u
Leq-trans [] t [] h k = refl
Leq-trans [] t (c ∷ u) h k = refl
Leq-trans (a ∷ s) [] u h k = ground arith
Leq-trans (a ∷ s) (b ∷ t) [] h k = ground arith
Leq-trans (a ∷ s) (b ∷ t) (c ∷ u) h k = ground (arith, Leq-trans s t u)

str_lt_asym : (s t : Str) → str_lt s t ≡ true → Leq s t
str_lt_asym [] [] h = refl
str_lt_asym [] (b ∷ t) h = refl
str_lt_asym (a ∷ s) [] h = ground arith
str_lt_asym (a ∷ s) (b ∷ t) h = ground (arith, str_lt_asym s t)

module _ {ℓ} {A : Type ℓ} where
  abbrev pub insert_by : (A → Str) → A → List A → List A
  insert_by f x [] = x ∷ []
  insert_by f x (y ∷ ys) = if str_lt (f y) (f x) then y ∷ insert_by f x ys else x ∷ y ∷ ys

  abbrev pub sort_by : (A → Str) → List A → List A
  sort_by f [] = []
  sort_by f (x ∷ xs) = insert_by f x (sort_by f xs)

  abbrev pub SortedBy : (A → Str) → List A → Type 0
  SortedBy f [] = Unit
  SortedBy f (x ∷ xs) = All (λ y. Leq (f x) (f y)) xs × SortedBy f xs

module _ {ℓ} {A : Type ℓ} where
  All-insert_by {κ} :
      (P : A → Type κ) (f : A → Str) (x : A) (ys : List A)
      → P x
      → All P ys
      → All P (insert_by f x ys)
  All-insert_by P f x [] h k = (h, tt)
  All-insert_by P f x (y ∷ ys) h k = elim (Bool-cases (str_lt (f y) (f x))) [
    | inl e ↦ rw e (k.0, All-insert_by P f x ys h k.1)
    | inr e ↦ rw e (h, k)
  ]

  pub All-sort_by {κ} :
      (P : A → Type κ) (f : A → Str) (xs : List A) → All P xs → All P (sort_by f xs)
  All-sort_by P f [] h = h
  All-sort_by P f (x ∷ xs) h = All-insert_by P f x (sort_by f xs) h.0 (All-sort_by P f xs h.1)

  All-insert_by_inverse {κ} :
      (P : A → Type κ) (f : A → Str) (x : A) (ys : List A)
      → All P (insert_by f x ys)
      → P x × All P ys
  All-insert_by_inverse P f x [] h = (h.0, tt)
  All-insert_by_inverse P f x (y ∷ ys) h = elim (Bool-cases (str_lt (f y) (f x))) [
    | inl e ↦
        let own : All P (y ∷ insert_by f x ys) =
          subst (λ b. All P (if b then y ∷ insert_by f x ys else x ∷ y ∷ ys)) e h in
        let rest = All-insert_by_inverse P f x ys own.1 in (rest.0, (own.0, rest.1))
    | inr e ↦
        let own : All P (x ∷ y ∷ ys) =
          subst (λ b. All P (if b then y ∷ insert_by f x ys else x ∷ y ∷ ys)) e h in
        (own.0, (own.1.0, own.1.1))
  ]

  pub All-sort_by_inverse {κ} :
      (P : A → Type κ) (f : A → Str) (xs : List A) → All P (sort_by f xs) → All P xs
  All-sort_by_inverse P f [] h = h
  All-sort_by_inverse P f (x ∷ xs) h =
      let own = All-insert_by_inverse P f x (sort_by f xs) h in
      (own.0, All-sort_by_inverse P f xs own.1)

  insert_by-SortedBy :
      (f : A → Str) (x : A) (ys : List A) → SortedBy f ys → SortedBy f (insert_by f x ys)
  insert_by-SortedBy f x [] h = (tt, tt)
  insert_by-SortedBy f x (y ∷ ys) h = elim (Bool-cases (str_lt (f y) (f x))) [
    | inl e ↦ rw e (
      All-insert_by (λ z. Leq (f y) (f z)) f x ys (str_lt_asym (f y) (f x) e) h.0,
      insert_by-SortedBy f x ys h.1,
    )
    | inr e ↦ rw e (
      (
        e,
        All-map (λ z. Leq (f y) (f z)) (λ z. Leq (f x) (f z)) ys
            (λ z k. Leq-trans (f x) (f y) (f z) e k) h.0,
      ),
      h,
    )
  ]

  pub sort_by-SortedBy : (f : A → Str) (xs : List A) → SortedBy f (sort_by f xs)
  sort_by-SortedBy f [] = tt
  sort_by-SortedBy f (x ∷ xs) = insert_by-SortedBy f x (sort_by f xs) (sort_by-SortedBy f xs)

  insert_by-perm : (f : A → Str) (x : A) (ys : List A) → Perm (insert_by f x ys) (x ∷ ys)
  insert_by-perm f x [] = Perm.refl (x ∷ [])
  insert_by-perm f x (y ∷ ys) = elim (Bool-cases (str_lt (f y) (f x))) [
    | inl e ↦ rw e (Perm.trans (Perm.cons y (insert_by-perm f x ys)) (Perm.swap x y ys))
    | inr e ↦ rw e (Perm.refl (x ∷ y ∷ ys))
  ]

  pub sort_by-perm : (f : A → Str) (xs : List A) → Perm (sort_by f xs) xs
  sort_by-perm f [] = Perm.refl []
  sort_by-perm f (x ∷ xs) =
      Perm.trans (insert_by-perm f x (sort_by f xs)) (Perm.cons x (sort_by-perm f xs))

module _ {ℓ} {A : Type ℓ} ⦃e : Eq A⦄ where
  contains-insert_by :
      (f : A → Str) (a x : A) (ys : List A)
      → contains a (insert_by f x ys) ≡ (a == x || contains a ys)
  contains-insert_by f a x [] = refl
  contains-insert_by f a x (y ∷ ys) = ground (arith, contains-insert_by f a x ys)

  pub contains-sort_by :
      (f : A → Str) (a : A) (xs : List A) → contains a (sort_by f xs) ≡ contains a xs
  contains-sort_by f a [] = refl
  contains-sort_by f a (x ∷ xs) =
      ground (arith, contains-insert_by f a x (sort_by f xs), contains-sort_by f a xs)
