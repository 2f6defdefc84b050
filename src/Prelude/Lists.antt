-- ===== src/Prelude/Lists.antt =====
-- Lists measured by native numbers, membership tests and predicates by recursion.
use Prim.Native.Nat.{ℕ, zero, suc, ◌+◌, ◌≤◌}
use mathlib.Core.Path.{◌≡◌, refl, ap}
use mathlib.Core.Bool.{Bool, true, false, ◌||◌}
use mathlib.Core.Logic.{◌⊎◌, inl, inr}
use mathlib.Core.List.{List, [], ◌∷◌, ◌++◌, map}
use mathlib.Core.Option.{Option, none, some}
use native.Mathlib.Omega.{arith}
use native.Mathlib.Nat.{zero-add, add-zero, suc-add}
use scala_gazelle.Prelude.Tests.{Eq, ◌==◌, if◌then◌else◌}

module _ {ℓ} {A : Type ℓ} where
  abbrev pub length : List A → ℕ
  length [] = 0
  length (x ∷ xs) = suc (length xs)

  abbrev pub take : ℕ → List A → List A
  take zero xs = []
  take (suc n) [] = []
  take (suc n) (x ∷ xs) = x ∷ take n xs

  abbrev pub drop : ℕ → List A → List A
  drop zero xs = xs
  drop (suc n) [] = []
  drop (suc n) (x ∷ xs) = drop n xs

  pub length-append : (xs ys : List A) → length (xs ++ ys) ≡ length xs + length ys
  length-append [] ys = omega arith
  length-append (x ∷ xs) ys = omega (arith, length-append xs ys)

  pub take-append-drop : (n : ℕ) (xs : List A) → take n xs ++ drop n xs ≡ xs
  take-append-drop zero xs = refl
  take-append-drop (suc n) [] = refl
  take-append-drop (suc n) (x ∷ xs) = ap (◌∷◌ x) (take-append-drop n xs)

  pub drop-append : (xs ys : List A) → drop (length xs) (xs ++ ys) ≡ ys
  drop-append [] ys = refl
  drop-append (x ∷ xs) ys = drop-append xs ys

  pub take-append : (xs ys : List A) → take (length xs) (xs ++ ys) ≡ xs
  take-append [] ys = refl
  take-append (x ∷ xs) ys = ap (◌∷◌ x) (take-append xs ys)

abbrev pub All {ℓ κ} : {A : Type ℓ} → (A → Type κ) → List A → Type κ
All P [] = Unit
All P (x ∷ xs) = P x × All P xs

pub All-append {ℓ κ} :
    {A : Type ℓ} (P : A → Type κ) (xs ys : List A) → All P xs → All P ys → All P (xs ++ ys)
All-append P [] ys h k = k
All-append P (x ∷ xs) ys h k = (h.0, All-append P xs ys h.1 k)

pub All-map {ℓ κ μ} :
    {A : Type ℓ} (P : A → Type κ) (Q : A → Type μ) (xs : List A)
    → ((a : A) → P a → Q a)
    → All P xs
    → All Q xs
All-map P Q [] f h = tt
All-map P Q (x ∷ xs) f h = (f x h.0, All-map P Q xs f h.1)

-- `find`: the first item that passes the test.
abbrev pub find {ℓ} : {A : Type ℓ} → (A → Bool) → List A → Option A
find p [] = none
find p (x ∷ xs) = if p x then some x else find p xs

module _ {ℓ} {A : Type ℓ} ⦃e : Eq A⦄ where
  abbrev pub contains : A → List A → Bool
  contains a [] = false
  contains a (x ∷ xs) = a == x || contains a xs

  abbrev pub Distinct : List A → Type 0
  Distinct [] = Unit
  Distinct (x ∷ xs) = (contains x xs ≡ false) × Distinct xs

  pub contains-append :
      (a : A) (xs ys : List A) → contains a (xs ++ ys) ≡ (contains a xs || contains a ys)
  contains-append a [] ys = refl
  contains-append a (x ∷ xs) ys = ground (arith, contains-append a xs ys)

  pub Distinct-snoc :
      (a : A) (xs : List A) → Distinct xs → contains a xs ≡ false → Distinct (xs ++ a ∷ [])
  Distinct-snoc a [] d h = (refl, tt)
  Distinct-snoc a (x ∷ xs) d h = (
    ground (arith, contains-append x xs (a ∷ []), e.same_iff a x, e.same_iff x a, d.0),
    Distinct-snoc a xs d.1 (ground arith),
  )

  pub contains-middle : (k : A) (xs ys : List A) → Distinct (xs ++ k ∷ ys) → contains k xs ≡ false
  contains-middle k [] ys h = refl
  contains-middle k (x ∷ xs) ys h = ground (
    arith,
    h.0,
    contains-append x xs (k ∷ ys),
    e.same_iff x k,
    e.same_iff k x,
    contains-middle k xs ys h.1,
  )

-- `p == nil`
abbrev pub is_nil {ℓ} : {A : Type ℓ} → Option A → Bool
is_nil none = true
is_nil (some a) = false

-- To split on a computed option and keep the equation.
pub Option-cases {ℓ} : {A : Type ℓ} (o : Option A) → (o ≡ none) ⊎ ((a : A) × (o ≡ some a))
Option-cases none = inl refl
Option-cases (some a) = inr (a, refl)

module _ {ℓ} {A : Type ℓ} where
  -- What stands at an offset: the end of the list, or an item and what follows it.
  pub drop_view :
      (n : ℕ) (xs : List A)
      → ((drop n xs ≡ []) × (length xs ≤ n))
        ⊎ ((x : A) × (rest : List A) × (drop n xs ≡ x ∷ rest)
            × (drop (suc n) xs ≡ rest)
            × (n + length rest + 1 ≡ length xs))
  drop_view zero [] = inl (refl, omega arith)
  drop_view zero (x ∷ xs) = inr (x, xs, refl, refl, omega arith)
  drop_view (suc n) [] = inl (refl, omega arith)
  drop_view (suc n) (x ∷ xs) = elim (drop_view n xs) [
    | inl (e, h) ↦ inl (e, omega arith)
    | inr (y, rest, e, e', h) ↦ inr (y, rest, e, e', omega arith)
  ]

  pub drop-add : (n m : ℕ) (xs : List A) → drop (n + m) xs ≡ drop m (drop n xs)
  drop-add zero m xs = rw zero-add
  drop-add (suc n) zero [] = rw add-zero
  drop-add (suc n) (suc m) [] = rw suc-add
  drop-add (suc n) m (x ∷ xs) = rw suc-add (drop-add n m xs)

module _ {ℓ} {A : Type ℓ} where
  abbrev pub last? : List A → Option A
  last? [] = none
  last? (x ∷ xs) = elim (last? xs) [ none ↦ some x | some y ↦ some y ]

  abbrev pub or_else : Option A → Option A → Option A
  or_else none b = b
  or_else (some a) b = some a

  abbrev pub to_list : Option A → List A
  to_list none = []
  to_list (some a) = a ∷ []

  pub last?-append : (xs ys : List A) → last? (xs ++ ys) ≡ or_else (last? ys) (last? xs)
  last?-append [] ys = ground arith
  last?-append (x ∷ xs) ys = ground (arith, last?-append xs ys)

  -- the nonempty prefixes of a list, the longest first
  abbrev pub longest_first : List A → List (List A)
  longest_first [] = []
  longest_first (x ∷ xs) = map (◌∷◌ x) (longest_first xs) ++ (x ∷ []) ∷ []

module _ {ℓ κ} {A : Type ℓ} {B : Type κ} where
  -- the first value that the function has on the list
  abbrev pub first_some : (A → Option B) → List A → Option B
  first_some f [] = none
  first_some f (x ∷ xs) = or_else (f x) (first_some f xs)

  pub first_some-append :
      (f : A → Option B) (xs ys : List A)
      → first_some f (xs ++ ys) ≡ or_else (first_some f xs) (first_some f ys)
  first_some-append f [] ys = refl
  first_some-append f (x ∷ xs) ys = ground (arith, first_some-append f xs ys)

  pub first_some-cong :
      (f g : A → Option B) (xs : List A) → ((x : A) → f x ≡ g x) → first_some f xs ≡ first_some g xs
  first_some-cong f g [] h = refl
  first_some-cong f g (x ∷ xs) h = ground (arith, h x, first_some-cong f g xs h)

  pub first_some-none :
      (f : A → Option B) (xs : List A) → ((x : A) → f x ≡ none) → first_some f xs ≡ none
  first_some-none f [] h = refl
  first_some-none f (x ∷ xs) h = ground (arith, h x, first_some-none f xs h)

module _ {ℓ κ μ} {A : Type ℓ} {B : Type κ} {C : Type μ} where
  pub first_some-map :
      (f : B → Option C) (g : A → B) (xs : List A)
      → first_some f (map g xs) ≡ first_some (λ x. f (g x)) xs
  first_some-map f g [] = refl
  first_some-map f g (x ∷ xs) = rw (first_some-map f g xs)

-- A call that returns, or a panic (`log.Panicf`, a nil dereference).
pub data Outcome {ℓ} (A : Type ℓ) : Type ℓ where
  returned : A → Outcome A
  panicked : Outcome A

pub Outcome-cases {ℓ} : {A : Type ℓ} (o : Outcome A) → (o ≡ panicked) ⊎ ((a : A) × (o ≡ returned a))
Outcome-cases panicked = inl refl
Outcome-cases (returned a) = inr (a, refl)

-- A call that returns a value, or an error.
pub data Result {ℓ κ} (E : Type ℓ) (A : Type κ) : Type (ℓ ⊔ κ) where
  ok : A → Result E A
  failed : E → Result E A

pub Result-cases {ℓ κ} :
    {E : Type ℓ} {A : Type κ} (r : Result E A) → ((e : E) × (r ≡ failed e)) ⊎ ((a : A) × (r ≡ ok a))
Result-cases (failed e) = inl (e, refl)
Result-cases (ok a) = inr (a, refl)
