-- ===== src/Language/ScalaRule/Imports/Ending.antt =====
-- When the loop that gathers implicit imports ends.
use scala_gazelle.Prelude.{
  ℕ, zero, suc, ◌+◌, ◌<◌, ◌≤◌, Str, str_has_eq, str_eq_iff, Bool, true, false, ◌||◌, none, List, [],
  ◌∷◌, contains, ◌≡◌, ◌≢◌, refl, arith,
}
use scala_gazelle.Resolver.Import.{new_implicit_import}
use scala_gazelle.Resolver.ImportMap
use scala_gazelle.Resolver.ImportMap.{OrderedImportMap}
use scala_gazelle.Language.ScalaRule.Imports.{StringStack, put_implicit, gather}

abbrev pub total : (Str → ℕ) → List Str → ℕ
total f [] = 0
total f (x ∷ xs) = f x + total f xs

total-put_implicit :
    (f : Str → ℕ) (src : Str) (dsts required : List Str) (m : OrderedImportMap)
    → total f (put_implicit src dsts (required, m)).0 ≡ total f required + total f dsts
unfolding put_implicit
total-put_implicit f src [] required m = ground arith
total-put_implicit f src (d ∷ dsts) required m = ground (
  arith,
  total-put_implicit f src dsts (d ∷ required) (ImportMap.put (new_implicit_import d src) m),
)

abbrev pub any_of : (Str → Bool) → List Str → Bool
any_of p [] = false
any_of p (x ∷ xs) = p x || any_of p xs

any_of-put_implicit :
    (p : Str → Bool) (src : Str) (dsts required : List Str) (m : OrderedImportMap)
    → any_of p (put_implicit src dsts (required, m)).0 ≡ (any_of p required || any_of p dsts)
unfolding put_implicit
any_of-put_implicit p src [] required m = ground arith
any_of-put_implicit p src (d ∷ dsts) required m = ground (
  arith,
  any_of-put_implicit p src dsts (d ∷ required) (ImportMap.put (new_implicit_import d src) m),
)

module _ (implicit : Str → List Str) where
  -- the rounds that a name causes, with the names behind it counted to a depth
  abbrev pub rounds : ℕ → Str → ℕ
  rounds zero k = 0
  rounds (suc depth) k = suc (total (rounds depth) (implicit k))

  total_mono : (f g : Str → ℕ) (xs : List Str) → ((k : Str) → f k ≤ g k) → total f xs ≤ total g xs
  total_mono f g [] h = ground arith
  total_mono f g (x ∷ xs) h = ground (arith, h x, total_mono f g xs h)

  rounds_mono : (a b : ℕ) (k : Str) → a ≤ b → rounds a k ≤ rounds b k
  rounds_mono zero b k h = ground arith
  rounds_mono (suc a) zero k h = ground arith
  rounds_mono (suc a) (suc b) k h =
      ground
        (arith, total_mono (rounds a) (rounds b) (implicit k) λ j. rounds_mono a b j (omega arith))

-- the rounds that a name causes, by its rank
abbrev pub rounds_of : (Str → List Str) → (Str → ℕ) → Str → ℕ
rounds_of implicit rank k = rounds implicit (suc (rank k)) k

module _ (implicit : Str → List Str) (rank : Str → ℕ) where
  -- implicit imports have lower ranks
  abbrev pub IsRanked : Type 0
  IsRanked = (k d : Str) → contains d (implicit k) ≡ true → rank d < rank k

  total-lower :
      (n : ℕ) (ds : List Str)
      → ((d : Str) → contains d ds ≡ true → rank d < n)
      → total (rounds_of implicit rank) ds ≤ total (rounds implicit n) ds
  total-lower n [] h = ground arith
  total-lower n (d ∷ ds) h =
      let here : rank d < n = h d (ground (arith, str_eq_iff d d)) in
      let first : rounds_of implicit rank d ≤ rounds implicit n d =
        rounds_mono implicit (suc (rank d)) n d (omega arith) in
      let rest : total (rounds_of implicit rank) ds ≤ total (rounds implicit n) ds =
        total-lower n ds (λ e k. h e (ground (arith, k))) in
      omega arith

  -- Let implicit imports have lower ranks than the names that cause them. Then the loop ends within as
  -- many rounds as the names on the stack cause by their ranks, and one more.
  pub gather-ends :
      (fuel : ℕ) (required : StringStack) (m : OrderedImportMap)
      → IsRanked
      → total (rounds_of implicit rank) required < fuel
      → gather implicit fuel required m ≢ none
  unfolding gather
  gather-ends zero required m r h = ground arith
  gather-ends (suc fuel) [] m r h = ground arith
  gather-ends (suc fuel) (src ∷ required) m r h =
      let lower : total (rounds_of implicit rank) (implicit src)
          ≤ total (rounds implicit (rank src)) (implicit src) =
        total-lower (rank src) (implicit src) (r src) in
      gather-ends fuel (put_implicit src (implicit src) (required, m)).0
        (put_implicit src (implicit src) (required, m)).1 r
        (ground (
          arith,
          lower,
          h,
          total-put_implicit (rounds_of implicit rank) src (implicit src) required m,
        ))

-- every name of a set has an implicit import in it
abbrev pub IsCyclic : (Str → List Str) → (Str → Bool) → Type 0
IsCyclic implicit p = (k : Str) → p k ≡ true → any_of p (implicit k) ≡ true

-- Let every name of a set have an implicit import in the set. Then the loop never ends once such a name
-- is on the stack: no fuel suffices.
pub gather-cyclic :
    (implicit : Str → List Str) (p : Str → Bool) (fuel : ℕ) (required : StringStack)
    (m : OrderedImportMap)
    → IsCyclic implicit p
    → any_of p required ≡ true
    → gather implicit fuel required m ≡ none
unfolding gather
gather-cyclic implicit p zero required m c h = refl
gather-cyclic implicit p (suc fuel) [] m c h = ground (arith, h)
gather-cyclic implicit p (suc fuel) (src ∷ required) m c h =
    gather-cyclic implicit p fuel (put_implicit src (implicit src) (required, m)).0
      (put_implicit src (implicit src) (required, m)).1 c
      (ground (arith, h, c src, any_of-put_implicit p src (implicit src) required m))
