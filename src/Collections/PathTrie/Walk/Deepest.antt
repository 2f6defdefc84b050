-- ===== src/Collections/PathTrie/Walk/Deepest.antt =====
-- What `WalkPath` meets on its way: the value at the longest prefix of the path is its last call.
use scala_gazelle.Prelude.{
  ℕ, ◌≡◌, refl, Str, str_has_eq, Option, none, some, List, [], ◌∷◌, ◌++◌, map, arith, last?,
  or_else, to_list, last?-append, longest_first, first_some, first_some-append, first_some-none,
  first_some-cong, first_some-map, Option-cases, inl, inr,
}
use scala_gazelle.Collections.PathTrie.{Node, node, Children, find_child, value_of, get_at}
use scala_gazelle.Collections.PathTrie.Put.{value_at}
use scala_gazelle.Collections.PathTrie.Walk.{path_calls}

module _ {ℓ} {V : Type ℓ} where
  -- the values on a path of parts, below a node
  unfoldable pub values_along : List Str → Node V → List V
  values_along [] n = []
  values_along (part ∷ rest) (node v ch) = elim (find_child part ch) [
    | none ↦ []
    | some c ↦ to_list (value_of c) ++ values_along rest c
  ]

  -- the values that the walker is called with
  pub path_calls-values_along :
      (key : Str) (steps : List (Str × Option ℕ)) (n : Node V)
      → map (λ c. c.1) (path_calls key steps n) ≡ values_along (map (λ s. s.0) steps) n
  unfolding path_calls values_along
  path_calls-values_along key [] n = refl
  path_calls-values_along key ((part, next) ∷ steps) (node v ch) =
      elim (Option-cases (find_child part ch)) [
        | inl e ↦ ground arith
        | inr (c, e) ↦ ground (arith, path_calls-values_along key steps c)
      ]

  value_at-child :
      (a : Str) (q : List Str) (v : Option V) (c : Node V) (ch : Children V)
      → find_child a ch ≡ some c
      → value_at (a ∷ q) (node v ch) ≡ value_at q c
  unfolding get_at
  value_at-child a q v c ch e = ground arith

  value_at-no_child :
      (a : Str) (q : List Str) (v : Option V) (ch : Children V)
      → find_child a ch ≡ none
      → value_at (a ∷ q) (node v ch) ≡ none
  unfolding get_at
  value_at-no_child a q v ch e = ground arith

  value_at_here : (n : Node V) → value_at [] n ≡ value_of n
  unfolding get_at
  value_at_here n = refl

  -- The search for the longest prefix, one part at a time.
  first_some-longest_first :
      (a : Str) (p : List Str) (n : Node V)
      → first_some (λ q. value_at q n) (longest_first (a ∷ p))
        ≡ or_else (first_some (λ q. value_at (a ∷ q) n) (longest_first p)) (value_at (a ∷ []) n)
  first_some-longest_first a p n =
      rw
        (
          first_some-append (λ q. value_at q n) (map (◌∷◌ a) (longest_first p)) ((a ∷ []) ∷ []),
          first_some-map (λ q. value_at q n) (◌∷◌ a) (longest_first p),
        )
        (ground arith)

  -- The last value on a path is the value at its longest prefix that has one.
  pub last?-values_along :
      (p : List Str) (n : Node V)
      → last? (values_along p n) ≡ first_some (λ q. value_at q n) (longest_first p)
  unfolding values_along
  last?-values_along [] n = refl
  last?-values_along (a ∷ p) (node v ch) = elim (Option-cases (find_child a ch)) [
    | inl e ↦ ground (
      arith,
      first_some-longest_first a p (node v ch),
      first_some-none (λ q. value_at (a ∷ q) (node v ch)) (longest_first p)
          (λ q. value_at-no_child a q v ch e),
      value_at-no_child a [] v ch e,
    )
    | inr (c, e) ↦ ground (
      arith,
      first_some-longest_first a p (node v ch),
      first_some-cong (λ q. value_at (a ∷ q) (node v ch)) (λ q. value_at q c) (longest_first p)
          (λ q. value_at-child a q v c ch e),
      value_at-child a [] v c ch e,
      value_at_here c,
      last?-values_along p c,
      last?-append (to_list (value_of c)) (values_along p c),
    )
  ]
