-- ===== src/Collections/PathTrie/Named.antt =====
-- No child hangs under the empty part: the loops of `Get`, `Put` and `Delete` end at an empty part.
use scala_gazelle.Prelude.{
  ◌≡◌, refl, Str, str_has_eq, Bool, true, Option, none, some, List, [], ◌∷◌, ◌++◌, arith, str_eq,
  not, ◌&&◌, Option-cases, inl, inr, All, IsNotEmpty,
}
use scala_gazelle.Collections.PathTrie.{
  Node, node, Children, leaf, child, find_child, set_child, or_new, put_at, delete_child,
}
use scala_gazelle.Collections.PathTrie.Walk.Deepest.{values_along}

unfoldable mutual
  pub is_named {ℓ} : {V : Type ℓ} → Node V → Bool
  is_named (node v ch) = all_named ch

  pub all_named {ℓ} : {V : Type ℓ} → Children V → Bool
  all_named leaf = true
  all_named (child q n ch) = not (str_eq q []) && (is_named n && all_named ch)

module _ {ℓ} {V : Type ℓ} where
  abbrev pub IsNamed : Node V → Type 0
  IsNamed n = is_named n ≡ true

  all_named-set_child :
      (p : Str) (n : Node V) (ch : Children V)
      → IsNotEmpty p
      → IsNamed n
      → all_named ch ≡ true
      → all_named (set_child p n ch) ≡ true
  unfolding is_named set_child
  all_named-set_child p n leaf e h k = ground arith
  all_named-set_child p n (child q m ch) e h k = ground (arith, all_named-set_child p n ch)

  all_named-delete_child :
      (p : Str) (ch : Children V) → all_named ch ≡ true → all_named (delete_child p ch) ≡ true
  unfolding is_named delete_child
  all_named-delete_child p leaf k = refl
  all_named-delete_child p (child q m ch) k = ground (arith, all_named-delete_child p ch)

  find_child-IsNamed :
      (p : Str) (c : Node V) (ch : Children V)
      → find_child p ch ≡ some c
      → all_named ch ≡ true
      → IsNamed c
  unfolding is_named find_child
  find_child-IsNamed p c leaf h k = ground arith
  find_child-IsNamed p c (child q m ch) h k = ground (arith, find_child-IsNamed p c ch)

  no_empty_child : (ch : Children V) → all_named ch ≡ true → find_child [] ch ≡ none
  unfolding is_named find_child
  no_empty_child leaf k = refl
  no_empty_child (child q m ch) k = ground (arith, no_empty_child ch)

  or_new-IsNamed :
      (p : Str) (ch : Children V) → all_named ch ≡ true → IsNamed (or_new (find_child p ch))
  unfolding is_named
  or_new-IsNamed p ch h = elim (Option-cases (find_child p ch)) [
    | inl e ↦ ground arith
    | inr (c, e) ↦ ground (arith, find_child-IsNamed p c ch e h)
  ]

  -- A `Put` on parts that are not empty keeps the shape.
  pub put_at-IsNamed :
      (p : List Str) (value : Option V) (n : Node V)
      → All IsNotEmpty p
      → IsNamed n
      → IsNamed (put_at p value n).trie
  unfolding is_named put_at
  put_at-IsNamed [] value (node v ch) e h = h
  put_at-IsNamed (a ∷ p) value (node v ch) e h =
      all_named-set_child a _ ch e.0
        (put_at-IsNamed p value (or_new (find_child a ch)) e.1 (or_new-IsNamed a ch h)) h

  -- The empty part at the end of a path leads nowhere.
  pub values_along-empty_part :
      (p : List Str) (n : Node V) → IsNamed n → values_along (p ++ [] ∷ []) n ≡ values_along p n
  unfolding is_named values_along
  values_along-empty_part [] (node v ch) h = ground (arith, no_empty_child ch h)
  values_along-empty_part (a ∷ p) (node v ch) h = elim (Option-cases (find_child a ch)) [
    | inl e ↦ ground arith
    | inr (c, e) ↦ ground (arith, values_along-empty_part p c (find_child-IsNamed a c ch e h))
  ]
