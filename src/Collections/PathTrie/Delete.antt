-- ===== src/Collections/PathTrie/Delete.antt =====
-- `Delete` removes one path from the map, and prunes exactly the branches that hold no value.
use scala_gazelle.Prelude.{
  Str, str_has_eq, strs_has_eq, str_eq_iff, ◌≡◌, refl, true, Option, none, some, List, [], ◌∷◌,
  arith, ◌==◌, if◌then◌else◌, is_nil, Option-cases, inl, inr,
}
use scala_gazelle.Collections.PathTrie.{
  Node, node, Children, leaf, find_child, delete_child, get_at, unwind, Unwound, delete_at,
}
use scala_gazelle.Collections.PathTrie.Edges.{
  find_child-set_child, find_child-delete_child, find_child_of_leaf,
}
use scala_gazelle.Collections.PathTrie.Put.{value_at}

module _ {ℓ} {V : Type ℓ} where
  -- the trie that `Delete` leaves
  abbrev pub left_by : Node V → Option (Unwound V) → Node V
  left_by n none = n
  left_by n (some r) = r.rest

  -- a node that the loop deletes from its parent has no value at any path
  gone_is_empty :
      (p q : List Str) (n : Node V) (r : Unwound V)
      → delete_at p n ≡ some r
      → r.gone ≡ true
      → value_at q r.rest ≡ none
  unfolding get_at delete_at
  gone_is_empty [] [] (node v ch) r h g = ground arith
  gone_is_empty [] (b ∷ q) (node v ch) r h g = ground (arith, find_child_of_leaf b ch)
  gone_is_empty (a ∷ p) [] (node v ch) r h g = ground arith
  gone_is_empty (a ∷ p) (b ∷ q) (node v ch) r h g =
      ground (arith, find_child_of_leaf {V = V} b leaf)

  unwind-value_at :
      (a b : Str) (q : List Str) (v : Option V) (ch : Children V) (r : Unwound V)
      → (r.gone ≡ true → value_at q r.rest ≡ none)
      → value_at (b ∷ q) (unwind a v ch r).rest
        ≡ (if a == b then value_at q r.rest else value_at (b ∷ q) (node v ch))
  unfolding get_at
  unwind-value_at a b q v ch r h = ground (
    arith,
    find_child-set_child a b r.rest ch,
    find_child-delete_child a b ch,
    find_child_of_leaf b (delete_child a ch),
    find_child_of_leaf {V = V} b leaf,
  )

  -- After a `Delete` of a path, that path has no value, and every other path is as before.
  pub value_at-delete_at :
      (p q : List Str) (n : Node V)
      → value_at q (left_by n (delete_at p n)) ≡ (if p == q then none else value_at q n)
  unfolding get_at delete_at
  value_at-delete_at [] [] (node v ch) = refl
  value_at-delete_at [] (b ∷ q) (node v ch) = refl
  value_at-delete_at (a ∷ p) [] (node v ch) = ground arith
  value_at-delete_at (a ∷ p) (b ∷ q) (node v ch) = elim (Option-cases (find_child a ch)) [
    | inl absent ↦ ground (arith, str_eq_iff a b)
    | inr (c, there) ↦ elim (Option-cases (delete_at p c)) [
      | inl missed ↦ ground (arith, str_eq_iff a b, value_at-delete_at p q c)
      | inr (r, found) ↦ ground (
        arith,
        str_eq_iff a b,
        value_at-delete_at p q c,
        unwind-value_at a b q v ch r (gone_is_empty p q c r found),
      )
    ]
  ]

  -- `Delete` answers true exactly where `Get` finds a node.
  pub delete_at_found : (p : List Str) (n : Node V) → is_nil (delete_at p n) ≡ is_nil (get_at p n)
  unfolding get_at delete_at
  delete_at_found [] (node v ch) = refl
  delete_at_found (a ∷ p) (node v ch) = elim (Option-cases (find_child a ch)) [
    | inl absent ↦ ground arith
    | inr (c, there) ↦ ground (arith, delete_at_found p c)
  ]
