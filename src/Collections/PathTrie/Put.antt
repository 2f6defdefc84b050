-- ===== src/Collections/PathTrie/Put.antt =====
-- `Put` refines a map from paths of parts to values.
use scala_gazelle.Prelude.{
  Str, strs_has_eq, str_eq_iff, ◌≡◌, refl, Option, none, some, List, [], ◌∷◌, arith, ◌==◌,
  if◌then◌else◌, is_nil,
}
use scala_gazelle.Collections.PathTrie.{
  Node, node, Children, value_of, find_child, new_path_trie, or_new, get_at, put_at,
}
use scala_gazelle.Collections.PathTrie.Edges.{find_child-set_child}

module _ {ℓ} {V : Type ℓ} where
  -- the value of the node that `Get` returns
  abbrev pub valued : Option (Node V) → Option V
  valued none = none
  valued (some n) = value_of n

  -- the abstract view of a trie: the value at each path of parts
  abbrev pub value_at : List Str → Node V → Option V
  value_at path n = valued (get_at path n)

  pub value_at-new_path_trie : (q : List Str) → value_at q (new_path_trie {V = V}) ≡ none
  unfolding get_at find_child
  value_at-new_path_trie [] = refl
  value_at-new_path_trie (a ∷ q) = refl

  value_at-or_new :
      (q : List Str) (a : Str) (v : Option V) (ch : Children V)
      → value_at q (or_new (find_child a ch)) ≡ value_at (a ∷ q) (node v ch)
  unfolding get_at
  value_at-or_new q a v ch = ground (arith, value_at-new_path_trie q)

  -- After a `Put` of a value at a path, that path has the value, and every other path is as before.
  pub value_at-put_at :
      (p q : List Str) (value : Option V) (n : Node V)
      → value_at q (put_at p value n).trie ≡ (if p == q then value else value_at q n)
  unfolding get_at put_at
  value_at-put_at [] [] value (node v ch) = refl
  value_at-put_at [] (b ∷ q) value (node v ch) = refl
  value_at-put_at (a ∷ p) [] value (node v ch) = refl
  value_at-put_at (a ∷ p) (b ∷ q) value (node v ch) = ground (
    arith,
    str_eq_iff a b,
    find_child-set_child a b (put_at p value (or_new (find_child a ch))).trie ch,
    value_at-put_at p q value (or_new (find_child a ch)),
    value_at-or_new q a v ch,
  )

  -- `Put` reports a new value exactly where the path had none, and `Get` finds the node it returns.
  pub put_at_results :
      (p : List Str) (value : Option V) (n : Node V)
      → ((put_at p value n).is_new ≡ is_nil (value_at p n))
        × (get_at p (put_at p value n).trie ≡ some (put_at p value n).placed)
        × (value_of (put_at p value n).placed ≡ value)
  unfolding get_at put_at
  put_at_results [] value (node v ch) = (refl, refl, refl)
  put_at_results (a ∷ p) value (node v ch) = ground (
    arith,
    str_eq_iff a a,
    find_child-set_child a a (put_at p value (or_new (find_child a ch))).trie ch,
    put_at_results p value (or_new (find_child a ch)),
    value_at-or_new p a v ch,
  )
