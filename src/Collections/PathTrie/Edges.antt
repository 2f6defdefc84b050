-- ===== src/Collections/PathTrie/Edges.antt =====
-- What the children map of a node holds after an assignment and a deletion.
use scala_gazelle.Prelude.{
  Str, str_has_eq, ◌≡◌, refl, true, false, none, some, arith, ◌==◌, str_eq_iff, if◌then◌else◌,
}
use scala_gazelle.Collections.PathTrie.{
  Node, Children, leaf, child, find_child, set_child, delete_child, is_leaf,
}

module _ {ℓ} {V : Type ℓ} where
  pub find_child-set_child :
      (p q : Str) (n : Node V) (ch : Children V)
      → find_child q (set_child p n ch) ≡ (if p == q then some n else find_child q ch)
  unfolding find_child set_child
  find_child-set_child p q n leaf = refl
  find_child-set_child p q n (child r m ch) =
      ground (arith, str_eq_iff p q, str_eq_iff r p, str_eq_iff r q, find_child-set_child p q n ch)

  pub find_child-delete_child :
      (p q : Str) (ch : Children V)
      → find_child q (delete_child p ch) ≡ (if p == q then none else find_child q ch)
  unfolding find_child delete_child
  find_child-delete_child p q leaf = ground arith
  find_child-delete_child p q (child r m ch) =
      ground (arith, str_eq_iff p q, str_eq_iff r p, str_eq_iff r q, find_child-delete_child p q ch)

  pub is_leaf-set_child :
      (p : Str) (n : Node V) (ch : Children V) → is_leaf (set_child p n ch) ≡ false
  unfolding set_child
  is_leaf-set_child p n leaf = refl
  is_leaf-set_child p n (child r m ch) = ground arith

  pub find_child_of_leaf : (p : Str) (ch : Children V) → is_leaf ch ≡ true → find_child p ch ≡ none
  unfolding find_child
  find_child_of_leaf p leaf h = refl
  find_child_of_leaf p (child r m ch) h = ground arith
