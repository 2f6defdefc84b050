-- ===== src/Collections/PathTrie/Pruned.antt =====
-- The shape of a trie: below its root, a node without children has a value.
use scala_gazelle.Prelude.{
  Str, str_has_eq, ◌≡◌, refl, Bool, true, false, some, List, [], ◌∷◌, arith, is_nil, Option-cases,
  inl, inr, ◌&&◌, not,
}
use scala_gazelle.Collections.PathTrie.{
  Node, node, Children, leaf, child, children_of, find_child, set_child, delete_child, is_leaf,
  Unwound, delete_at, or_new, put_at,
}
use scala_gazelle.Collections.PathTrie.Edges.{is_leaf-set_child}
use scala_gazelle.Collections.PathTrie.Delete.{left_by}

unfoldable mutual
  pub is_live {ℓ} : {V : Type ℓ} → Node V → Bool
  is_live (node v ch) = not (is_leaf ch && is_nil v) && all_live ch

  pub all_live {ℓ} : {V : Type ℓ} → Children V → Bool
  all_live leaf = true
  all_live (child q n ch) = is_live n && all_live ch

module _ {ℓ} {V : Type ℓ} where
  abbrev pub IsPruned : Node V → Type 0
  IsPruned n = all_live (children_of n) ≡ true

  all_live-set_child :
      (p : Str) (n : Node V) (ch : Children V)
      → is_live n ≡ true
      → all_live ch ≡ true
      → all_live (set_child p n ch) ≡ true
  unfolding is_live set_child
  all_live-set_child p n leaf h k = ground arith
  all_live-set_child p n (child q m ch) h k = ground (arith, all_live-set_child p n ch)

  all_live-delete_child :
      (p : Str) (ch : Children V) → all_live ch ≡ true → all_live (delete_child p ch) ≡ true
  unfolding is_live delete_child
  all_live-delete_child p leaf k = refl
  all_live-delete_child p (child q m ch) k = ground (arith, all_live-delete_child p ch)

  is_live-find_child :
      (p : Str) (c : Node V) (ch : Children V)
      → find_child p ch ≡ some c
      → all_live ch ≡ true
      → is_live c ≡ true
  unfolding is_live find_child
  is_live-find_child p c leaf h k = ground arith
  is_live-find_child p c (child q m ch) h k = ground (arith, is_live-find_child p c ch)

  is_live-IsPruned : (n : Node V) → is_live n ≡ true → IsPruned n
  unfolding is_live
  is_live-IsPruned (node v ch) h = ground arith

  or_new-IsPruned :
      (p : Str) (ch : Children V) → all_live ch ≡ true → IsPruned (or_new (find_child p ch))
  unfolding is_live
  or_new-IsPruned p ch h = elim (Option-cases (find_child p ch)) [
    | inl e ↦ rw e
    | inr (c, e) ↦ rw e (is_live-IsPruned c (is_live-find_child p c ch e h))
  ]

  put_at-live :
      (p : List Str) (value : V) (n : Node V)
      → IsPruned n
      → is_live (put_at p (some value) n).trie ≡ true
  unfolding is_live put_at
  put_at-live [] value (node v ch) h = ground arith
  put_at-live (a ∷ p) value (node v ch) h =
      let below = put_at p (some value) (or_new (find_child a ch)) in
      ground (
        arith,
        is_leaf-set_child a below.trie ch,
        all_live-set_child a below.trie ch
            (put_at-live p value (or_new (find_child a ch)) (or_new-IsPruned a ch h)) h,
      )

  -- A `Put` of a value that is not nil leaves no dead branch.
  pub put_at-IsPruned :
      (p : List Str) (value : V) (n : Node V) → IsPruned n → IsPruned (put_at p (some value) n).trie
  put_at-IsPruned p value n h = is_live-IsPruned _ (put_at-live p value n h)

  delete_at-live :
      (p : List Str) (n : Node V) (r : Unwound V)
      → delete_at p n ≡ some r
      → IsPruned n
      → IsPruned r.rest × (r.gone ≡ false → is_live r.rest ≡ true)
  unfolding is_live delete_at
  delete_at-live [] (node v ch) r e h = (ground arith, ground arith)
  delete_at-live (a ∷ p) (node v ch) r e h = elim (Option-cases (find_child a ch)) [
    | inl absent ↦ ground arith
    | inr (c, there) ↦ elim (Option-cases (delete_at p c)) [
      | inl missed ↦ ground arith
      | inr (s, found) ↦
          let below =
            delete_at-live p c s found (is_live-IsPruned c (is_live-find_child a c ch there h)) in
          ground (
            arith,
            all_live-delete_child a ch h,
            is_leaf-set_child a s.rest ch,
            below,
            (λ (g : s.gone ≡ false). all_live-set_child a s.rest ch (below.1 g) h),
          )
    ]
  ]

  -- `Delete` leaves no dead branch, whether or not it finds a node.
  pub delete_at-IsPruned :
      (p : List Str) (n : Node V) → IsPruned n → IsPruned (left_by n (delete_at p n))
  delete_at-IsPruned p n h = elim (Option-cases (delete_at p n)) [
    | inl missed ↦ rw missed h
    | inr (r, found) ↦ rw found (delete_at-live p n r found h).0
  ]
