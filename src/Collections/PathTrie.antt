-- ===== src/Collections/PathTrie.antt =====
-- pkg/collections/path_trie.go. A node is a value and its children by part; the segmenter and the
-- separator, which `newPathTrie` copies from node to node, are kept once, beside the root.
pub mod Edges
pub mod Put
pub mod Delete
pub mod Pruned
pub mod Named
pub mod Walk
use scala_gazelle.Prelude.{
  ℕ, zero, suc, ◌+◌, Str, str_has_eq, is_nil, Bool, true, false, Option, none, some, List, [], ◌∷◌,
  ◌++◌, map, ◌==◌, if◌then◌else◌, length, take, sort_by, codes,
}
use mathlib.Core.List.{flatten}

-- trie.StringSegmenter: the part of the key that begins at an index, and the index of the next one.
-- `none` stands for a negative index.
abbrev pub Segmenter : Type 0
Segmenter = Str → Option ℕ → Str × Option ℕ

pub record PathTrieConfig : Type 0 where
  pub segmenter : Segmenter
  pub separator : Str

mutual
  pub data Node {ℓ} (V : Type ℓ) : Type ℓ where
    node : Option V → Children V → Node V

  pub data Children {ℓ} (V : Type ℓ) : Type ℓ where
    leaf : Children V
    child : Str → Node V → Children V → Children V

pub record PathTrie {ℓ} (V : Type ℓ) : Type ℓ where
  pub config : PathTrieConfig
  pub root : Node V

-- The parts that the loop `for part, i := segmenter(key, 0); part != ""; …` runs over.
unfoldable pub parts : ℕ → Segmenter → Str → Str × Option ℕ → List Str
parts zero seg key (part, i) = []
parts (suc fuel) seg key (part, i) =
    let rest = parts fuel seg key (seg key i) in if part == [] then [] else part ∷ rest

-- Every round takes a byte of the key at least.
abbrev pub parts_of : Segmenter → Str → List Str
parts_of seg key = parts (length key + 1) seg key (seg key (some 0))

-- the trie after a `Put`, and the two results of `Put`
pub record Placed {ℓ} (V : Type ℓ) : Type ℓ where
  pub trie : Node V
  pub placed : Node V
  pub is_new : Bool

-- A node after the backward loop of `Delete` has passed it. `gone` says that the loop goes on and
-- deletes the node from its parent's children.
pub record Unwound {ℓ} (V : Type ℓ) : Type ℓ where
  pub rest : Node V
  pub gone : Bool

module _ {ℓ} {V : Type ℓ} where
  abbrev pub value_of : Node V → Option V
  value_of (node v ch) = v

  abbrev pub children_of : Node V → Children V
  children_of (node v ch) = ch

  -- children[part]
  unfoldable pub find_child : Str → Children V → Option (Node V)
  find_child part leaf = none
  find_child part (child q n ch) = if q == part then some n else find_child part ch

  -- children[part] = n
  unfoldable pub set_child : Str → Node V → Children V → Children V
  set_child part n leaf = child part n leaf
  set_child part n (child q m ch) =
      if q == part then child part n ch else child q m (set_child part n ch)

  -- delete(children, part)
  unfoldable pub delete_child : Str → Children V → Children V
  delete_child part leaf = leaf
  delete_child part (child q m ch) =
      let rest = delete_child part ch in if q == part then rest else child q m rest

  abbrev pub is_leaf : Children V → Bool
  is_leaf leaf = true
  is_leaf (child q m ch) = false

  abbrev pub new_path_trie : Node V
  new_path_trie = node none leaf

  abbrev pub or_new : Option (Node V) → Node V
  or_new none = new_path_trie
  or_new (some n) = n

  -- `Get`, on the parts of the key
  unfoldable pub get_at : List Str → Node V → Option (Node V)
  get_at [] n = some n
  get_at (part ∷ rest) (node v ch) = elim (find_child part ch) [
    | none ↦ none
    | some c ↦ get_at rest c
  ]

  -- `Put`, on the parts of the key; the value may be nil
  unfoldable pub put_at : List Str → Option V → Node V → Placed V
  put_at [] value (node v ch) = record {
    trie = node value ch;
    placed = node value ch;
    is_new = is_nil v;
  }
  put_at (part ∷ rest) value (node v ch) =
      let below = put_at rest value (or_new (find_child part ch)) in
      record below { trie = node v (set_child part below.trie ch) }

  -- one round of the backward loop, at the parent of a node that was passed
  abbrev pub unwind : Str → Option V → Children V → Unwound V → Unwound V
  unwind part v ch below =
      if below.gone
      then (let left = delete_child part ch in
          if is_leaf left
          then record { rest = node v leaf; gone = is_nil v }
          else record { rest = node v left; gone = false })
      else record { rest = node v (set_child part below.rest ch); gone = false }

  -- `Delete`, on the parts of the key; `none` where no node was found
  unfoldable pub delete_at : List Str → Node V → Option (Unwound V)
  delete_at [] (node v ch) = some (record { rest = node none ch; gone = is_leaf ch })
  delete_at (part ∷ rest) (node v ch) = elim (find_child part ch) [
    | none ↦ none
    | some c ↦ elim (delete_at rest c) [ none ↦ none | some below ↦ some (unwind part v ch below) ]
  ]

  -- `Get`
  abbrev pub get : Str → PathTrie V → Option (PathTrie V)
  get key t = elim (get_at (parts_of t.config.segmenter key) t.root) [
    | none ↦ none
    | some n ↦ some (record t { root = n })
  ]

  -- `Put`
  abbrev pub put : Str → Option V → PathTrie V → PathTrie V × PathTrie V × Bool
  put key value t =
      let p = put_at (parts_of t.config.segmenter key) value t.root in
      (record t { root = p.trie }, record t { root = p.placed }, p.is_new)

  -- `Delete`
  abbrev pub delete : Str → PathTrie V → PathTrie V × Bool
  delete key t = elim (delete_at (parts_of t.config.segmenter key) t.root) [
    | none ↦ (t, false)
    | some r ↦ (record t { root = r.rest }, true)
  ]
