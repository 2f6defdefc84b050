-- ===== src/Collections/PathTrie/Walk.antt =====
-- `Walk` and `WalkPath` of pkg/collections/path_trie.go. The calls of the walker are computed first,
-- in the order in which they are made; `visit` then makes them, up to the first error.
pub mod Deepest
use mathlib.Core.List.{flatten}
use scala_gazelle.Prelude.{
  ℕ, zero, suc, ◌+◌, Str, Bool, true, false, Option, none, some, List, [], ◌∷◌, ◌++◌, map, nat_beq,
  if◌then◌else◌, length, take, sort_by,
}
use scala_gazelle.Collections.PathTrie.{
  Segmenter, PathTrie, Node, node, Children, leaf, child, find_child, value_of,
}

module _ {ℓ} {V : Type ℓ} where
  -- the call for a node, where it has a value
  abbrev pub own_call : Str → Option V → List (Str × V)
  own_call key none = []
  own_call key (some v) = (key, v) ∷ []

  -- the children by sorted key, one after another
  abbrev pub in_key_order : List (Str × List (Str × V)) → List (Str × V)
  in_key_order cs = flatten (map (λ c. c.1) (sort_by (λ c. c.0) cs))

unfoldable mutual
  -- `walk`: the calls below a node
  pub walk_calls {ℓ} : {V : Type ℓ} → Str → Str → ℕ → Node V → List (Str × V)
  walk_calls separator key depth (node v ch) =
      own_call key v ++ in_key_order (child_calls separator key depth ch)

  -- the body of the loop over the children, with the child's key
  pub child_calls {ℓ} : {V : Type ℓ} → Str → Str → ℕ → Children V → List (Str × List (Str × V))
  child_calls separator key depth leaf = []
  child_calls separator key depth (child part n ch) =
      let prefix = if nat_beq depth 0 then key else key ++ separator in
      (part, walk_calls separator (prefix ++ part) (suc depth) n)
      ∷ child_calls separator key depth ch

-- A walker over a state, which may return an error.
abbrev pub WalkFunc {ℓ κ μ} : Type ℓ → Type κ → Type μ → Type (ℓ ⊔ κ ⊔ μ)
WalkFunc S V E = S → Str → V → S × Option E

module _ {ℓ κ μ} {S : Type ℓ} {V : Type κ} {E : Type μ} where
  -- an error ends the walk
  unfoldable pub visit : WalkFunc S V E → S → List (Str × V) → S × Option E
  visit walker s [] = (s, none)
  visit walker s ((key, v) ∷ calls) =
      let (s', e) = walker s key v in
      elim e [ none ↦ visit walker s' calls | some err ↦ (s', some err) ]

  abbrev pub walk : WalkFunc S V E → S → PathTrie V → S × Option E
  walk walker s t = visit walker s (walk_calls t.config.separator [] 0 t.root)

-- The loop of `WalkPath`: it ends behind the first part whose next index is negative.
unfoldable pub path_steps : ℕ → Segmenter → Str → Str × Option ℕ → List (Str × Option ℕ)
path_steps zero seg key (part, next) = []
path_steps (suc fuel) seg key (part, none) = (part, none) ∷ []
path_steps (suc fuel) seg key (part, some i) =
    (part, some i) ∷ path_steps fuel seg key (seg key (some i))

abbrev pub steps_of : Segmenter → Str → List (Str × Option ℕ)
steps_of seg key = path_steps (length key + 1) seg key (seg key (some 0))

-- `k` in the loop
abbrev pub key_at : Str → Option ℕ → Str
key_at key none = key
key_at key (some i) = take i key

module _ {ℓ} {V : Type ℓ} where
  -- the calls of the loop of `WalkPath`, from a node
  unfoldable pub path_calls : Str → List (Str × Option ℕ) → Node V → List (Str × V)
  path_calls key [] n = []
  path_calls key ((part, next) ∷ steps) (node v ch) = elim (find_child part ch) [
    | none ↦ []
    | some c ↦ own_call (key_at key next) (value_of c) ++ path_calls key steps c
  ]

  abbrev pub root_call : Bool → Node V → List (Str × V)
  root_call true n = own_call [] (value_of n)
  root_call false n = []

module _ {ℓ κ μ} {S : Type ℓ} {V : Type κ} {E : Type μ} where
  abbrev pub walk_path : Str → Bool → WalkFunc S V E → S → PathTrie V → S × Option E
  walk_path key want_root_value walker s t =
      visit walker s (
        root_call want_root_value t.root ++ path_calls key (steps_of t.config.segmenter key) t.root)
