-- ===== src/Resolver/TrieScope.antt =====
-- pkg/resolver/trie_scope.go: a scope over a trie of symbol references.
pub mod Lookup
pub mod Update
use scala_gazelle.Prelude.{
  ℕ, Str, str_has_eq, Bool, true, false, ◌&&◌, not, Option, none, some, List, [], ◌∷◌, ◌++◌, ◌==◌,
  if◌then◌else◌, sort_by, codes, Outcome, returned, panicked,
}
use scala_gazelle.Label.{label_has_eq}
use scala_gazelle.Collections.PathTrie
use scala_gazelle.Collections.PathTrie.{PathTrieConfig, Node, new_path_trie}
use scala_gazelle.Collections.PathTrie.Walk.{WalkFunc, walk, walk_path}
use scala_gazelle.Resolver.ImportSegmenter.{import_segmenter}
use scala_gazelle.Resolver.Symbol.{Ref, Store, conflict}

abbrev pub scope_path_trie_config : PathTrieConfig
scope_path_trie_config = record { segmenter = import_segmenter; separator = codes "." }

-- The trie of a scope has the configuration above, at the root and, by `Get`, in every `GetScope`.
pub record TrieScope : Type 0 where
  pub root : Node Ref

abbrev pub trie : TrieScope → PathTrie.PathTrie Ref
trie t = record { config = scope_path_trie_config; root = t.root }

abbrev pub new_trie_scope : TrieScope
new_trie_scope = record { root = new_path_trie }

-- `last = value`
abbrev pub keep_last : WalkFunc (Option Ref) Ref Str
keep_last last key value = (some value, none)

-- `symbols = append(symbols, value.(*Symbol))`
abbrev pub collect : WalkFunc (List Ref) Ref Str
collect symbols key value = (symbols ++ value ∷ [], none)

-- `GetSymbol`
unfoldable pub get_symbol : TrieScope → Str → Option Ref
get_symbol t imp = (walk_path imp false keep_last none (trie t)).0

-- `GetScope`
unfoldable pub get_scope : TrieScope → Str → Option TrieScope
get_scope t name = elim (PathTrie.get name (trie t)) [
  | none ↦ none
  | some sub ↦ some (record { root = sub.root })
]

-- `Symbols`. Symbols of one name keep the order of the walk; Go leaves their order open.
unfoldable pub symbols : Store → TrieScope → List Ref
symbols store t = sort_by (λ s. (store.at s).name) (walk collect [] (trie t)).0

-- `GetSymbols`
unfoldable pub get_symbols : Store → TrieScope → Str → List Ref
unfolding symbols
get_symbols store t prefix = elim (PathTrie.get prefix (trie t)) [
  | none ↦ []
  | some sub ↦ symbols store (record { root = sub.root })
]

-- `r.trie.Put(name, symbol)`
abbrev pub assign : Str → Ref → TrieScope → TrieScope
assign name symbol t = record { root = (PathTrie.put name (some symbol) (trie t)).0.root }

-- `Put`, with the store that `Conflict` writes to
unfoldable pub put : Str → Ref → TrieScope → Store → Outcome (TrieScope × Store)
put name symbol t store =
    if (store.at symbol).provider == [] then panicked else (elim (get_symbol t name) [
      | none ↦ returned (assign name symbol t, store)
      | some current ↦
          if (store.at current).name == name
            && not ((store.at current).label == (store.at symbol).label)
          then returned (t, conflict current symbol store)
          else returned (assign name symbol t, store)
    ])

-- `PutSymbol`
unfoldable pub put_symbol : Ref → TrieScope → Store → Outcome (TrieScope × Store)
unfolding put
put_symbol symbol t store = put (store.at symbol).name symbol t store
