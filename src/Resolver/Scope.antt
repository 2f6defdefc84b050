-- ===== src/Resolver/Scope.antt =====
-- pkg/resolver/scope.go and its implementations: trie_scope.go, chain_scope.go, trim_prefix_scope.go
-- and scala_scope.go. `GetScope` of a trie allocates: the scopes that it returns have identities,
-- which `ScalaScope` compares.
pub mod Guard
pub mod Names
use scala_gazelle.Prelude.{
  ℕ, suc, Str, str_has_eq, Bool, true, false, ◌||◌, Option, none, some, List, [], ◌∷◌, ◌==◌,
  nat_beq, if◌then◌else◌, codes, trim_prefix, Outcome, returned, panicked, or_else,
}
use scala_gazelle.Resolver.Symbol.{Ref, Store}
use scala_gazelle.Resolver.TrieScope
use scala_gazelle.Resolver.TrieScope.{TrieScope}

mutual
  -- `trie_scope` has the address of the struct. A `ScalaScope` has its parent and the scopes `scala`
  -- and `javaLang`; its `root` is `trim_prefix_scope "_root_." parent`.
  pub data Scope : Type 0 where
    trie_scope : ℕ → TrieScope → Scope
    chain_scope : Scopes → Scope
    trim_prefix_scope : Str → Scope → Scope
    scala_scope : Scope → Scope → Scope → Scope

  pub data Scopes : Type 0 where
    nil : Scopes
    cons : Scope → Scopes → Scopes

abbrev pub root_prefix : Str
root_prefix = codes "_root_."

-- the loop body of `ScalaScope.GetSymbol`: `next` is what the rest of the chain gives
abbrev pub unless_builtin : Store → Option Ref → Option Ref → Option Ref
unless_builtin store none next = next
unless_builtin store (some known) next =
    if (store.at known).name == codes "scala" || (store.at known).name == codes "java.lang"
    then next
    else some known

-- `GetSymbol`
unfoldable mutual
  pub get_symbol : Store → Scope → Str → Option Ref
  get_symbol store (trie_scope id t) imp = TrieScope.get_symbol t imp
  get_symbol store (chain_scope chain) imp = chain_symbol store chain imp
  get_symbol store (trim_prefix_scope prefix next) name =
      get_symbol store next (trim_prefix name prefix)
  get_symbol store (scala_scope parent scala java_lang) imp =
      unless_builtin store (get_symbol store parent imp) (
        unless_builtin store (get_symbol store scala imp) (
          unless_builtin store (get_symbol store java_lang imp)
            (unless_builtin store (get_symbol store parent (trim_prefix imp root_prefix)) none)))

  pub chain_symbol : Store → Scopes → Str → Option Ref
  chain_symbol store nil imp = none
  chain_symbol store (cons next chain) imp =
      or_else (get_symbol store next imp) (chain_symbol store chain imp)

-- `len(known) > 0`
abbrev pub or_if_empty : List Ref → List Ref → List Ref
or_if_empty [] next = next
or_if_empty (s ∷ known) next = s ∷ known

-- `GetSymbols`
unfoldable mutual
  pub get_symbols : Store → Scope → Str → List Ref
  get_symbols store (trie_scope id t) prefix = TrieScope.get_symbols store t prefix
  get_symbols store (chain_scope chain) prefix = chain_symbols store chain prefix
  get_symbols store (trim_prefix_scope trimmed next) name =
      get_symbols store next (trim_prefix name trimmed)
  get_symbols store (scala_scope parent scala java_lang) prefix =
      or_if_empty (get_symbols store parent prefix) (
        or_if_empty (get_symbols store scala prefix) (
          or_if_empty (get_symbols store java_lang prefix)
            (or_if_empty (get_symbols store parent (trim_prefix prefix root_prefix)) [])))

  pub chain_symbols : Store → Scopes → Str → List Ref
  chain_symbols store nil prefix = []
  chain_symbols store (cons next chain) prefix =
      or_if_empty (get_symbols store next prefix) (chain_symbols store chain prefix)

-- `==` on two interface values, for the scopes that `GetScope` returns: these are tries
abbrev pub same_scope : Scope → Scope → Bool
same_scope (trie_scope i s) (trie_scope j t) = nat_beq i j
same_scope (trie_scope i s) _ = false
same_scope (chain_scope c) _ = false
same_scope (trim_prefix_scope p s) _ = false
same_scope (scala_scope p s j) _ = false

-- a scope that was found, and the next free address
abbrev pub Found : Type 0
Found = Option Scope × ℕ

-- `&TrieScope{node}`
abbrev pub allocate : Option TrieScope → ℕ → Found
allocate none next = (none, next)
allocate (some t) next = (some (trie_scope next t), suc next)

-- go on with the rest of the chain where nothing was found
abbrev pub or_search : Found → (ℕ → Found) → Found
or_search (none, next) rest = rest next
or_search (some s, next) rest = (some s, next)

-- the loop body of `ScalaScope.GetScope`
abbrev pub unless_same : Scope → Scope → Found → (ℕ → Found) → Found
unless_same scala java_lang (none, next) rest = rest next
unless_same scala java_lang (some s, next) rest =
    if same_scope s scala || same_scope s java_lang then rest next else (some s, next)

-- `GetScope`
unfoldable mutual
  pub get_scope : Scope → Str → ℕ → Found
  get_scope (trie_scope id t) name next = allocate (TrieScope.get_scope t name) next
  get_scope (chain_scope chain) imp next = chain_get_scope chain imp next
  get_scope (trim_prefix_scope prefix s) name next = get_scope s (trim_prefix name prefix) next
  get_scope (scala_scope parent scala java_lang) imp next =
      unless_same scala java_lang (get_scope parent imp next) λ next1.
        unless_same scala java_lang (get_scope scala imp next1) λ next2.
          unless_same scala java_lang (get_scope java_lang imp next2) λ next3.
            unless_same scala java_lang (get_scope parent (trim_prefix imp root_prefix) next3)
              λ next4. (none, next4)

  pub chain_get_scope : Scopes → Str → ℕ → Found
  chain_get_scope nil imp next = (none, next)
  chain_get_scope (cons s chain) imp next =
      or_search (get_scope s imp next) λ next'. chain_get_scope chain imp next'

-- `PutSymbol`: only a trie supports it
pub data PutResult : Type 0 where
  stored : Scope → Store → PutResult
  unsupported : PutResult

unfoldable pub put_symbol : Ref → Scope → Store → Outcome PutResult
put_symbol symbol (trie_scope id t) store = elim (TrieScope.put_symbol symbol t store) [
  | returned (t', store') ↦ returned (stored (trie_scope id t') store')
  | panicked ↦ panicked
]
put_symbol symbol (chain_scope chain) store = returned unsupported
put_symbol symbol (trim_prefix_scope prefix next) store = returned unsupported
put_symbol symbol (scala_scope parent scala java_lang) store = returned unsupported

-- `NewScalaScope`, with the two errors that it returns
pub data NewScalaScope : Type 0 where
  created : Scope → ℕ → NewScalaScope
  scala_not_found java_lang_not_found : NewScalaScope

abbrev pub make_scala_scope : Scope → Option Scope → Option Scope → ℕ → NewScalaScope
make_scala_scope parent none java_lang next = scala_not_found
make_scala_scope parent (some scala) none next = java_lang_not_found
make_scala_scope parent (some scala) (some java_lang) next =
    created (scala_scope parent scala java_lang) next

unfoldable pub new_scala_scope : Scope → ℕ → NewScalaScope
new_scala_scope parent next =
    let scala = get_scope parent (codes "scala") next in
    let java_lang = get_scope parent (codes "java.lang") scala.1 in
    make_scala_scope parent scala.0 java_lang.0 java_lang.1
