-- ===== src/Resolver/SymbolResolver.antt =====
-- pkg/resolver/*_symbol_resolver.go: the resolvers of names, as one data type. A memo keeps its cache
-- from call to call, and a resolver may allocate symbols: both come back beside the answer.
pub mod Memo
use scala_gazelle.Prelude.{
  ℕ, Str, str_has_eq, Option, none, some, List, [], ◌∷◌, codes, trim_prefix, trim_suffix,
}
use scala_gazelle.Prelude.Map
use scala_gazelle.Prelude.Map.{Assoc}
use scala_gazelle.Label.{Label}
use scala_gazelle.Resolver.Symbol.{Ref, Store, new_symbol, conflict, override, cross_resolve}
use scala_gazelle.Resolver.Scope
use scala_gazelle.Resolver.Scope.{Scope}

-- What the resolvers ask of gazelle, for one configuration and rule index. The arguments are the two
-- fields of `resolve.ImportSpec`, the language and the import, and the language of the resolver.
pub record Gazelle : Type 0 where
  -- resolve.FindRuleWithOverride
  pub find_override : Str → Str → Str → Option Label
  -- RuleIndex.FindRulesByImportWithConfig: the labels of the results
  pub find_rules : Str → Str → Str → List Label

mutual
  pub data SymbolResolver : Type 0 where
    override_resolver : Str → SymbolResolver
    cross_resolver : Str → SymbolResolver
    scope_resolver : Scope → SymbolResolver
    scala_resolver : SymbolResolver → SymbolResolver
    memo_resolver : Assoc Str Ref → SymbolResolver → SymbolResolver
    chain_resolver : Chain → SymbolResolver

  pub data Chain : Type 0 where
    nil : Chain
    cons : SymbolResolver → Chain → Chain

-- the answer of `ResolveSymbol`, and what it leaves behind
pub record Resolved (R : Type 0) : Type 0 where
  pub symbol : Option Ref
  pub resolver : R
  pub store : Store

abbrev pub override_provider_name : Str
override_provider_name = codes "override"

-- `OverrideSymbolResolver.ResolveSymbol`
unfoldable pub resolve_override : Gazelle → Str → Str → Str → Store → Option Ref × Store
resolve_override g own_lang lang imp store = elim (g.find_override lang imp own_lang) [
  | none ↦ (none, store)
  | some to ↦
      let (s, store') = new_symbol override imp override_provider_name to store in (some s, store')
]

-- the loop over `matches[1:]`
unfoldable pub add_conflicts : Str → Ref → List Label → Store → Store
add_conflicts imp sym [] store = store
add_conflicts imp sym (label ∷ labels) store =
    let (c, store') = new_symbol cross_resolve imp (codes "cross-resolve") label store in
    add_conflicts imp sym labels (conflict sym c store')

-- `CrossSymbolResolver.ResolveSymbol`; with one match the loop runs over nothing
unfoldable pub resolve_cross : Gazelle → Str → Str → Str → Store → Option Ref × Store
resolve_cross g own_lang lang imp store = elim (g.find_rules lang imp own_lang) [
  | [] ↦ (none, store)
  | label ∷ labels ↦
      let (s, store') = new_symbol cross_resolve imp (codes "cross-resolve") label store in
      (some s, add_conflicts imp s labels store')
]

-- `ScalaSymbolResolver`: "_root_." and "._" are stripped
abbrev pub strip : Str → Str
strip imp = trim_suffix (trim_prefix imp (codes "_root_.")) (codes "._")

abbrev pub remember : Str → Option Ref → Assoc Str Ref → Assoc Str Ref
remember imp none cache = cache
remember imp (some sym) cache = Map.put imp sym cache

module _ (g : Gazelle) (lang : Str) where
  -- `ResolveSymbol`
  unfoldable mutual
    pub resolve_symbol : SymbolResolver → Str → Store → Resolved SymbolResolver
    resolve_symbol (override_resolver own) imp store =
        let (s, store') = resolve_override g own lang imp store in
        record { symbol = s; resolver = override_resolver own; store = store' }
    resolve_symbol (cross_resolver own) imp store =
        let (s, store') = resolve_cross g own lang imp store in
        record { symbol = s; resolver = cross_resolver own; store = store' }
    resolve_symbol (scope_resolver scope) imp store = record {
      symbol = Scope.get_symbol store scope imp;
      resolver = scope_resolver scope;
      store = store;
    }
    resolve_symbol (scala_resolver next) imp store =
        let r = resolve_symbol next (strip imp) store in
        record { symbol = r.symbol; resolver = scala_resolver r.resolver; store = r.store }
    resolve_symbol (memo_resolver cache next) imp store = elim (Map.get imp cache) [
      | some sym ↦ record { symbol = some sym; resolver = memo_resolver cache next; store = store }
      | none ↦
          let r = resolve_symbol next imp store in
          record {
            symbol = r.symbol;
            resolver = memo_resolver (remember imp r.symbol cache) r.resolver;
            store = r.store;
          }
    ]
    resolve_symbol (chain_resolver chain) imp store =
        let r = resolve_chain chain imp store in
        record { symbol = r.symbol; resolver = chain_resolver r.resolver; store = r.store }

    pub resolve_chain : Chain → Str → Store → Resolved Chain
    resolve_chain nil imp store = record { symbol = none; resolver = nil; store = store }
    resolve_chain (cons next chain) imp store =
        let r = resolve_symbol next imp store in
        elim r.symbol [
          | some sym ↦ record {
            symbol = some sym;
            resolver = cons r.resolver chain;
            store = r.store;
          }
          | none ↦
              let rest = resolve_chain chain imp r.store in
              record {
                symbol = rest.symbol;
                resolver = cons r.resolver rest.resolver;
                store = rest.store;
              }
        ]
