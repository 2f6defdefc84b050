-- ===== src/Language/ScalaRule/Resolve.antt =====
-- `ResolveImports` and `ResolveExports` of language/scala/scala_rule.go. The loops write through the
-- imports of the map: what was visited stands before the import at hand, the rest after it.
pub mod Answers
use scala_gazelle.Prelude.{
  ℕ, Str, Bool, true, false, not, Option, none, some, List, [], ◌∷◌, ◌++◌, codes, is_nil,
  if◌then◌else◌,
}
use scala_gazelle.Label.{LabelApi}
use scala_gazelle.Resolver.Symbol.{Ref, Store}
use scala_gazelle.Resolver.Import.{Import}
use scala_gazelle.Resolver.SymbolResolver.{Gazelle, SymbolResolver, Resolved, resolve_symbol}
use scala_gazelle.Resolver.ConflictResolver.{ConflictResolver, resolve_conflicts}

-- `resolver.ErrSymbolNotFound`
abbrev pub err_symbol_not_found : Str
err_symbol_not_found = codes "symbol not found"

abbrev pub has_conflicts : List Ref → Bool
has_conflicts [] = false
has_conflicts (c ∷ conflicts) = true

-- a loop in its course
pub record Round : Type 0 where
  pub imports : List Import
  pub resolver : SymbolResolver
  pub store : Store

module _ (api : LabelApi) (g : Gazelle) (resolvers : List ConflictResolver) where
  -- `sc.ResolveConflict`, and the symbol as it was if there is no answer
  abbrev pub settle : List Import → Ref → Store → Ref
  settle imports sym store =
      if has_conflicts (store.at sym).conflicts
      then elim (resolve_conflicts api store resolvers imports sym) [ none ↦ sym | some r ↦ r ]
      else sym

  -- an import without an error, and what `ResolveSymbol` said
  abbrev pub assign_symbol : List Import → Import → List Import → Store → Option Ref → Import
  assign_symbol before imp after store none = record imp { error = some err_symbol_not_found }
  assign_symbol before imp after store (some sym) = record imp {
    symbol = some (settle (before ++ (record imp { symbol = some sym } ∷ after)) sym store);
  }

  -- the loop of `ResolveImports`
  unfoldable pub resolve_imports : List Import → List Import → SymbolResolver → Store → Round
  resolve_imports before [] r store = record { imports = before; resolver = r; store = store }
  resolve_imports before (imp ∷ after) r store = elim (is_nil imp.error) [
    | false ↦ resolve_imports (before ++ imp ∷ []) after r store
    | true ↦
        let answer = resolve_symbol g (codes "scala") r imp.imp store in
        resolve_imports (before ++ assign_symbol before imp after answer.store answer.symbol ∷ [])
          after answer.resolver answer.store
  ]

abbrev pub assign_export : Import → Option Ref → Import
assign_export imp none = record imp { error = some err_symbol_not_found }
assign_export imp (some sym) = record imp { symbol = some sym }

-- the loop of `ResolveExports`
unfoldable pub resolve_exports : Gazelle → List Import → SymbolResolver → Store → Round
resolve_exports g [] r store = record { imports = []; resolver = r; store = store }
resolve_exports g (imp ∷ rest) r store = elim (is_nil imp.error) [
  | false ↦
      let round = resolve_exports g rest r store in record round { imports = imp ∷ round.imports }
  | true ↦
      let answer = resolve_symbol g (codes "scala") r imp.imp store in
      let round = resolve_exports g rest answer.resolver answer.store in
      record round { imports = assign_export imp answer.symbol ∷ round.imports }
]
