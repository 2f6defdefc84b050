-- ===== src/Language/ScalaRule/Exports.antt =====
-- `Exports` of language/scala/scala_rule.go: the imports of the extends clauses.
pub mod Free
use scala_gazelle.Prelude.{
  ℕ, suc, Str, Option, none, some, List, [], ◌∷◌, index_byte, drop, sort_by, Outcome, returned,
  panicked,
}
use scala_gazelle.Resolver.Symbol.{Ref, Store}
use scala_gazelle.Resolver.Scope
use scala_gazelle.Resolver.Scope.{Scope, nil, cons, trie_scope, chain_scope}
use scala_gazelle.Resolver.TrieScope.{new_trie_scope}
use scala_gazelle.Resolver.Import.{new_extends_import}
use scala_gazelle.Resolver.ImportMap.{OrderedImportMap, put_import_if_not_self, empty}
use scala_gazelle.Language.ScalaRule.{File, FileContext, require_extended, sort_files}

-- the exports, and the symbols
abbrev pub Exported : Type 0
Exported = OrderedImportMap × Store

module _ (ctx : FileContext) where
  -- a symbol without conflicts is exported
  abbrev export_symbol : File → Str → Option Ref → Ref → List Ref → Exported → Exported
  export_symbol file name resolved sym [] (exports, store) = (
    put_import_if_not_self store ctx.from
        (new_extends_import (store.at sym).name file.filename name (some sym)) exports,
    require_extended ctx resolved sym store,
  )
  export_symbol file name resolved sym (c ∷ conflicts) (exports, store) = (exports, store)

  -- one round of the loop over `extends.Classes`
  abbrev pub export_class : File → Scope → Str → Option Ref → Str → Exported → Exported
  export_class file scope name resolved imp (exports, store) =
      elim (Scope.get_symbol store scope imp) [
        | some sym ↦ export_symbol file name resolved sym (store.at sym).conflicts (exports, store)
        | none ↦ (
          put_import_if_not_self store ctx.from (new_extends_import imp file.filename name none)
              exports,
          store,
        )
      ]

  unfoldable pub export_classes : File → Scope → Str → Option Ref → List Str → Exported → Exported
  export_classes file scope name resolved [] e = e
  export_classes file scope name resolved (imp ∷ classes) e =
      export_classes file scope name resolved classes (export_class file scope name resolved imp e)

  -- the loop over the sorted tokens
  unfoldable pub export_tokens : File → Scope → List (Str × List Str) → Exported → Outcome Exported
  export_tokens file scope [] e = returned e
  export_tokens file scope ((token, classes) ∷ tokens) e = elim (index_byte 32 token) [
    | none ↦ panicked
    | some i ↦
        let name = drop (suc i) token in
        export_tokens file scope tokens
          (export_classes file scope name (Scope.get_symbol e.1 ctx.scope name) classes e)
  ]

  -- `fileExports`: the scope `direct` is empty, and `next` is its address
  unfoldable pub file_exports : File → ℕ → Exported → Outcome Exported
  file_exports file next e =
      export_tokens file (chain_scope (cons ctx.scope (cons (trie_scope next new_trie_scope) nil)))
        (sort_by (λ p. p.0) file.extends) e

  unfoldable pub all_file_exports : List File → ℕ → Exported → Outcome Exported
  all_file_exports [] next e = returned e
  all_file_exports (file ∷ files) next e = elim (file_exports file next e) [
    | panicked ↦ panicked
    | returned e' ↦ all_file_exports files (suc next) e'
  ]

  -- `Exports`
  unfoldable pub exports : List File → Store → ℕ → Outcome Exported
  exports files store next = all_file_exports (sort_files files) next (empty, store)
