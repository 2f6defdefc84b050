-- ===== src/Language/ScalaRule.antt =====
-- language/scala/scala_rule.go: the imports and the exports of one rule. The contents of a file are
-- those of message File in build/stack/gazelle/scala/parse/file.proto.
pub mod Imports
pub mod Resolve
pub mod Exports
use scala_gazelle.Prelude.{
  ℕ, suc, Str, str_has_eq, Bool, true, false, not, ◌||◌, Option, none, some, List, [], ◌∷◌, ◌++◌,
  ◌==◌, nat_beq, if◌then◌else◌, codes, has_substring, contains, drop, index_byte, last_index,
  is_nil, sort_by, map, Outcome, returned, panicked,
}
use scala_gazelle.Prelude.Map
use scala_gazelle.Prelude.Map.{Assoc}
use scala_gazelle.Label.{Label}
use scala_gazelle.Resolver.Symbol.{Ref, Store, require}
use scala_gazelle.Resolver.Scope
use scala_gazelle.Resolver.Scope.{Scope, Scopes, nil, cons, trie_scope, chain_scope}
use scala_gazelle.Resolver.TrieScope
use scala_gazelle.Resolver.TrieScope.{TrieScope, new_trie_scope}
use scala_gazelle.Resolver.Import.{
  Import, new_direct_import, new_semantic_import, new_resolved_name_import, new_extends_import,
  is_wildcard_import,
}
use scala_gazelle.Resolver.ImportMap.{OrderedImportMap, put_import_if_not_self}

pub record File : Type 0 where
  pub filename : Str
  pub imports : List Str
  pub semantic_imports : List Str
  pub packages : List Str
  pub extends : Assoc Str (List Str)
  pub classes : List Str
  pub objects : List Str
  pub traits : List Str
  pub types : List Str
  pub vals : List Str

-- `isBinaryRule`
unfoldable pub is_binary_rule : Str → Bool
is_binary_rule kind = has_substring kind (codes "binary") || has_substring kind (codes "test")

-- `isImportable`, of the kind and the tags of a rule
unfoldable pub is_importable : Str → List Str → Bool
is_importable kind tags =
    if is_binary_rule kind
    then false
    else if contains (codes "non-exportable") tags
    then false
    else true

-- `importBasename`
unfoldable pub import_basename : Str → Str
import_basename imp = elim (last_index 46 imp) [ none ↦ imp | some i ↦ drop (suc i) imp ]

-- `putExports`: a set of names is a list without duplicates
abbrev pub put_export : Str → List Str → List Str
put_export imp exports = if contains imp exports then exports else imp ∷ exports

unfoldable pub put_names : List Str → List Str → List Str
put_names [] exports = exports
put_names (imp ∷ names) exports = put_names names (put_export imp exports)

abbrev pub put_exports : File → List Str → List Str
put_exports file exports = put_names file.vals (
    put_names file.types
      (put_names file.traits (put_names file.objects (put_names file.classes exports))))

unfoldable pub put_file_exports : List File → List Str → List Str
put_file_exports [] exports = exports
put_file_exports (file ∷ files) exports = put_file_exports files (put_exports file exports)

-- the sorting and the exports in `newScalaRule`, and `Provides`
unfoldable pub sort_files : List File → List File
sort_files files = sort_by (λ f. f.filename) files

unfoldable pub provides : Str → List Str → List File → List Str
provides kind tags files =
    if is_importable kind tags
    then sort_by (λ s. s) (put_file_exports (sort_files files) [])
    else []

-- What `fileImports` uses of its rule: the outer scope, whether a wildcard import of a file is to be
-- fixed (`ShouldFixWildcardImport`), and the names that `fixWildcardImport` gives for the import
-- without "._", or `none` for its error.
pub record FileContext : Type 0 where
  pub scope : Scope
  pub from : Label
  pub should_fix_wildcard_import : Str → Str → Bool
  pub fix_wildcard_import : Str → Str → Option (List Str)

-- what the loops of `fileImports` write: the imports, the scope `direct`, the import scopes in the
-- order of the appends, the symbols, and the next free address
pub record FileState : Type 0 where
  pub imports : OrderedImportMap
  pub direct : TrieScope
  pub scopes : List Scope
  pub store : Store
  pub next : ℕ

module _ (ctx : FileContext) where
  -- `putImport`
  abbrev pub put_import : Import → FileState → FileState
  put_import imp st = record st {
    imports = put_import_if_not_self st.store ctx.from imp st.imports;
  }

  -- the loop over the names of a fixed wildcard import
  unfoldable pub put_fixed : File → Str → List Str → FileState → FileState
  put_fixed file wimp [] st = st
  put_fixed file wimp (name ∷ names) st =
      let fqn = wimp ++ (codes "." ++ name) in
      elim (Scope.get_symbol st.store ctx.scope fqn) [
        | some sym ↦
            put_fixed file wimp names (
              put_import (new_resolved_name_import (st.store.at sym).name file.filename fqn sym) st)
        | none ↦ put_fixed file wimp names st
      ]

  -- `if scope, ok := r.ctx.scope.GetScope(name)`
  abbrev pub collect_scope : Str → FileState → FileState
  collect_scope name st =
      let found = Scope.get_scope ctx.scope name st.next in
      elim found.0 [
        | none ↦ record st { next = found.1 }
        | some s ↦ record st { scopes = st.scopes ++ s ∷ []; next = found.1 }
      ]

  -- the part of a wildcard import behind its fix
  abbrev pub add_wildcard : File → Str → Str → FileState → FileState
  add_wildcard file name wimp st =
      collect_scope wimp (elim (Scope.get_symbol st.store ctx.scope name) [
        | some sym ↦
            put_import (new_resolved_name_import (st.store.at sym).name file.filename name sym) st
        | none ↦ put_import (new_direct_import name file.filename) st
      ])

  abbrev pub add_wildcard_import : File → Str → Str → FileState → Outcome FileState
  add_wildcard_import file name wimp st =
      if ctx.should_fix_wildcard_import file.filename name
      then elim (ctx.fix_wildcard_import file.filename wimp) [
        | none ↦ panicked
        | some names ↦ returned (add_wildcard file name wimp (put_fixed file wimp names st))
      ]
      else returned (add_wildcard file name wimp st)

  abbrev pub add_direct_import : File → Str → FileState → Outcome FileState
  add_direct_import file name st =
      let imp = new_direct_import name file.filename in
      elim (Scope.get_symbol st.store ctx.scope name) [
        | none ↦ returned (put_import imp st)
        | some sym ↦ elim (TrieScope.put (import_basename name) sym st.direct st.store) [
          | panicked ↦ panicked
          | returned p ↦ returned (
              put_import (record imp { symbol = some sym })
                (record st { direct = p.0; store = p.1 }))
        ]
      ]

  -- one round of the loop over `file.Imports`
  unfoldable pub add_import : File → Str → FileState → Outcome FileState
  add_import file name st = elim (is_wildcard_import name) [
    | some wimp ↦ add_wildcard_import file name wimp st
    | none ↦ add_direct_import file name st
  ]

  unfoldable pub add_imports : File → List Str → FileState → Outcome FileState
  add_imports file [] st = returned st
  add_imports file (name ∷ names) st = elim (add_import file name st) [
    | panicked ↦ panicked
    | returned st' ↦ add_imports file names st'
  ]

  unfoldable pub collect_scopes : List Str → FileState → FileState
  collect_scopes [] st = st
  collect_scopes (pkg ∷ packages) st = collect_scopes packages (collect_scope pkg st)

  abbrev pub to_scopes : List Scope → Scopes → Scopes
  to_scopes [] last = last
  to_scopes (s ∷ scopes) last = cons s (to_scopes scopes last)

  -- the final scope of a file: the collected scopes, the outer one, and the direct imports
  abbrev pub file_scope : FileState → Scope
  file_scope st =
      chain_scope (to_scopes st.scopes (cons ctx.scope (cons (trie_scope st.next st.direct) nil)))

  -- `resolvedOK && resolved != sym`
  abbrev pub require_extended : Option Ref → Ref → Store → Store
  require_extended none sym store = store
  require_extended (some resolved) sym store =
      if nat_beq resolved sym then store else require resolved sym store

  -- the loop over `extends.Classes`
  unfoldable pub add_extends : File → Scope → Str → Option Ref → List Str → FileState → FileState
  add_extends file scope name resolved [] st = st
  add_extends file scope name resolved (imp ∷ classes) st =
      elim (Scope.get_symbol st.store scope imp) [
        | none ↦ add_extends file scope name resolved classes st
        | some sym ↦
            let put =
              put_import (new_extends_import (st.store.at sym).name file.filename name (some sym))
                st in
            add_extends file scope name resolved classes
              (record put { store = require_extended resolved sym put.store })
      ]

  -- the loop over the sorted tokens, each "kind name"
  unfoldable pub add_extends_tokens :
      File → Scope → List (Str × List Str) → FileState → Outcome FileState
  add_extends_tokens file scope [] st = returned st
  add_extends_tokens file scope ((token, classes) ∷ tokens) st = elim (index_byte 32 token) [
    | none ↦ panicked
    | some i ↦
        let name = drop (suc i) token in
        let resolved = Scope.get_symbol st.store ctx.scope name in
        add_extends_tokens file scope tokens (add_extends file scope name resolved classes st)
  ]

  -- `fileImports`
  unfoldable pub file_imports : File → OrderedImportMap → Store → ℕ → Outcome FileState
  file_imports file imports store next =
      let begun : FileState = record {
        imports = imports;
        direct = new_trie_scope;
        scopes = [];
        store = store;
        next = next;
      } in
      elim (add_imports file file.imports begun) [
        | panicked ↦ panicked
        | returned st ↦
            let all = collect_scopes file.packages st in
            add_extends_tokens file (file_scope all) (sort_by (λ p. p.0) file.extends) all
      ]

  -- `fileSemanticImports`
  unfoldable pub file_semantic_imports :
      File → List Str → Store → OrderedImportMap → OrderedImportMap
  file_semantic_imports file [] store imports = imports
  file_semantic_imports file (name ∷ names) store imports =
      let imp = new_semantic_import name file.filename in
      file_semantic_imports file names store (
        put_import_if_not_self store ctx.from
          (record imp { symbol = Scope.get_symbol store ctx.scope imp.imp }) imports)
