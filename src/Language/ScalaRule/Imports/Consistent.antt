-- ===== src/Language/ScalaRule/Imports/Consistent.antt =====
-- The imports of files are put into a map that stays consistent.
use scala_gazelle.Prelude.{
  ℕ, Str, str_has_eq, Option, some, List, [], ◌∷◌, ◌++◌, ◌==◌, codes, Bool-cases, Option-cases, inl,
  inr, ◌≡◌, refl, arith, Outcome, returned, panicked, sort_by, index_byte, drop, suc, subst,
  Outcome-cases, ◌∙◌,
}
use scala_gazelle.Label.{Label}
use scala_gazelle.Resolver.Symbol.{Ref, Store}
use scala_gazelle.Resolver.Scope
use scala_gazelle.Resolver.Scope.{Scope}
use scala_gazelle.Resolver.TrieScope
use scala_gazelle.Resolver.TrieScope.{new_trie_scope}
use scala_gazelle.Resolver.Import.{
  Import, is_self_import, is_wildcard_import, new_direct_import, new_semantic_import,
  new_extends_import, new_resolved_name_import, new_main_class_import,
}
use scala_gazelle.Resolver.ImportMap.{OrderedImportMap, empty, put_import_if_not_self}
use scala_gazelle.Resolver.ImportMap.Order.{IsConsistent, put-IsConsistent, IsConsistent-empty}
use scala_gazelle.Language.ScalaRule.{
  File, FileContext, FileState, put_import, put_fixed, collect_scope, add_wildcard,
  add_wildcard_import, add_direct_import, add_import, add_imports, collect_scopes, file_scope,
  add_extends, add_extends_tokens, file_imports, file_semantic_imports, import_basename,
  require_extended,
}
use scala_gazelle.Language.ScalaRule.Imports.{
  put_main_class, all_file_imports, all_semantic_imports,
}

put_import_if_not_self-IsConsistent :
    (store : Store) (from : Label) (imp : Import) (m : OrderedImportMap)
    → IsConsistent m
    → IsConsistent (put_import_if_not_self store from imp m)
unfolding put_import_if_not_self
put_import_if_not_self-IsConsistent store from imp m c =
    elim (Bool-cases (is_self_import store imp.symbol from.repo from.pkg from.name)) [
      | inl e ↦ rw e c
      | inr e ↦ rw e (put-IsConsistent imp m c)
    ]

module _ (ctx : FileContext) where
  put_import-IsConsistent :
      (imp : Import) (st : FileState)
      → IsConsistent st.imports
      → IsConsistent (put_import ctx imp st).imports
  put_import-IsConsistent imp st c =
      put_import_if_not_self-IsConsistent st.store ctx.from imp st.imports c

  put_fixed-IsConsistent :
      (file : File) (wimp : Str) (names : List Str) (st : FileState)
      → IsConsistent st.imports
      → IsConsistent (put_fixed ctx file wimp names st).imports
  unfolding put_fixed
  put_fixed-IsConsistent file wimp [] st c = c
  put_fixed-IsConsistent file wimp (name ∷ names) st c =
      let fqn = wimp ++ (codes "." ++ name) in
      elim (Option-cases (Scope.get_symbol st.store ctx.scope fqn)) [
        | inl e ↦ rw (put_fixed, e) (put_fixed-IsConsistent file wimp names st c)
        | inr (s, e) ↦
            let imp = new_resolved_name_import (st.store.at s).name file.filename fqn s in
            rw (put_fixed, e)
              (put_fixed-IsConsistent file wimp names (put_import ctx imp st)
                (put_import-IsConsistent imp st c))
      ]

  collect_scope-imports :
      (name : Str) (st : FileState) → (collect_scope ctx name st).imports ≡ st.imports
  collect_scope-imports name st = ground arith

  add_wildcard-IsConsistent :
      (file : File) (name wimp : Str) (st : FileState)
      → IsConsistent st.imports
      → IsConsistent (add_wildcard ctx file name wimp st).imports
  add_wildcard-IsConsistent file name wimp st c =
      elim (Option-cases (Scope.get_symbol st.store ctx.scope name)) [
        | inl e ↦
            let imp = new_direct_import name file.filename in
            rw (e, collect_scope-imports wimp (put_import ctx imp st))
              (put_import-IsConsistent imp st c)
        | inr (s, e) ↦
            let imp = new_resolved_name_import (st.store.at s).name file.filename name s in
            rw (e, collect_scope-imports wimp (put_import ctx imp st))
              (put_import-IsConsistent imp st c)
      ]

  -- what is returned has consistent imports
  abbrev Keeps : Outcome FileState → Type 0
  Keeps panicked = Unit
  Keeps (returned st) = IsConsistent st.imports

  add_wildcard_import-Keeps :
      (file : File) (name wimp : Str) (st : FileState)
      → IsConsistent st.imports
      → Keeps (add_wildcard_import ctx file name wimp st)
  add_wildcard_import-Keeps file name wimp st c =
      elim (Bool-cases (ctx.should_fix_wildcard_import file.filename name)) [
        | inr e ↦ rw e (add_wildcard-IsConsistent file name wimp st c)
        | inl e ↦ elim (Option-cases (ctx.fix_wildcard_import file.filename wimp)) [
          | inl f ↦ rw (e, f) tt
          | inr (names, f) ↦
              rw (e, f)
                (add_wildcard-IsConsistent file name wimp (put_fixed ctx file wimp names st)
                  (put_fixed-IsConsistent file wimp names st c))
        ]
      ]

  add_direct_import-Keeps :
      (file : File) (name : Str) (st : FileState)
      → IsConsistent st.imports
      → Keeps (add_direct_import ctx file name st)
  add_direct_import-Keeps file name st c =
      let imp = new_direct_import name file.filename in
      elim (Option-cases (Scope.get_symbol st.store ctx.scope name)) [
        | inl e ↦ rw (Keeps, e) (put_import-IsConsistent imp st c)
        | inr (s, e) ↦
            elim (Outcome-cases (TrieScope.put (import_basename name) s st.direct st.store)) [
              | inl f ↦ rw (Keeps, e, f) tt
              | inr (p, f) ↦
                  rw (Keeps, e, f)
                    (put_import-IsConsistent (record imp { symbol = some s })
                      (record st { direct = p.0; store = p.1 }) c)
            ]
      ]

  add_import-Keeps :
      (file : File) (name : Str) (st : FileState)
      → IsConsistent st.imports
      → Keeps (add_import ctx file name st)
  unfolding add_import
  add_import-Keeps file name st c = elim (Option-cases (is_wildcard_import name)) [
    | inl e ↦ rw (Keeps, e) (add_direct_import-Keeps file name st c)
    | inr (wimp, e) ↦ rw (Keeps, e) (add_wildcard_import-Keeps file name wimp st c)
  ]

  Keeps-returned :
      (o : Outcome FileState) (st : FileState) → Keeps o → o ≡ returned st → IsConsistent st.imports
  Keeps-returned o st k e = subst Keeps e k

  add_imports-Keeps :
      (file : File) (names : List Str) (st : FileState)
      → IsConsistent st.imports
      → Keeps (add_imports ctx file names st)
  unfolding add_imports
  add_imports-Keeps file [] st c = c
  add_imports-Keeps file (name ∷ names) st c = elim (Outcome-cases (add_import ctx file name st)) [
    | inl e ↦ rw (add_imports, e) tt
    | inr (st', e) ↦
        rw (add_imports, e)
          (add_imports-Keeps file names st'
            (Keeps-returned (add_import ctx file name st) st' (add_import-Keeps file name st c) e))
  ]

  collect_scopes-imports :
      (packages : List Str) (st : FileState) → (collect_scopes ctx packages st).imports ≡ st.imports
  unfolding collect_scopes
  collect_scopes-imports [] st = refl
  collect_scopes-imports (pkg ∷ packages) st =
      collect_scopes-imports packages (collect_scope ctx pkg st) ∙ collect_scope-imports pkg st

  add_extends-IsConsistent :
      (file : File) (scope : Scope) (name : Str) (resolved : Option Ref) (classes : List Str)
      (st : FileState)
      → IsConsistent st.imports
      → IsConsistent (add_extends ctx file scope name resolved classes st).imports
  unfolding add_extends
  add_extends-IsConsistent file scope name resolved [] st c = c
  add_extends-IsConsistent file scope name resolved (imp ∷ classes) st c =
      elim (Option-cases (Scope.get_symbol st.store scope imp)) [
        | inl e ↦
            rw (add_extends, e) (add_extends-IsConsistent file scope name resolved classes st c)
        | inr (s, e) ↦
            let new = new_extends_import (st.store.at s).name file.filename name (some s) in
            let put = put_import ctx new st in
            rw (add_extends, e)
              (add_extends-IsConsistent file scope name resolved classes
                (record put { store = require_extended ctx resolved s put.store })
                (put_import-IsConsistent new st c))
      ]

  add_extends_tokens-Keeps :
      (file : File) (scope : Scope) (tokens : List (Str × List Str)) (st : FileState)
      → IsConsistent st.imports
      → Keeps (add_extends_tokens ctx file scope tokens st)
  unfolding add_extends_tokens
  add_extends_tokens-Keeps file scope [] st c = c
  add_extends_tokens-Keeps file scope ((token, classes) ∷ tokens) st c =
      elim (Option-cases (index_byte 32 token)) [
        | inl e ↦ rw (add_extends_tokens, e) tt
        | inr (i, e) ↦
            let name = drop (suc i) token in
            let resolved = Scope.get_symbol st.store ctx.scope name in
            rw (add_extends_tokens, e)
              (add_extends_tokens-Keeps file scope tokens
                (add_extends ctx file scope name resolved classes st)
                (add_extends-IsConsistent file scope name resolved classes st c))
      ]

  file_imports-Keeps :
      (file : File) (m : OrderedImportMap) (store : Store) (next : ℕ)
      → IsConsistent m
      → Keeps (file_imports ctx file m store next)
  unfolding file_imports
  file_imports-Keeps file m store next c =
      let begun : FileState = record {
        imports = m;
        direct = new_trie_scope;
        scopes = [];
        store = store;
        next = next;
      } in
      elim (Outcome-cases (add_imports ctx file file.imports begun)) [
        | inl e ↦ rw (Keeps, e) tt
        | inr (st, e) ↦
            let all = collect_scopes ctx file.packages st in
            let k =
              Keeps-returned (add_imports ctx file file.imports begun) st
                (add_imports-Keeps file file.imports begun c) e in
            rw (Keeps, e)
              (add_extends_tokens-Keeps file (file_scope ctx all) (sort_by (λ p. p.0) file.extends)
                all (rw (collect_scopes-imports file.packages st) k))
      ]

  file_semantic_imports-IsConsistent :
      (file : File) (names : List Str) (store : Store) (m : OrderedImportMap)
      → IsConsistent m
      → IsConsistent (file_semantic_imports ctx file names store m)
  unfolding file_semantic_imports
  file_semantic_imports-IsConsistent file [] store m c = c
  file_semantic_imports-IsConsistent file (name ∷ names) store m c =
      let imp = new_semantic_import name file.filename in
      let found : Import = record imp { symbol = Scope.get_symbol store ctx.scope imp.imp } in
      file_semantic_imports-IsConsistent file names store
        (put_import_if_not_self store ctx.from found m)
        (put_import_if_not_self-IsConsistent store ctx.from found m c)

  pub all_semantic_imports-IsConsistent :
      (files : List File) (store : Store) (m : OrderedImportMap)
      → IsConsistent m
      → IsConsistent (all_semantic_imports ctx files store m)
  unfolding all_semantic_imports
  all_semantic_imports-IsConsistent [] store m c = c
  all_semantic_imports-IsConsistent (file ∷ files) store m c =
      all_semantic_imports-IsConsistent files store
        (file_semantic_imports ctx file file.semantic_imports store m)
        (file_semantic_imports-IsConsistent file file.semantic_imports store m c)

  pub all_file_imports-IsConsistent :
      (files : List File) (m : OrderedImportMap) (store : Store) (next : ℕ)
      (out : OrderedImportMap × Store)
      → IsConsistent m
      → all_file_imports ctx files m store next ≡ returned out
      → IsConsistent out.0
  unfolding all_file_imports
  all_file_imports-IsConsistent [] m store next out c h =
      subst IsConsistent (let same : m ≡ out.0 = ground (arith, h) in same) c
  all_file_imports-IsConsistent (file ∷ files) m store next out c h =
      elim (Outcome-cases (file_imports ctx file m store next)) [
        | inl e ↦ ground (arith, e, h)
        | inr (st, e) ↦
            all_file_imports-IsConsistent files st.imports st.store st.next out
              (Keeps-returned (file_imports ctx file m store next) st
                (file_imports-Keeps file m store next c) e)
              (ground (arith, e, h))
      ]

pub put_main_class-IsConsistent :
    (main_class : Str) → IsConsistent (put_main_class main_class empty)
put_main_class-IsConsistent main_class = elim (Bool-cases (main_class == [])) [
  | inl e ↦ rw e IsConsistent-empty
  | inr e ↦ rw e (put-IsConsistent (new_main_class_import main_class) empty IsConsistent-empty)
]
