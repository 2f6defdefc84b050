-- ===== src/Language/ScalaRule/Imports.antt =====
-- `Imports` of language/scala/scala_rule.go, with `GetImplicitImports` of pkg/scalaconfig/config.go
-- and the stack of pkg/collections/string_stack.go.
pub mod Closed
pub mod Ending
pub mod Consistent
pub mod Complete
use scala_gazelle.Prelude.{
  ℕ, zero, suc, Str, str_has_eq, Bool, true, false, not, Option, none, some, List, [], ◌∷◌, ◌++◌,
  ◌==◌, if◌then◌else◌, codes, Outcome, returned, panicked,
}
use scala_gazelle.Resolver.Symbol.{Store}
use scala_gazelle.Resolver.Import.{Import, new_implicit_import, new_main_class_import}
use scala_gazelle.Resolver.ImportMap
use scala_gazelle.Resolver.ImportMap.{OrderedImportMap, keys, empty}
use scala_gazelle.Language.ScalaRule.{
  File, FileContext, FileState, file_imports, file_semantic_imports, sort_files,
}

-- a `gazelle:resolve_with` directive
pub record ImplicitImportSpec : Type 0 where
  pub lang : Str
  pub imp : Str
  pub deps : List Str

-- `GetImplicitImports`
unfoldable pub get_implicit_imports : List ImplicitImportSpec → Str → Str → List Str
get_implicit_imports [] lang imp = []
get_implicit_imports (d ∷ specs) lang imp =
    let rest = get_implicit_imports specs lang imp in
    if not (d.lang == lang) then rest else if not (d.imp == imp) then rest else d.deps ++ rest

-- `StringStack`, with its top at the front
abbrev pub StringStack : Type 0
StringStack = List Str

abbrev pub push : Str → StringStack → StringStack
push x s = x ∷ s

abbrev pub pop : StringStack → Option (Str × StringStack)
pop [] = none
pop (x ∷ s) = some (x, s)

-- the keys of a map, as a stack: the last one is on top
abbrev pub to_stack : List Str → StringStack → StringStack
to_stack [] s = s
to_stack (x ∷ xs) s = to_stack xs (push x s)

-- the loop over the implicit imports of one name
unfoldable pub put_implicit :
    Str → List Str → StringStack × OrderedImportMap → StringStack × OrderedImportMap
put_implicit src [] (required, imports) = (required, imports)
put_implicit src (dst ∷ dsts) (required, imports) =
    put_implicit src dsts (push dst required, ImportMap.put (new_implicit_import dst src) imports)

module _ (implicit : Str → List Str) where
  -- `for !required.IsEmpty()`; `none` where the fuel does not suffice
  unfoldable pub gather : ℕ → StringStack → OrderedImportMap → Option OrderedImportMap
  gather zero required imports = none
  gather (suc fuel) [] imports = some imports
  gather (suc fuel) (src ∷ required) imports =
      let next = put_implicit src (implicit src) (required, imports) in gather fuel next.0 next.1

abbrev pub put_main_class : Str → OrderedImportMap → OrderedImportMap
put_main_class main_class imports =
    if main_class == [] then imports else ImportMap.put (new_main_class_import main_class) imports

-- the loop over the files, direct imports first
unfoldable pub all_file_imports :
    FileContext → List File → OrderedImportMap → Store → ℕ → Outcome (OrderedImportMap × Store)
all_file_imports ctx [] imports store next = returned (imports, store)
all_file_imports ctx (file ∷ files) imports store next =
    elim (file_imports ctx file imports store next) [
      | panicked ↦ panicked
      | returned st ↦ all_file_imports ctx files st.imports st.store st.next
    ]

unfoldable pub all_semantic_imports :
    FileContext → List File → Store → OrderedImportMap → OrderedImportMap
all_semantic_imports ctx [] store imports = imports
all_semantic_imports ctx (file ∷ files) store imports =
    all_semantic_imports ctx files store
      (file_semantic_imports ctx file file.semantic_imports store imports)

-- `Imports`: the result of the loop, and the symbols
unfoldable pub imports :
    FileContext
    → List ImplicitImportSpec
    → Str
    → List File
    → List Str
    → Store
    → ℕ
    → ℕ
    → Outcome (Option OrderedImportMap × Store)
imports ctx specs main_class files provided store next fuel =
    elim (all_file_imports ctx (sort_files files) (put_main_class main_class empty) store next) [
      | panicked ↦ panicked
      | returned p ↦
          let all = all_semantic_imports ctx (sort_files files) p.1 p.0 in
          returned (
            gather (get_implicit_imports specs (codes "scala")) fuel
                (to_stack (keys all ++ provided) []) all,
            p.1,
          )
    ]
