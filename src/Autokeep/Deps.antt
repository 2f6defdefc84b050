-- ===== src/Autokeep/Deps.antt =====
-- pkg/autokeep/deps.go: the labels that provide missing symbols, and the changes to the deps.
pub mod Delta
use scala_gazelle.Prelude.{
  Str, str_has_eq, Bool, true, false, Option, none, some, List, [], ◌∷◌, ◌++◌, ◌==◌, codes,
  if◌then◌else◌, contains, or_else, trim_space, scan_lines, scan_fails, fields,
}
use scala_gazelle.Prelude.Map
use scala_gazelle.Prelude.Map.{Assoc}
use scala_gazelle.Autokeep.Diagnostics.{
  ErrorKind, missing_symbol, not_a_member_of_package, buildozer_unused_dep, ScalacError, RuleDeps,
  DeltaDeps,
}

abbrev pub DepsMap : Type 0
DepsMap = Assoc Str Str

-- the rule of an error, with its first dep. `rules` is never written: every error has its own.
abbrev pub rule_deps : ScalacError → Str → RuleDeps
rule_deps e dep = record { label = e.rule_label; build_file = e.build_file; deps = dep ∷ [] }

abbrev pub add_provided : Option Str → ScalacError → DeltaDeps → DeltaDeps
add_provided none e delta = delta
add_provided (some label) e delta = record delta { add = delta.add ++ rule_deps e label ∷ [] }

-- the switch over the error
abbrev pub add_error : DepsMap → ScalacError → Option ErrorKind → DeltaDeps → DeltaDeps
add_error deps e none delta = delta
add_error deps e (some (missing_symbol file sym)) delta = add_provided (Map.get sym deps) e delta
add_error deps e (some (not_a_member_of_package symbol pkg)) delta =
    add_provided (Map.get (pkg ++ (codes "." ++ symbol)) deps) e delta
add_error deps e (some (buildozer_unused_dep dep label)) delta = record delta {
  remove = delta.remove ++ rule_deps e dep ∷ [];
}

unfoldable pub add_all_errors : DepsMap → List ScalacError → DeltaDeps → DeltaDeps
add_all_errors deps [] delta = delta
add_all_errors deps (e ∷ errors) delta = add_all_errors deps errors (add_error deps e e.error delta)

-- `MakeDeltaDeps`
unfoldable pub make_delta_deps : DepsMap → List ScalacError → DeltaDeps
make_delta_deps deps errors = add_all_errors deps errors (record { add = []; remove = [] })

-- a file of the cache, with the symbols that are read
pub record CachedFile : Type 0 where
  pub classes : List Str
  pub objects : List Str
  pub traits : List Str
  pub types : List Str

pub record CachedRule : Type 0 where
  pub label : Str
  pub files : List CachedFile

unfoldable pub put_symbols : Str → List Str → DepsMap → DepsMap
put_symbols label [] deps = deps
put_symbols label (s ∷ symbols) deps = put_symbols label symbols (Map.put s label deps)

abbrev pub put_file : Str → CachedFile → DepsMap → DepsMap
put_file label file deps = put_symbols label file.types (
    put_symbols label file.traits
      (put_symbols label file.objects (put_symbols label file.classes deps)))

unfoldable pub put_files : Str → List CachedFile → DepsMap → DepsMap
put_files label [] deps = deps
put_files label (file ∷ files) deps = put_files label files (put_file label file deps)

-- `MergeDepsFromCache`
unfoldable pub merge_deps_from_cache : List CachedRule → DepsMap → DepsMap
merge_deps_from_cache [] deps = deps
merge_deps_from_cache (rule ∷ rules) deps =
    merge_deps_from_cache rules (put_files rule.label rule.files deps)

-- the fields of a line: an import and its label, or a line that is skipped
abbrev pub put_fields : List Str → DepsMap → DepsMap
put_fields (imp ∷ label ∷ []) deps = Map.put imp label deps
put_fields _ deps = deps

unfoldable pub put_lines : List Str → DepsMap → DepsMap
put_lines [] deps = deps
put_lines (line ∷ lines) deps = put_lines lines (put_fields (fields (trim_space line)) deps)

-- `MergeDepsFromImports`: the map, and whether the scanner failed. An empty line has no fields.
unfoldable pub merge_deps_from_imports : Str → DepsMap → DepsMap × Bool
merge_deps_from_imports text deps = (put_lines (scan_lines text) deps, scan_fails text)

-- an item of a deps list
pub data Expr : Type 0 where
  string_expr : Str → Expr
  other_expr : Expr

abbrev pub is_removed : List Str → Expr → Bool
is_removed deps (string_expr s) = contains s deps
is_removed deps other_expr = false

-- the loop of `remove` over the deps list
unfoldable pub remove_deps : List Str → List Expr → List Expr
remove_deps deps [] = []
remove_deps deps (item ∷ items) =
    let rest = remove_deps deps items in if is_removed deps item then rest else item ∷ rest

-- the loop of `add` over the deps of a rule
unfoldable pub add_deps : List Str → List Expr → List Expr
add_deps [] items = items
add_deps (dep ∷ deps) items = add_deps deps (items ++ string_expr dep ∷ [])
