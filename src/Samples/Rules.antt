-- ===== src/Samples/Rules.antt =====
-- The imports and the deps of a rule, on small rules.
use scala_gazelle.Prelude.{
  ℕ, ◌≡◌, ◌≢◌, refl, arith, Str, str_has_eq, str_eq_iff, codes, Bool, true, false, ◌==◌, nat_beq,
  none, some, List, [], ◌∷◌, ◌++◌, if◌then◌else◌, contains, returned, panicked,
}
use scala_gazelle.Prelude.Map
use scala_gazelle.Label.{Label, LabelApi, label_has_eq, label_eq}
use scala_gazelle.Collections.Slice.{slice_insert_at}
use scala_gazelle.Resolver.Symbol.{Symbol, Store, Ref, class}
use scala_gazelle.Resolver.Scope
use scala_gazelle.Resolver.TrieScope
use scala_gazelle.Resolver.ImportSegmenter.{import_segmenter}
use scala_gazelle.Collections.PathTrie.{find_child}
use scala_gazelle.Collections.PathTrie.Walk.{visit, path_calls, path_steps}
use scala_gazelle.Resolver.Scope.{trie_scope}
use scala_gazelle.Resolver.TrieScope.{new_trie_scope}
use scala_gazelle.Resolver.Import.{
  new_direct_import, new_main_class_import, new_implicit_import, new_extends_import, is_self_import,
}
use scala_gazelle.Resolver.ImportMap
use scala_gazelle.Resolver.ImportMap.{OrderedImportMap, keys, empty, put_import_if_not_self}
use scala_gazelle.Resolver.SymbolResolver.{Gazelle, SymbolResolver, scope_resolver}
use scala_gazelle.Resolver.ConflictResolver.{
  preferred_deps, scala_grpc_zio, resolve_conflicts, resolve_conflict, is_grpc_label,
  resolve_preferred_deps,
}
use scala_gazelle.Resolver.ConflictResolver.Choice.{is_candidate, resolve_conflicts-is_candidate}
use scala_gazelle.Language.ScalaRule.{FileContext, File, sort_files}
use scala_gazelle.Language.ScalaRule.Exports.{
  Exported, exports, all_file_exports, file_exports, export_tokens, export_classes,
}
use scala_gazelle.Language.ScalaRule.Exports.Free.{AllFree, exports-AllFree}
use scala_gazelle.Language.ScalaRule.Imports.{
  ImplicitImportSpec, get_implicit_imports, gather, put_implicit, imports, all_file_imports,
  all_semantic_imports,
}
use scala_gazelle.Language.ScalaRule.Imports.Ending.{IsRanked, IsCyclic, gather-ends, gather-cyclic}
use scala_gazelle.Language.ScalaRule.Imports.Complete.{imports-closed}
use scala_gazelle.ScalaConfig.MergeDeps.{Merge, deps_attr}
use scala_gazelle.ScalaConfig.Named.{remove_named}
use scala_gazelle.ScalaConfig.Named.Removal.{doubled, remove_named-doubled}

abbrev nowhere : Label
nowhere = record { repo = []; pkg = []; name = []; relative = false }

abbrev label_at : Str → Label
label_at pkg = record { repo = []; pkg = pkg; name = codes "lib"; relative = false }

abbrev known_labels : LabelApi
known_labels = record {
  no_label = nowhere;
  rel = λ l repo pkg. l;
  to_string = λ l. codes "//" ++ (l.pkg ++ codes ":lib");
  parse = λ s. if s == codes "//a:lib" then some (label_at (codes "a")) else none;
}

-- two symbols of one name: the first lists the second as a conflict
abbrev symbol_in : Str → List Ref → Symbol
symbol_in pkg conflicts = record {
  kind = class;
  name = codes "a.B";
  label = label_at pkg;
  provider = codes "source";
  conflicts = conflicts;
  requires = [];
}

abbrev both : Store
both = record {
  at = λ r. if nat_beq r 0 then symbol_in (codes "a") (1 ∷ []) else symbol_in (codes "b") [];
  next = 2;
}

abbrev prefer_b : Map.Assoc Str Label
prefer_b = (codes "a.B", label_at (codes "b")) ∷ []

chosen :
    resolve_conflicts known_labels both (scala_grpc_zio ∷ preferred_deps prefer_b ∷ []) [] 0
    ≡ some 1
unfolding resolve_conflicts resolve_conflict is_grpc_label label_eq
chosen = refl

resolve_conflicts-is_candidate_example : is_candidate both 0 1 ≡ true
resolve_conflicts-is_candidate_example =
    resolve_conflicts-is_candidate known_labels both (scala_grpc_zio ∷ preferred_deps prefer_b ∷ [])
      [] 0 1 chosen

preferred : resolve_preferred_deps both prefer_b 0 ≡ some 1
unfolding resolve_preferred_deps label_eq
preferred = refl

-- x needs y, and z needs itself
abbrev needs : Str → List Str
needs k = if k == codes "x" then codes "y" ∷ [] else []

abbrev height : Str → ℕ
height k = if k == codes "x" then 1 else 0

needs-IsRanked : IsRanked needs height
needs-IsRanked k d h = ground (arith, h, str_eq_iff d (codes "y"))

gather-ends_example : gather needs 3 (codes "x" ∷ []) empty ≢ none
gather-ends_example = gather-ends needs height 3 (codes "x" ∷ []) empty needs-IsRanked (omega arith)

abbrev needs_itself : Str → List Str
needs_itself k = if k == codes "z" then codes "z" ∷ [] else []

abbrev is_z : Str → Bool
is_z k = k == codes "z"

needs_itself-IsCyclic : IsCyclic needs_itself is_z
needs_itself-IsCyclic k h = rw h refl

gather-cyclic_example : gather needs_itself 100 (codes "z" ∷ []) empty ≡ none
gather-cyclic_example =
    gather-cyclic needs_itself is_z 100 (codes "z" ∷ []) empty needs_itself-IsCyclic refl

abbrev empty_context : FileContext
empty_context = record {
  scope = trie_scope 0 new_trie_scope;
  from = label_at (codes "a");
  should_fix_wildcard_import = λ file name. false;
  fix_wildcard_import = λ file wimp. none;
}

abbrev x_needs_y : List ImplicitImportSpec
x_needs_y = record { lang = codes "scala"; imp = codes "x"; deps = codes "y" ∷ [] } ∷ []

abbrev x_and_y : OrderedImportMap
x_and_y = record {
  values = new_main_class_import (codes "x") ∷ new_implicit_import (codes "y") (codes "x") ∷ [];
  has = (codes "x", true) ∷ (codes "y", true) ∷ [];
}

gathered :
    imports empty_context x_needs_y (codes "x") [] [] both 1 4 ≡ returned (some x_and_y, both)
unfolding imports all_file_imports all_semantic_imports sort_files gather put_implicit
    get_implicit_imports ImportMap.put new_main_class_import new_implicit_import
gathered = refl

y_is_needed :
    contains (codes "y") (get_implicit_imports x_needs_y (codes "scala") (codes "x")) ≡ true
unfolding get_implicit_imports
y_is_needed = refl

imports-closed_example : contains (codes "y") (keys x_and_y) ≡ true
unfolding new_main_class_import
imports-closed_example =
    imports-closed empty_context x_needs_y (codes "x") [] [] both both 1 4 x_and_y (codes "x")
      (codes "y") gathered refl y_is_needed

abbrev no_rules : Gazelle
no_rules = record { find_override = λ lang imp own. none; find_rules = λ lang imp own. [] }

abbrev empty_resolver : SymbolResolver
empty_resolver = scope_resolver (trie_scope 0 new_trie_scope)

abbrev a_merge : Merge
a_merge = record {
  api = known_labels;
  should_keep = λ e. false;
  deps = (label_at (codes "a"), true) ∷ [];
  import_labels =
      (
        label_at (codes "a"),
        record {
          import = new_direct_import (codes "a.B") (codes "X.scala");
          label = label_at (codes "a");
        },
      )
      ∷ [];
  attr_name = deps_attr;
  tags = [];
  keep_unmanaged_deps = false;
}

remove_named-doubled_example :
    remove_named
      (λ s. s)
      some
      (codes "p")
      3
      0
      (doubled (λ s. s) some (codes "p") (codes "q" ∷ []) (codes "p") (codes "p"))
    ≡ panicked
remove_named-doubled_example =
    remove_named-doubled (λ s. s) some (codes "p") (codes "q" ∷ []) (codes "p") (codes "p")
      (refl, tt) refl refl

inserted_one : slice_insert_at {A = ℕ} (7 ∷ 9 ∷ []) 1 8 ≡ returned (7 ∷ 8 ∷ 9 ∷ [])
unfolding slice_insert_at
inserted_one = refl

abbrev child_file : File
child_file = record {
  filename = codes "X.scala";
  imports = [];
  semantic_imports = [];
  packages = [];
  extends = (codes "class a.C", codes "B" ∷ []) ∷ [];
  classes = codes "a.C" ∷ [];
  objects = [];
  traits = [];
  types = [];
  vals = [];
}

-- the class that is extended is unknown
abbrev one_export : Exported
one_export = (
  record {
    values = new_extends_import (codes "B") (codes "X.scala") (codes "a.C") none ∷ [];
    has = (codes "B", true) ∷ [];
  },
  both,
)

exported : exports empty_context (child_file ∷ []) both 1 ≡ returned one_export
unfolding exports all_file_exports sort_files file_exports export_tokens export_classes
    Scope.get_symbol TrieScope.get_symbol visit path_calls path_steps import_segmenter find_child
    put_import_if_not_self is_self_import new_extends_import ImportMap.put
exported = refl

exports-AllFree_example : AllFree one_export
exports-AllFree_example = exports-AllFree empty_context (child_file ∷ []) both 1 one_export exported
