-- ===== src/ScalaConfig/MergeDeps.antt =====
-- `mergeDeps` of pkg/scalaconfig/config.go: which items of a deps list stay, and which are new. Its
-- annotations are off, and its final sort is left out.
pub mod Stable
use scala_gazelle.Prelude.{
  Str, str_has_eq, Bool, true, false, not, ◌&&◌, ◌||◌, Option, none, some, List, [], ◌∷◌, ◌++◌,
  ◌==◌, codes, if◌then◌else◌, contains, is_nil, trim_space,
}
use scala_gazelle.Prelude.Map
use scala_gazelle.Prelude.Map.{Assoc}
use scala_gazelle.Label.{Label, LabelApi, label_has_eq}
use scala_gazelle.Resolver.Import.{
  ImportKind, import_kind_unknown, direct, main_class, implicit, extends, resolved_name, transitive,
  semantic,
}
use scala_gazelle.Resolver.ImportMap.{ImportLabel}

mutual
  -- the syntax of package build of buildtools, as far as the source tells it apart: the name of a call
  -- that calls an identifier
  pub data Syntax : Type 0 where
    string_expr : Str → Syntax
    call_expr : Option Str → Items → Syntax
    other_expr : Str → Syntax

  pub data Items : Type 0 where
    nil : Items
    cons : Syntax → Items → Items

-- an item, and the tokens of its suffix comments
pub record Expr : Type 0 where
  pub syntax : Syntax
  pub suffix : List Str

pub data AttrName : Type 0 where
  deps_attr other_attr : AttrName

abbrev pub is_deps_attr : AttrName → Bool
is_deps_attr deps_attr = true
is_deps_attr other_attr = false

-- `labelFromDepExpr`
abbrev parsed_or_no_label : LabelApi → Option Label → Label
parsed_or_no_label api none = api.no_label
parsed_or_no_label api (some l) = l

abbrev label_of_items : LabelApi → Items → Label
label_of_items api (cons (string_expr s) items) = parsed_or_no_label api (api.parse s)
label_of_items api _ = api.no_label

abbrev pub label_of_syntax : LabelApi → Syntax → Label
label_of_syntax api (string_expr s) = parsed_or_no_label api (api.parse s)
label_of_syntax api (call_expr none items) = api.no_label
label_of_syntax api (call_expr (some name) items) =
    if name == codes "scala_dep" then label_of_items api items else api.no_label
label_of_syntax api (other_expr s) = api.no_label

unfoldable pub label_from_dep_expr : LabelApi → Expr → Label
label_from_dep_expr api e = label_of_syntax api e.syntax

-- `isTransitive`
unfoldable pub is_transitive : List Str → Bool
is_transitive [] = false
is_transitive (token ∷ suffix) =
    if trim_space token == codes "# TRANSITIVE" then true else is_transitive suffix

-- `imp.Kind` with %v
abbrev pub kind_name : ImportKind → Str
kind_name import_kind_unknown = codes "IMPORT_KIND_UNKNOWN"
kind_name direct = codes "DIRECT"
kind_name main_class = codes "MAIN_CLASS"
kind_name implicit = codes "IMPLICIT"
kind_name extends = codes "EXTENDS"
kind_name resolved_name = codes "RESOLVED_NAME"
kind_name transitive = codes "TRANSITIVE"
kind_name semantic = codes "SEMANTIC"

-- `depSuffixComment`
unfoldable pub dep_suffix_comment : ImportKind → Str
dep_suffix_comment kind = codes "# " ++ kind_name kind

-- `HasTag`
unfoldable pub has_tag : List Str → Str → Bool
has_tag tags want = contains want tags

-- `shouldKeepUnmanagedDeps`
unfoldable pub should_keep_unmanaged_deps : Bool → List Str → AttrName → Bool
should_keep_unmanaged_deps keep_unmanaged_deps tags attr =
    if not (is_deps_attr attr)
    then true
    else if has_tag tags (codes "no-unmanaged-deps")
    then false
    else keep_unmanaged_deps

-- What `mergeDeps` is called with. `should_keep` is `rule.ShouldKeep` of bazel-gazelle.
pub record Merge : Type 0 where
  pub api : LabelApi
  pub should_keep : Expr → Bool
  pub deps : Assoc Label Bool
  pub import_labels : Assoc Label ImportLabel
  pub attr_name : AttrName
  pub tags : List Str
  pub keep_unmanaged_deps : Bool

module _ (m : Merge) where
  -- an item whose label no import needs
  abbrev pub keeps_unmanaged : Expr → Bool
  keeps_unmanaged e =
      if has_tag m.tags (codes "cleanup-unmanaged-deps")
      then true
      else if is_transitive e.suffix
      then true
      else should_keep_unmanaged_deps m.keep_unmanaged_deps m.tags m.attr_name

  -- Whether the first loop copies an item. The call of `shouldKeep` has no effect: a managed item is
  -- not copied either way.
  unfoldable pub is_copied : Expr → Bool
  is_copied e =
      let dep = label_from_dep_expr m.api e in
      if dep == m.api.no_label
      then true
      else if m.should_keep e
      then is_nil (Map.get dep m.deps)
      else is_nil (Map.get dep m.import_labels) && keeps_unmanaged e

  unfoldable pub copy_exprs : List Expr → List Expr
  copy_exprs [] = []
  copy_exprs (e ∷ src) = let rest = copy_exprs src in if is_copied e then e ∷ rest else rest

  -- the new item of a label; an import that is missing is dereferenced there
  abbrev pub kind_of : Option ImportLabel → ImportKind
  kind_of none = import_kind_unknown
  kind_of (some l) = l.import.kind

  unfoldable pub new_dep : Label → Expr
  new_dep dep = record {
    syntax = string_expr (m.api.to_string dep);
    suffix = dep_suffix_comment (kind_of (Map.get dep m.import_labels)) ∷ [];
  }

  -- the loop over `deps`
  unfoldable pub new_deps : Assoc Label Bool → List Expr
  new_deps [] = []
  new_deps ((dep, want) ∷ deps) =
      let rest = new_deps deps in if want then new_dep dep ∷ rest else rest

  -- `mergeDeps`, of the items of the list
  unfoldable pub merge_deps : List Expr → List Expr
  merge_deps src = copy_exprs src ++ new_deps m.deps
