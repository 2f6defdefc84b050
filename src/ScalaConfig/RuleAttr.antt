-- ===== src/ScalaConfig/RuleAttr.antt =====
-- `Imports`, `Exports` and `ruleAttrMergeDeps` of pkg/scalaconfig/config.go: an attribute of a rule
-- from the imports, with the tags and the unmanaged deps that `mergeDeps` writes to the rule.
pub mod Merged
pub mod Tagged
use scala_gazelle.Prelude.{
  Str, str_has_eq, Bool, true, false, not, ◌&&◌, ◌||◌, Option, none, some, List, [], ◌∷◌, ◌++◌,
  ◌==◌, if◌then◌else◌, codes, is_nil, str_lt,
}
use scala_gazelle.Prelude.Map
use scala_gazelle.Prelude.Map.{Assoc}
use scala_gazelle.Label.{Label, LabelApi, label_has_eq}
use scala_gazelle.Collections.Slice.{items}
use scala_gazelle.Resolver.Symbol.{Store}
use scala_gazelle.Resolver.ImportMap.{OrderedImportMap, ImportLabel, deps}
use scala_gazelle.ScalaConfig.State.{Config, maybe_rewrite}
use scala_gazelle.ScalaConfig.MergeDeps.{
  Syntax, string_expr, call_expr, other_expr, Expr, AttrName, deps_attr, other_attr, is_deps_attr,
  Merge, label_from_dep_expr, has_tag, merge_deps,
}

pub data AttrValue : Type 0 where
  list_value : List Expr → AttrValue
  other_value : Syntax → AttrValue

-- What a rule of bazel-gazelle holds: its attributes deps and exports, the strings of its tags, and
-- the private attribute for the unmanaged deps.
pub record Rule : Type 0 where
  pub kind : Str
  pub deps : Option AttrValue
  pub exports : Option AttrValue
  pub tags : List Str
  pub unmanaged_deps : Option (List Str)

abbrev pub attr : AttrName → Rule → Option AttrValue
attr deps_attr r = r.deps
attr other_attr r = r.exports

-- `SetAttr` and `DelAttr`
abbrev pub assign_attr : AttrName → Option AttrValue → Rule → Rule
assign_attr deps_attr v r = record r { deps = v }
assign_attr other_attr v r = record r { exports = v }

-- the loop of `removeTag`
unfoldable pub other_tags : Str → List Str → List Str
other_tags want [] = []
other_tags want (tag ∷ tags) =
    let rest = other_tags want tags in if tag == want then rest else tag ∷ rest

-- `removeTag`; a rule without tags has no attribute for them
unfoldable pub remove_tag : Str → Rule → Rule
remove_tag want r = if has_tag r.tags want then record r { tags = other_tags want r.tags } else r

abbrev pub cleanup_tag : Str
cleanup_tag = codes "cleanup-unmanaged-deps"

abbrev pub no_unmanaged_tag : Str
no_unmanaged_tag = codes "no-unmanaged-deps"

-- the items of the current list, or of a new one
abbrev pub current_items : Option AttrValue → List Expr
current_items none = []
current_items (some (list_value es)) = es
current_items (some (other_value e)) = []

module _ (m : Merge) where
  -- the item has a label without "# keep" that no import needs
  abbrev pub is_unmanaged : Expr → Bool
  is_unmanaged e =
      let dep = label_from_dep_expr m.api e in
      not (dep == m.api.no_label) && (not (m.should_keep e) && is_nil (Map.get dep m.import_labels))

  -- the strings that the loop of `mergeDeps` appends to `unmanaged`
  unfoldable pub unmanaged_of : List Expr → List Str
  unmanaged_of [] = []
  unmanaged_of (e ∷ es) =
      let rest = unmanaged_of es in
      if is_unmanaged e && has_tag m.tags cleanup_tag
      then m.api.to_string (label_from_dep_expr m.api e) ∷ rest
      else rest

  abbrev pub any_unmanaged : List Expr → Bool
  any_unmanaged [] = false
  any_unmanaged (e ∷ es) = is_unmanaged e || any_unmanaged es

abbrev pub value_of : Syntax → Option Str
value_of (string_expr s) = some s
value_of (call_expr f es) = none
value_of (other_expr s) = none

abbrev str_lt_or : Bool → Option Str → Option Str → Bool
str_lt_or b (some s) (some t) = str_lt s t
str_lt_or b _ _ = b

-- the comparison of the final sorting, with `FormatString` of buildtools
abbrev pub expr_lt : (Expr → Str) → Expr → Expr → Bool
expr_lt format e f =
    str_lt_or (str_lt (format e) (format f)) (value_of e.syntax) (value_of f.syntax)

-- sort.SliceStable, as it inserts: an item moves down past those that are greater. The items before it
-- stand in reverse. (A list of more than 20 items is sorted by blocks and merged, which gives the
-- same list if the comparison is a strict weak order.)
unfoldable pub move_down : (Expr → Str) → Expr → List Expr → List Expr
move_down format e [] = e ∷ []
move_down format e (f ∷ before) =
    let rest = move_down format e before in if expr_lt format e f then f ∷ rest else e ∷ f ∷ before

unfoldable pub sort_from : (Expr → Str) → List Expr → List Expr → List Expr
sort_from format before [] = before
sort_from format before (e ∷ es) = sort_from format (move_down format e before) es

abbrev reverse_onto : List Expr → List Expr → List Expr
reverse_onto [] done = done
reverse_onto (e ∷ es) done = reverse_onto es (e ∷ done)

unfoldable pub sort_stable : (Expr → Str) → List Expr → List Expr
sort_stable format es = reverse_onto (sort_from format [] es) []

-- the end of `mergeDeps`, for an attribute deps
abbrev pub clean_tags : Bool → Rule → Rule
clean_tags has_unmanaged r =
    let r' = if has_unmanaged then r else remove_tag cleanup_tag r in
    if has_tag r'.tags no_unmanaged_tag then remove_tag cleanup_tag r' else r'

abbrev pub record_unmanaged : AttrName → List Str → Rule → Rule
record_unmanaged deps_attr (l ∷ ls) r = record r { unmanaged_deps = some (l ∷ ls) }
record_unmanaged _ _ r = r

-- `mergeDeps`: the list, and the rule
unfoldable pub merge_deps_of : (Expr → Str) → Merge → Rule → List Expr × Rule
merge_deps_of format m r =
    let src = current_items (attr m.attr_name r) in
    let r' = record_unmanaged m.attr_name (unmanaged_of m src) r in
    (
      sort_stable format (merge_deps m src),
      if is_deps_attr m.attr_name then clean_tags (any_unmanaged m src) r' else r',
    )

-- the loop that marks the labels of the imports as wanted
unfoldable pub all_wanted : Assoc Label ImportLabel → Assoc Label Bool → Assoc Label Bool
all_wanted [] wanted = wanted
all_wanted ((d, l) ∷ labels) wanted = all_wanted labels (Map.put l.label true wanted)

module _ {D : Type 0} (clean_deps : D → Rule → Label → Assoc Label Bool → Assoc Label Bool) where
  -- the loop over the deps cleaners
  unfoldable pub clean_all : List D → Rule → Label → Assoc Label Bool → Assoc Label Bool
  clean_all [] r from wanted = wanted
  clean_all (impl ∷ cleaners) r from wanted =
      clean_all cleaners r from (clean_deps impl r from wanted)

  abbrev pub set_items : AttrName → List Expr × Rule → Rule
  set_items name ([], r) = assign_attr name none r
  set_items name (e ∷ es, r) = assign_attr name (some (list_value (e ∷ es))) r

  module _ {R : Type 0} (c : Config R D) (api : LabelApi) (should_keep : Expr → Bool)
      (format : Expr → Str) (store : Store) where
    abbrev pub merge_of : OrderedImportMap → Rule → AttrName → Label → Merge
    merge_of imports r name from =
        let labels = deps api store (maybe_rewrite c r.kind from) imports in
        record {
          api = api;
          should_keep = should_keep;
          deps = clean_all (items c.deps_cleaners) r from (all_wanted labels []);
          import_labels = labels;
          attr_name = name;
          tags = r.tags;
          keep_unmanaged_deps = c.keep_unmanaged_deps;
        }

    -- `ruleAttrMergeDeps`, and so `Imports` and `Exports`
    unfoldable pub rule_attr_merge_deps : OrderedImportMap → Rule → AttrName → Label → Rule
    rule_attr_merge_deps imports r name from =
        set_items name (merge_deps_of format (merge_of imports r name from) r)
