-- ===== src/ScalaConfig/RuleAttr/Merged.antt =====
-- Which items an attribute has after it is merged.
use scala_gazelle.Prelude.{
  Str, str_has_eq, str_eq, str_eq_iff, Bool, true, false, if◌then◌else◌, ◌||◌, Option, none, some,
  List, [], ◌∷◌, ◌++◌, ◌==◌, ◌≡◌, refl, arith, is_nil, inl, inr, Bool-cases,
}
use scala_gazelle.Prelude.Map
use scala_gazelle.Prelude.Map.{Assoc, get-put}
use scala_gazelle.Label.{Label, LabelApi, label_has_eq, label_eq_iff}
use scala_gazelle.Collections.Slice.{items}
use scala_gazelle.Resolver.Symbol.{Store}
use scala_gazelle.Resolver.ImportMap.{OrderedImportMap, ImportLabel, deps}
use scala_gazelle.Resolver.ImportMap.Deps.{first_dep, deps_lem}
use scala_gazelle.Resolver.ImportMap.Labelled.{AreLabelled, deps-AreLabelled}
use scala_gazelle.ScalaConfig.State.{Config, maybe_rewrite}
use scala_gazelle.ScalaConfig.MergeDeps.{
  Expr, AttrName, deps_attr, other_attr, Merge, new_dep, new_deps, copy_exprs, merge_deps,
}
use scala_gazelle.ScalaConfig.RuleAttr.{
  Rule, attr, value_of, expr_lt, move_down, sort_from, reverse_onto, sort_stable, current_items,
  merge_deps_of, all_wanted, clean_all, set_items, merge_of, rule_attr_merge_deps,
}

-- the item is the string
abbrev pub is_string : Str → Option Str → Bool
is_string s none = false
is_string s (some t) = str_eq s t

abbrev pub has_string : Str → List Expr → Bool
has_string s [] = false
has_string s (e ∷ es) = is_string s (value_of e.syntax) || has_string s es

has_string-append :
    (s : Str) (xs ys : List Expr) → has_string s (xs ++ ys) ≡ (has_string s xs || has_string s ys)
has_string-append s [] ys = refl
has_string-append s (x ∷ xs) ys = ground (arith, has_string-append s xs ys)

module _ (format : Expr → Str) (s : Str) where
  has_string-move_down :
      (e : Expr) (before : List Expr)
      → has_string s (move_down format e before)
        ≡ (is_string s (value_of e.syntax) || has_string s before)
  unfolding move_down
  has_string-move_down e [] = refl
  has_string-move_down e (f ∷ before) = elim (Bool-cases (expr_lt format e f)) [
    | inl q ↦ rw (q, has_string-move_down e before) (ground arith)
    | inr q ↦ rw q refl
  ]

  has_string-sort_from :
      (es before : List Expr)
      → has_string s (sort_from format before es) ≡ (has_string s es || has_string s before)
  unfolding sort_from
  has_string-sort_from [] before = refl
  has_string-sort_from (e ∷ es) before =
      ground
        (arith, has_string-sort_from es (move_down format e before), has_string-move_down e before)

  has_string-reverse_onto :
      (es done : List Expr)
      → has_string s (reverse_onto es done) ≡ (has_string s es || has_string s done)
  has_string-reverse_onto [] done = refl
  has_string-reverse_onto (e ∷ es) done = ground (arith, has_string-reverse_onto es (e ∷ done))

  -- the sorting keeps the items
  pub has_string-sort_stable :
      (es : List Expr) → has_string s (sort_stable format es) ≡ has_string s es
  unfolding sort_stable
  has_string-sort_stable es =
      ground
        (arith, has_string-reverse_onto (sort_from format [] es) [], has_string-sort_from es [])

has_string-new_deps :
    (m : Merge) (d : Label) (wanted : Assoc Label Bool)
    → Map.get d wanted ≡ some true
    → has_string (m.api.to_string d) (new_deps m wanted) ≡ true
unfolding new_deps new_dep
has_string-new_deps m d [] h = ground arith
has_string-new_deps m d ((k, want) ∷ wanted) h = ground (
  arith,
  label_eq_iff k d,
  str_eq_iff (m.api.to_string d) (m.api.to_string k),
  has_string-new_deps m d wanted,
)

get-all_wanted :
    (d : Label) (labels : Assoc Label ImportLabel) (wanted : Assoc Label Bool)
    → AreLabelled labels
    → Map.get d (all_wanted labels wanted)
      ≡ (if is_nil (Map.get d labels) then Map.get d wanted else some true)
unfolding all_wanted
get-all_wanted d [] wanted h = refl
get-all_wanted d ((k, l) ∷ labels) wanted h = ground (
  arith,
  h.0,
  label_eq_iff k d,
  get-put k d true wanted,
  get-all_wanted d labels (Map.put k true wanted) h.1,
)

module _ {D : Type 0} (clean_deps : D → Rule → Label → Assoc Label Bool → Assoc Label Bool) where
  get-clean_all :
      (d : Label) (cleaners : List D) (r : Rule) (from : Label) (wanted : Assoc Label Bool)
      → ((impl : D) (w : Assoc Label Bool)
          → Map.get d w ≡ some true
          → Map.get d (clean_deps impl r from w) ≡ some true)
      → Map.get d wanted ≡ some true
      → Map.get d (clean_all clean_deps cleaners r from wanted) ≡ some true
  unfolding clean_all
  get-clean_all d [] r from wanted k h = h
  get-clean_all d (impl ∷ cleaners) r from wanted k h =
      get-clean_all d cleaners r from (clean_deps impl r from wanted) k (k impl wanted h)

  items-set_items :
      (name : AttrName) (es : List Expr) (r : Rule)
      → current_items (attr name (set_items clean_deps name (es, r))) ≡ es
  items-set_items deps_attr [] r = refl
  items-set_items deps_attr (e ∷ es) r = refl
  items-set_items other_attr [] r = refl
  items-set_items other_attr (e ∷ es) r = refl

  -- Let an import lead to a label that is a dep of the rule, and let no deps cleaner take the label away.
  -- Then the attribute that is merged has an item for the label, whatever it had before.
  pub has_string-rule_attr_merge_deps :
      {R : Type 0} (c : Config R D) (api : LabelApi) (should_keep : Expr → Bool)
      (format : Expr → Str) (store : Store) (imports : OrderedImportMap) (r : Rule)
      (name : AttrName) (from d : Label)
      → (d == maybe_rewrite c r.kind from || d == api.no_label) ≡ false
      → is_nil (first_dep api store (maybe_rewrite c r.kind from) d imports.values) ≡ false
      → ((impl : D) (w : Assoc Label Bool)
          → Map.get d w ≡ some true
          → Map.get d (clean_deps impl r from w) ≡ some true)
      → has_string (api.to_string d) (
          current_items (
            attr name
              (rule_attr_merge_deps clean_deps c api should_keep format store imports r name from)))
        ≡ true
  unfolding rule_attr_merge_deps merge_deps_of merge_deps
  has_string-rule_attr_merge_deps c api should_keep format store imports r name from d other led
        mild =
      let self = maybe_rewrite c r.kind from in
      let m = merge_of clean_deps c api should_keep format store imports r name from in
      let labels = deps api store self imports in
      let copied = copy_exprs m (current_items (attr name r)) in
      let found : Map.get d (all_wanted labels []) ≡ some true = ground (
        arith,
        get-all_wanted d labels [] (deps-AreLabelled api store self imports),
        deps_lem api store self d imports,
      ) in
      let wanted : Map.get d m.deps ≡ some true =
        get-clean_all d (items c.deps_cleaners) r from (all_wanted labels []) mild found in
      rw
        (
          items-set_items name,
          has_string-sort_stable format (api.to_string d) (copied ++ new_deps m m.deps),
          has_string-append (api.to_string d) copied (new_deps m m.deps),
          has_string-new_deps m d m.deps wanted,
        )
        (ground arith)
