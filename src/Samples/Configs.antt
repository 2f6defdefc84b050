-- ===== src/Samples/Configs.antt =====
-- Configurations and their directives at concrete inputs.
use scala_gazelle.Prelude.{
  Str, str_has_eq, Bool, true, false, none, some, List, [], ◌∷◌, ◌==◌, codes, ok, returned, find,
  or_else, ◌≡◌, refl, fields, trim_space, arith,
}
use scala_gazelle.Label.{Label, LabelApi, label_has_eq}
use scala_gazelle.Collections.Intent.{parse_intent}
use scala_gazelle.Collections.Slice.{Slice, items}
use scala_gazelle.RuleConfig.{RuleConfig, IsWellFormed}
use scala_gazelle.ScalaConfig.Named.{append_item}
use scala_gazelle.ScalaConfig.State.{
  Config, PatternSpec, IsConsistent, clone, nil_slice, parse_annotation, annotation_has_eq,
  debug_deps,
}
use scala_gazelle.ScalaConfig.State.Inherit.{clone-IsConsistent, fresh_rules}
use scala_gazelle.ScalaConfig.Directives.{
  Directive, Universe, parse_scala_annotation, parse_resolve_file_symbol_names, add_patterns,
}
use scala_gazelle.ScalaConfig.Directives.Apply.{apply_directive, directive_kind, parse_directives}
use scala_gazelle.ScalaConfig.Patterns.{should_resolve_file_symbol_name}
use scala_gazelle.ScalaConfig.Patterns.Parsed.{
  should_resolve_file_symbol_name-parse_directives, wants, name_patterns, names_match,
}
use scala_gazelle.Prelude.Map.{Assoc}
use scala_gazelle.Label.{label_eq}
use scala_gazelle.Resolver.Symbol.{Store, class}
use scala_gazelle.Resolver.Import.{Import, new_direct_import}
use scala_gazelle.Resolver.ImportMap.{
  OrderedImportMap, deps, visit_import, visit_imports, dep_of, is_not_a_dep,
}
use scala_gazelle.ScalaConfig.State.{maybe_rewrite}
use scala_gazelle.ScalaConfig.MergeDeps.{
  Expr, Merge, string_expr, deps_attr, has_tag, merge_deps, copy_exprs, is_copied,
  label_from_dep_expr, new_deps, new_dep, dep_suffix_comment, is_transitive,
  should_keep_unmanaged_deps,
}
use scala_gazelle.ScalaConfig.RuleAttr.{
  Rule, list_value, attr, sort_stable, sort_from, move_down, all_wanted, clean_all, other_tags,
  remove_tag, unmanaged_of, current_items, rule_attr_merge_deps, merge_deps_of,
}
use scala_gazelle.ScalaConfig.RuleAttr.Merged.{has_string, has_string-rule_attr_merge_deps}

abbrev a_rule : RuleConfig
a_rule = record {
  rel = [];
  deps = (codes "//a", true) ∷ [];
  attrs = (codes "tags", (codes "x", true) ∷ (codes "y", false) ∷ []) ∷ [];
  options = [];
  enabled = true;
  implementation = codes "scala_library";
  provider = some (codes "scala_library");
  name = codes "scala_library";
}

abbrev a_config : Config Str Str
a_config = record {
  rel = [];
  overrides = nil_slice;
  implicit_imports = nil_slice;
  resolve_file_symbol_names = nil_slice;
  fix_wildcard_import_specs = nil_slice;
  rules = (codes "scala_library", a_rule) ∷ [];
  label_name_rewrites = [];
  annotations = (debug_deps, tt) ∷ [];
  conflict_resolvers = nil_slice;
  deps_cleaners = nil_slice;
  generate_build_files = false;
  keep_unmanaged_deps = true;
  sweep_transitive_deps = false;
  log_level = 0;
}

abbrev a_rule-IsWellFormed : IsWellFormed a_rule
a_rule-IsWellFormed = ((refl, tt), tt, (refl, tt), ((refl, (refl, tt)), tt))

abbrev a_config-IsConsistent : IsConsistent a_config
a_config-IsConsistent = ((refl, tt), (refl, a_rule-IsWellFormed, tt), tt, (refl, tt))

abbrev a_universe : Universe Str Str
a_universe = record {
  resolver_name = λ r. r;
  get_conflict_resolver = λ s. some s;
  cleaner_name = λ d. d;
  get_deps_cleaner = λ s. some s;
  parse_label = λ s. none;
  parse_level = λ s. none;
}

clone-IsConsistent_example :
    clone a_config (codes "a")
    ≡ record a_config { rel = codes "a"; rules = fresh_rules a_config.rules }
clone-IsConsistent_example = clone-IsConsistent a_config (codes "a") a_config-IsConsistent

abbrev a_tagged : RuleConfig
a_tagged = record a_rule {
  attrs = (codes "tags", (codes "x", true) ∷ (codes "y", false) ∷ (codes "z w", false) ∷ []) ∷ [];
}

abbrev some_directives : List Directive
some_directives =
    record { key = codes "resolve_file_symbol_name"; value = codes "*.scala -Foo *" }
    ∷ record { key = codes "scala_debug"; value = codes "-deps" }
    ∷ []

abbrev some_names : Slice PatternSpec
some_names = record {
  array =
      record {
        file_pattern = codes "*.scala";
        pattern = record { value = codes "Foo"; want = false };
      }
      ∷ record {
        file_pattern = codes "*.scala";
        pattern = record { value = codes "*"; want = true };
      }
      ∷ [];
  len = 2;
}

abbrev a_parsed : Config Str Str
a_parsed = record a_config { resolve_file_symbol_names = some_names; annotations = [] }

some_directives_parse :
    parse_directives a_universe some_directives a_config ≡ returned (ok a_parsed)
unfolding parse_directives apply_directive directive_kind parse_scala_annotation fields
    parse_annotation parse_intent trim_space parse_resolve_file_symbol_names add_patterns
    append_item
some_directives_parse = refl

-- a pattern matches only the text that it is
abbrev literal : Str → Str → Bool
literal p s = p == s

should_resolve_file_symbol_name-parse_directives_example :
    should_resolve_file_symbol_name literal a_parsed (codes "*.scala") (codes "Foo")
    ≡ wants (
        or_else
          (find
            (names_match literal (codes "*.scala") (codes "Foo"))
            (items a_config.resolve_file_symbol_names))
          (find
            (names_match literal (codes "*.scala") (codes "Foo"))
            (name_patterns some_directives)))
unfolding items
should_resolve_file_symbol_name-parse_directives_example =
    should_resolve_file_symbol_name-parse_directives a_universe literal some_directives a_config
      a_parsed (codes "*.scala") (codes "Foo") (ground arith) some_directives_parse

abbrev with_room : Slice Str
with_room = record { array = codes "a" ∷ codes "" ∷ []; len = 1 }

abbrev known_labels : LabelApi
known_labels = record {
  no_label = record { repo = []; pkg = []; name = []; relative = false };
  rel = λ l repo pkg. l;
  to_string = λ l. l.name;
  parse = λ s. some (record { repo = []; pkg = []; name = s; relative = false });
}

abbrev label_of : Str → Label
label_of name = record { repo = []; pkg = []; name = name; relative = false }

abbrev one_symbol : Store
one_symbol = record {
  at = λ p. record {
    kind = class;
    name = codes "p.A";
    label = label_of (codes "a");
    provider = codes "java";
    conflicts = [];
    requires = [];
  };
  next = 1;
}

abbrev an_import : Import
an_import = record (new_direct_import (codes "p.A") (codes "X.scala")) { symbol = some 0 }

abbrev old_item : Expr
old_item = record { syntax = string_expr (codes "old"); suffix = [] }

abbrev some_rule : Rule
some_rule = record {
  kind = codes "scala_library";
  deps = some (list_value (old_item ∷ []));
  exports = none;
  tags = codes "cleanup-unmanaged-deps" ∷ [];
  unmanaged_deps = none;
}

abbrev keep_all : Str → Rule → Label → Assoc Label Bool → Assoc Label Bool
keep_all d r from wanted = wanted

abbrev an_import_map : OrderedImportMap
an_import_map = record { values = an_import ∷ []; has = (codes "p.A", true) ∷ [] }

has_string-rule_attr_merge_deps_example :
    has_string (codes "a") (
      current_items (
        attr deps_attr (
          rule_attr_merge_deps keep_all a_config known_labels
            (λ e. false)
            (λ e. [])
            one_symbol
            an_import_map
            some_rule
            deps_attr
            (label_of (codes "me")))))
    ≡ true
unfolding maybe_rewrite label_eq dep_of is_not_a_dep new_direct_import
has_string-rule_attr_merge_deps_example =
    has_string-rule_attr_merge_deps keep_all a_config known_labels (λ e. false) (λ e. []) one_symbol
      an_import_map some_rule deps_attr (label_of (codes "me")) (label_of (codes "a")) refl refl
      (λ impl w h. h)

abbrev small_merge : Merge
small_merge = record {
  api = known_labels;
  should_keep = λ e. false;
  deps = [];
  import_labels = [];
  attr_name = deps_attr;
  tags = some_rule.tags;
  keep_unmanaged_deps = false;
}

-- the unmanaged item stays, since the rule has the tag, and its label is recorded
merged_rule :
    rule_attr_merge_deps keep_all a_config known_labels
      (λ e. false)
      (λ e. [])
      one_symbol
      an_import_map
      some_rule
      deps_attr
      (label_of (codes "me"))
    ≡ record some_rule {
      deps = some (
          list_value (
            record { syntax = string_expr (codes "a"); suffix = codes "# DIRECT" ∷ [] }
            ∷ old_item
            ∷ []));
      unmanaged_deps = some (codes "old" ∷ []);
    }
unfolding rule_attr_merge_deps merge_deps_of sort_stable sort_from move_down merge_deps copy_exprs
    is_copied label_eq label_from_dep_expr deps visit_imports visit_import dep_of new_direct_import
    maybe_rewrite is_not_a_dep has_tag new_deps new_dep items trim_space dep_suffix_comment
    is_transitive should_keep_unmanaged_deps all_wanted clean_all other_tags remove_tag unmanaged_of
merged_rule = refl
