-- ===== src/ScalaConfig/Directives/Apply.antt =====
-- `ParseDirectives` of pkg/scalaconfig/config.go: the directives of a build file, one after the other.
pub mod Closed
pub mod Kept
use scala_gazelle.Prelude.{
  Str, str_has_eq, Option, none, some, List, [], ◌∷◌, codes, fields, Outcome, returned, panicked,
  Result, ok, failed,
}
use scala_gazelle.Prelude.Map
use scala_gazelle.Prelude.Map.{Assoc}
use scala_gazelle.RuleConfig.{parse_bool}
use scala_gazelle.ScalaConfig.Named.{apply_keys}
use scala_gazelle.ScalaConfig.State.{Config}
use scala_gazelle.ScalaConfig.Directives.{
  Directive, ConfigError, Universe, Parsed, parse_scala_rule, parse_keep_unmanaged_deps,
  parse_fix_wildcard_import, parse_resolve_glob, parse_resolve_with,
  parse_resolve_file_symbol_names, parse_resolve_kind_rewrite_name, set_resolvers, set_cleaners,
  parse_log_level, parse_scala_annotation, parse_generate_build_files,
}

pub data DirectiveKind : Type 0 where
  scala_rule scala_keep_unmanaged_deps scala_fix_wildcard_imports resolve_glob resolve_with :
      DirectiveKind
  resolve_file_symbol_name resolve_kind_rewrite_name resolve_conflicts scala_deps_cleaner :
      DirectiveKind
  scala_log_level scala_debug scala_generate_build_files other_directive : DirectiveKind

-- `DirectiveNames`, with the kind of each
abbrev pub directive_kinds : Assoc Str DirectiveKind
directive_kinds =
    (codes "resolve_conflicts", resolve_conflicts)
    ∷ (codes "resolve_file_symbol_name", resolve_file_symbol_name)
    ∷ (codes "resolve_glob", resolve_glob)
    ∷ (codes "resolve_kind_rewrite_name", resolve_kind_rewrite_name)
    ∷ (codes "resolve_with", resolve_with)
    ∷ (codes "scala_debug", scala_debug)
    ∷ (codes "scala_log_level", scala_log_level)
    ∷ (codes "scala_deps_cleaner", scala_deps_cleaner)
    ∷ (codes "scala_keep_unmanaged_deps", scala_keep_unmanaged_deps)
    ∷ (codes "scala_fix_wildcard_imports", scala_fix_wildcard_imports)
    ∷ (codes "scala_generate_build_files", scala_generate_build_files)
    ∷ (codes "scala_rule", scala_rule)
    ∷ []

abbrev pub kind_or_other : Option DirectiveKind → DirectiveKind
kind_or_other none = other_directive
kind_or_other (some k) = k

unfoldable pub directive_kind : Str → DirectiveKind
directive_kind key = kind_or_other (Map.get key directive_kinds)

module _ {R D : Type 0} (u : Universe R D) where
  -- the cases of the switch in `ParseDirectives`
  unfoldable pub apply_directive : DirectiveKind → Str → Config R D → Parsed R D
  apply_directive scala_rule v c = parse_scala_rule (fields v) c
  apply_directive scala_keep_unmanaged_deps v c = parse_keep_unmanaged_deps (fields v) c
  apply_directive scala_fix_wildcard_imports v c = parse_fix_wildcard_import (fields v) c
  apply_directive resolve_glob v c = parse_resolve_glob u.parse_label (fields v) c
  apply_directive resolve_with v c = returned (ok (parse_resolve_with (fields v) c))
  apply_directive resolve_file_symbol_name v c =
      returned (ok (parse_resolve_file_symbol_names (fields v) c))
  apply_directive resolve_kind_rewrite_name v c =
      returned (ok (parse_resolve_kind_rewrite_name (fields v) c))
  apply_directive resolve_conflicts v c =
      set_resolvers c
        (apply_keys u.resolver_name u.get_conflict_resolver (fields v) c.conflict_resolvers)
  apply_directive scala_deps_cleaner v c =
      set_cleaners c (apply_keys u.cleaner_name u.get_deps_cleaner (fields v) c.deps_cleaners)
  apply_directive scala_log_level v c = parse_log_level (u.parse_level v) c
  apply_directive scala_debug v c = parse_scala_annotation (fields v) c
  apply_directive scala_generate_build_files v c = parse_generate_build_files (parse_bool v) c
  apply_directive other_directive v c = returned (ok c)

  -- `ParseDirectives`
  unfoldable pub parse_directives : List Directive → Config R D → Parsed R D
  parse_directives [] c = returned (ok c)
  parse_directives (d ∷ ds) c = elim (apply_directive (directive_kind d.key) d.value c) [
    | panicked ↦ panicked
    | returned (failed e) ↦ returned (failed e)
    | returned (ok c') ↦ parse_directives ds c'
  ]
