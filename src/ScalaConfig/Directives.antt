-- ===== src/ScalaConfig/Directives.antt =====
-- The directives of a build file, in pkg/scalaconfig/config.go. What ends the program (log.Fatalf) is
-- a panic of the model. After an error the program ends as well, so that the state of a directive that
-- failed half way is not kept.
pub mod Apply
use scala_gazelle.Prelude.{
  ℕ, zero, suc, Str, str_has_eq, Bool, true, false, not, Option, none, some, List, [], ◌∷◌, ◌++◌,
  ◌==◌, if◌then◌else◌, codes, fields, join, Outcome, returned, panicked, Result, ok, failed, length,
}
use scala_gazelle.Prelude.Map
use scala_gazelle.Prelude.Map.{Assoc}
use scala_gazelle.Label.{Label}
use scala_gazelle.Collections.Intent.{Intent, parse_intent}
use scala_gazelle.Collections.Slice.{Slice}
use scala_gazelle.RuleConfig
use scala_gazelle.RuleConfig.{RuleConfig, DirectiveError, parse_bool}
use scala_gazelle.ScalaConfig.Named.{append_item, apply_keys}
use scala_gazelle.ScalaConfig.State.{
  Config, DebugAnnotation, debug_unknown, annotation_has_eq, parse_annotation, OverrideSpec,
  ImplicitImportSpec, PatternSpec, get_or_create_scala_rule_config,
}

pub record Directive : Type 0 where
  pub key : Str
  pub value : Str

pub data ConfigError : Type 0 where
  too_few_fields : ℕ → ConfigError
  bad_rule : DirectiveError → ConfigError
  bad_flag unknown_conflict_resolver unknown_deps_cleaner bad_log_level : ConfigError
  unknown_annotation : Str → ConfigError

-- What the directives are parsed with: the conflict resolvers and the deps cleaners that the universe
-- knows by name, and the functions of packages label and zerolog.
pub record Universe (R D : Type 0) : Type 0 where
  pub resolver_name : R → Str
  pub get_conflict_resolver : Str → Option R
  pub cleaner_name : D → Str
  pub get_deps_cleaner : Str → Option D
  pub parse_label : Str → Option Label
  pub parse_level : Str → Option ℕ

abbrev pub Parsed : Type 0 → Type 0 → Type 0
Parsed R D = Outcome (Result ConfigError (Config R D))

-- the loops of `parseFixWildcardImport` and `parseResolveFileSymbolNames`
unfoldable pub add_patterns : Str → List Str → Slice PatternSpec → Slice PatternSpec
add_patterns file_pattern [] specs = specs
add_patterns file_pattern (part ∷ parts) specs =
    add_patterns file_pattern parts
      (append_item (record { file_pattern = file_pattern; pattern = parse_intent part }) specs)

module _ {R D : Type 0} where
  -- `parseScalaRuleDirective`
  abbrev pub put_rule : Str → Config R D → Result DirectiveError RuleConfig → Parsed R D
  put_rule name c (failed e) = returned (failed (bad_rule e))
  put_rule name c (ok r) = returned (ok (record c { rules = Map.put name r c.rules }))

  unfoldable pub parse_scala_rule : List Str → Config R D → Parsed R D
  parse_scala_rule (name ∷ param ∷ v ∷ vs) c = put_rule name c (
      RuleConfig.parse_directive param (join (codes " ") (v ∷ vs))
        (get_or_create_scala_rule_config name c))
  parse_scala_rule fs c = returned (failed (too_few_fields (length fs)))

  -- `parseResolveWithDirective`
  unfoldable pub parse_resolve_with : List Str → Config R D → Config R D
  parse_resolve_with (lang ∷ imp ∷ d ∷ ds) c = record c {
    implicit_imports =
        append_item (record { lang = lang; imp = imp; deps = d ∷ ds }) c.implicit_imports;
  }
  parse_resolve_with _ c = c

  -- `parseFixWildcardImport`
  unfoldable pub parse_fix_wildcard_import : List Str → Config R D → Parsed R D
  parse_fix_wildcard_import (p ∷ part ∷ parts) c = returned (
      ok (record c {
        fix_wildcard_import_specs = add_patterns p (part ∷ parts) c.fix_wildcard_import_specs;
      }))
  parse_fix_wildcard_import _ c = panicked

  -- `parseResolveFileSymbolNames`
  unfoldable pub parse_resolve_file_symbol_names : List Str → Config R D → Config R D
  parse_resolve_file_symbol_names (p ∷ part ∷ parts) c = record c {
    resolve_file_symbol_names = add_patterns p (part ∷ parts) c.resolve_file_symbol_names;
  }
  parse_resolve_file_symbol_names _ c = c

  -- `parseResolveKindRewriteNameDirective`
  unfoldable pub parse_resolve_kind_rewrite_name : List Str → Config R D → Config R D
  parse_resolve_kind_rewrite_name (kind ∷ src ∷ dst ∷ []) c = record c {
    label_name_rewrites = Map.put kind (record { src = src; dst = dst }) c.label_name_rewrites;
  }
  parse_resolve_kind_rewrite_name _ c = c

  abbrev pub set_keep_unmanaged_deps : Option Bool → Config R D → Parsed R D
  set_keep_unmanaged_deps none c = returned (failed bad_flag)
  set_keep_unmanaged_deps (some b) c = returned (ok (record c { keep_unmanaged_deps = b }))

  -- `parseKeepUnmanagedDepsDirective`
  unfoldable pub parse_keep_unmanaged_deps : List Str → Config R D → Parsed R D
  parse_keep_unmanaged_deps (part ∷ []) c = set_keep_unmanaged_deps (parse_bool part) c
  parse_keep_unmanaged_deps fs c = returned (failed bad_flag)

  -- `parseScalaGenerateBuildFilesDirective`
  unfoldable pub parse_generate_build_files : Option Bool → Config R D → Parsed R D
  parse_generate_build_files none c = returned (failed bad_flag)
  parse_generate_build_files (some b) c = returned (ok (record c { generate_build_files = b }))

  -- `parseScalaLogLevelDirective`
  unfoldable pub parse_log_level : Option ℕ → Config R D → Parsed R D
  parse_log_level none c = returned (failed bad_log_level)
  parse_log_level (some level) c = returned (ok (record c { log_level = level }))

  abbrev pub set_annotation : Bool → DebugAnnotation → Config R D → Config R D
  set_annotation want annot c = record c {
    annotations = if want then Map.put annot tt c.annotations else Map.remove annot c.annotations;
  }

  -- `parseScalaAnnotation`
  unfoldable pub parse_scala_annotation : List Str → Config R D → Parsed R D
  parse_scala_annotation [] c = returned (ok c)
  parse_scala_annotation (key ∷ keys) c =
      let intent = parse_intent key in
      let annot = parse_annotation intent.value in
      elim (annot == debug_unknown) [
        | true ↦ returned (failed (unknown_annotation intent.value))
        | false ↦ parse_scala_annotation keys (set_annotation intent.want annot c)
      ]

  abbrev pub set_resolvers : Config R D → Outcome (Option (Slice R)) → Parsed R D
  set_resolvers c panicked = panicked
  set_resolvers c (returned none) = returned (failed unknown_conflict_resolver)
  set_resolvers c (returned (some s)) = returned (ok (record c { conflict_resolvers = s }))

  abbrev pub set_cleaners : Config R D → Outcome (Option (Slice D)) → Parsed R D
  set_cleaners c panicked = panicked
  set_cleaners c (returned none) = returned (failed unknown_deps_cleaner)
  set_cleaners c (returned (some s)) = returned (ok (record c { deps_cleaners = s }))

  abbrev pub add_override : Str → Str → Str → Option Label → Config R D → Parsed R D
  add_override imp_lang lang imp none c = panicked
  add_override imp_lang lang imp (some dep) c = returned (
      ok (record c {
        overrides =
            append_item (record { imp_lang = imp_lang; imp = imp; lang = lang; dep = dep })
              c.overrides;
      }))

  -- `parseResolveGlobDirective`, with `label.Parse`
  unfoldable pub parse_resolve_glob : (Str → Option Label) → List Str → Config R D → Parsed R D
  parse_resolve_glob parse (a ∷ lang ∷ imp ∷ lbl ∷ []) c =
      if not (a == codes "scala") then returned (ok c) else add_override a lang imp (parse lbl) c
  parse_resolve_glob parse _ c = returned (ok c)

-- the property holds of the configuration, if one is parsed
abbrev pub AllOk : {R D : Type 0} → (Config R D → Type 0) → Parsed R D → Type 0
AllOk P panicked = Unit
AllOk P (returned (failed e)) = Unit
AllOk P (returned (ok c)) = P c
