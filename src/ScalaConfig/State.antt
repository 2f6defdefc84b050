-- ===== src/ScalaConfig/State.antt =====
-- The state of a configuration in pkg/scalaconfig/config.go, and what is read from it.

pub mod Inherit
use scala_gazelle.Prelude.{
  ℕ, zero, suc, Str, str_has_eq, Bool, true, false, not, ◌&&◌, Option, none, some, List, [], ◌∷◌,
  ◌++◌, ◌==◌, if◌then◌else◌, codes, is_nil, sort_by, map, ◌↔◌, ◌≡◌, Eq, arith, nat_beq,
}
use scala_gazelle.Prelude.Map
use scala_gazelle.Prelude.Map.{Assoc, IsMap}
use scala_gazelle.Label.{Label, label_has_eq}
use scala_gazelle.Collections.Intent.{Intent}
use scala_gazelle.Collections.Slice.{Slice, items}
use scala_gazelle.Resolver.LabelRewrite.{LabelNameRewriteSpec, rewrite}
use scala_gazelle.RuleConfig
use scala_gazelle.RuleConfig.{RuleConfig, new_config}

pub data DebugAnnotation : Type 0 where
  debug_unknown debug_imports debug_exports debug_deps debug_rule debug_dep_label_origin :
      DebugAnnotation

abbrev annotation_number : DebugAnnotation → ℕ
annotation_number debug_unknown = 0
annotation_number debug_imports = 1
annotation_number debug_exports = 2
annotation_number debug_deps = 3
annotation_number debug_rule = 4
annotation_number debug_dep_label_origin = 5

abbrev pub annotation_eq : DebugAnnotation → DebugAnnotation → Bool
annotation_eq a b = nat_beq (annotation_number a) (annotation_number b)

pub annotation_eq_iff : (a b : DebugAnnotation) → (annotation_eq a b ≡ true) ↔ (a ≡ b)
annotation_eq_iff a b = ground arith

instance abbrev pub annotation_has_eq : Eq DebugAnnotation
annotation_has_eq = record { same = annotation_eq; same_iff = annotation_eq_iff }

-- `parseAnnotation`
unfoldable pub parse_annotation : Str → DebugAnnotation
parse_annotation val =
    if val == codes "imports"
    then debug_imports
    else if val == codes "exports"
    then debug_exports
    else if val == codes "deps"
    then debug_deps
    else if val == codes "rule"
    then debug_rule
    else if val == codes "dep_label_origin"
    then debug_dep_label_origin
    else debug_unknown

pub record OverrideSpec : Type 0 where
  pub imp_lang : Str
  pub imp : Str
  pub lang : Str
  pub dep : Label

pub record ImplicitImportSpec : Type 0 where
  pub lang : Str
  pub imp : Str
  pub deps : List Str

-- `resolveFileSymbolNameSpec` and `fixWildcardImportSpec`, which have the same fields
pub record PatternSpec : Type 0 where
  pub file_pattern : Str
  pub pattern : Intent

-- The conflict resolvers and the deps cleaners are of types that the universe knows by name. A list
-- is a slice, as the clones of a configuration share the arrays; a level is the number of zerolog.
pub record Config (R D : Type 0) : Type 0 where
  pub rel : Str
  pub overrides : Slice OverrideSpec
  pub implicit_imports : Slice ImplicitImportSpec
  pub resolve_file_symbol_names : Slice PatternSpec
  pub fix_wildcard_import_specs : Slice PatternSpec
  pub rules : Assoc Str RuleConfig
  pub label_name_rewrites : Assoc Str LabelNameRewriteSpec
  pub annotations : Assoc {0, 0} DebugAnnotation Unit
  pub conflict_resolvers : Slice R
  pub deps_cleaners : Slice D
  pub generate_build_files : Bool
  pub keep_unmanaged_deps : Bool
  pub sweep_transitive_deps : Bool
  pub log_level : ℕ

abbrev pub nil_slice : {A : Type 0} → Slice A
nil_slice = record { array = []; len = 0 }

-- the loop over `c.rules` of `clone`
unfoldable pub clone_rules : Assoc Str RuleConfig → Assoc Str RuleConfig → Assoc Str RuleConfig
clone_rules [] to = to
clone_rules ((k, v) ∷ from) to = clone_rules from (Map.put k (RuleConfig.clone v) to)

-- `GetImplicitImports`
unfoldable pub implicit_deps : Str → Str → List ImplicitImportSpec → List Str
implicit_deps lang imp [] = []
implicit_deps lang imp (d ∷ specs) =
    let rest = implicit_deps lang imp specs in
    if not (d.lang == lang) then rest else if not (d.imp == imp) then rest else d.deps ++ rest

unfoldable pub rule_or_new : Str → Option RuleConfig → RuleConfig
unfolding new_config
rule_or_new name none = record (new_config name) { implementation = name }
rule_or_new name (some r) = r

module _ {R D : Type 0} where
  -- `New`; zerolog.DebugLevel is 0
  unfoldable pub new : Str → Config R D
  new rel = record {
    rel = rel;
    overrides = nil_slice;
    implicit_imports = nil_slice;
    resolve_file_symbol_names = nil_slice;
    fix_wildcard_import_specs = nil_slice;
    rules = [];
    label_name_rewrites = [];
    annotations = [];
    conflict_resolvers = nil_slice;
    deps_cleaners = nil_slice;
    generate_build_files = false;
    keep_unmanaged_deps = false;
    sweep_transitive_deps = false;
    log_level = 0;
  }

  -- `clone`; a slice of a whole slice is the same one, and so it is for nil
  unfoldable pub clone : Config R D → Str → Config R D
  unfolding new
  clone c rel = record (new rel) {
    log_level = c.log_level;
    generate_build_files = c.generate_build_files;
    keep_unmanaged_deps = c.keep_unmanaged_deps;
    sweep_transitive_deps = c.sweep_transitive_deps;
    annotations = Map.copy_into c.annotations [];
    rules = clone_rules c.rules [];
    label_name_rewrites = Map.copy_into c.label_name_rewrites [];
    overrides = c.overrides;
    implicit_imports = c.implicit_imports;
    conflict_resolvers = c.conflict_resolvers;
    deps_cleaners = c.deps_cleaners;
    resolve_file_symbol_names = c.resolve_file_symbol_names;
    fix_wildcard_import_specs = c.fix_wildcard_import_specs;
  }

  -- `GetOrCreate`, of the extension that config.Exts has for the language
  unfoldable pub get_or_create : Option (Config R D) → Str → Config R D
  get_or_create none rel = new rel
  get_or_create (some c) rel = clone c rel

  -- `getOrCreateScalaRuleConfig`
  unfoldable pub get_or_create_scala_rule_config : Str → Config R D → RuleConfig
  get_or_create_scala_rule_config name c = rule_or_new name (Map.get name c.rules)

  unfoldable pub get_implicit_imports : Config R D → Str → Str → List Str
  get_implicit_imports c lang imp = implicit_deps lang imp (items c.implicit_imports)

  -- `ConfiguredRules`; a name that is not in the map gives nil
  unfoldable pub configured_rules : Config R D → List (Option RuleConfig)
  configured_rules c = map (λ name. Map.get name c.rules) (sort_by (λ s. s) (Map.keys c.rules))

  abbrev pub has_annotation : DebugAnnotation → Config R D → Bool
  has_annotation a c = not (is_nil (Map.get a c.annotations))

  -- `GetKnownRule`, with the function of the universe
  unfoldable pub get_known_rule : {A : Type 0} → (Label → Option A) → Config R D → Label → Option A
  get_known_rule known c from =
      if from.name == []
      then none
      else if from.repo == [] && from.pkg == []
      then known (record { repo = []; pkg = c.rel; name = from.name; relative = false })
      else known from

  -- `MaybeRewrite`
  unfoldable pub maybe_rewrite : Config R D → Str → Label → Label
  maybe_rewrite c kind from = elim (Map.get kind c.label_name_rewrites) [
    | none ↦ from
    | some spec ↦ rewrite spec from
  ]

-- each rule stands under its name, with well-formed maps
abbrev pub AreRules : Assoc Str RuleConfig → Type 0
AreRules [] = Unit
AreRules ((k, r) ∷ rules) = (r.name ≡ k) × RuleConfig.IsWellFormed r × AreRules rules

-- every map of the configuration has each key once
abbrev pub IsConsistent : {R D : Type 0} → Config R D → Type 0
IsConsistent c =
    IsMap c.rules × AreRules c.rules × IsMap c.label_name_rewrites × IsMap c.annotations
