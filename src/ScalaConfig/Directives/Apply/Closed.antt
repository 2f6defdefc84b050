-- ===== src/ScalaConfig/Directives/Apply/Closed.antt =====
-- What a directive may change of a configuration: a property that the assignments of its kind keep is
-- kept by it.
use scala_gazelle.Prelude.{
  ℕ, Str, str_has_eq, Bool, Option, none, some, List, [], ◌∷◌, Outcome, returned, panicked, ok, ◌≡◌,
  inl, inr, Bool-cases, fields, join, codes, Option-cases, Result-cases, Outcome-cases, ap, ◌∙◌,
  arith,
}
use scala_gazelle.Prelude.Map
use scala_gazelle.Label.{Label}
use scala_gazelle.Collections.Intent.{parse_intent}
use scala_gazelle.Collections.Slice.{Slice}
use scala_gazelle.RuleConfig.{RuleConfig, parse_directive, parse_bool}
use scala_gazelle.ScalaConfig.Named.{append_item, apply_keys}
use scala_gazelle.ScalaConfig.State.{
  Config, annotation_has_eq, annotation_eq, rule_or_new, get_or_create_scala_rule_config,
  parse_annotation, debug_unknown, DebugAnnotation, OverrideSpec, ImplicitImportSpec,
}
use scala_gazelle.Resolver.LabelRewrite.{LabelNameRewriteSpec}
use scala_gazelle.ScalaConfig.Directives.{
  Directive, Universe, AllOk, parse_scala_rule, parse_keep_unmanaged_deps,
  parse_fix_wildcard_import, parse_resolve_glob, parse_resolve_with, add_patterns,
  parse_resolve_file_symbol_names, parse_resolve_kind_rewrite_name, set_resolvers, set_cleaners,
  parse_log_level, parse_scala_annotation, parse_generate_build_files, set_annotation,
}
use scala_gazelle.ScalaConfig.Directives.Apply.{
  DirectiveKind, directive_kind, parse_directives, apply_directive, scala_rule,
  scala_keep_unmanaged_deps, scala_fix_wildcard_imports, resolve_glob, resolve_with,
  resolve_file_symbol_name, resolve_kind_rewrite_name, resolve_conflicts, scala_deps_cleaner,
  scala_log_level, scala_debug, scala_generate_build_files, other_directive,
}

module _ {R D : Type 0} (P : Config R D → Type 0) where
  -- the assignments of a kind of directive keep the property
  abbrev pub IsClosed : DirectiveKind → Type 0
  IsClosed scala_rule =
      (c : Config R D) (name param value : Str) (r : RuleConfig)
      → parse_directive param value (rule_or_new name (Map.get name c.rules)) ≡ ok r
      → P c
      → P (record c { rules = Map.put name r c.rules })
  IsClosed scala_keep_unmanaged_deps =
      (c : Config R D) (b : Bool) → P c → P (record c { keep_unmanaged_deps = b })
  IsClosed scala_fix_wildcard_imports =
      (c : Config R D) (f : Str) (parts : List Str)
      → P c
      → P (record c {
        fix_wildcard_import_specs = add_patterns f parts c.fix_wildcard_import_specs;
      })
  IsClosed resolve_glob =
      (c : Config R D) (o : OverrideSpec)
      → P c
      → P (record c { overrides = append_item o c.overrides })
  IsClosed resolve_with =
      (c : Config R D) (d : ImplicitImportSpec)
      → P c
      → P (record c { implicit_imports = append_item d c.implicit_imports })
  IsClosed resolve_file_symbol_name =
      (c : Config R D) (f : Str) (parts : List Str)
      → P c
      → P (record c {
        resolve_file_symbol_names = add_patterns f parts c.resolve_file_symbol_names;
      })
  IsClosed resolve_kind_rewrite_name =
      (c : Config R D) (kind : Str) (spec : LabelNameRewriteSpec)
      → P c
      → P (record c { label_name_rewrites = Map.put kind spec c.label_name_rewrites })
  IsClosed resolve_conflicts =
      (c : Config R D) (s : Slice R) → P c → P (record c { conflict_resolvers = s })
  IsClosed scala_deps_cleaner =
      (c : Config R D) (s : Slice D) → P c → P (record c { deps_cleaners = s })
  IsClosed scala_log_level = (c : Config R D) (n : ℕ) → P c → P (record c { log_level = n })
  IsClosed scala_debug =
      (c : Config R D) (want : Bool) (annot : DebugAnnotation)
      → P c
      → P (set_annotation want annot c)
  IsClosed scala_generate_build_files =
      (c : Config R D) (b : Bool) → P c → P (record c { generate_build_files = b })
  IsClosed other_directive = Unit

  scala_rule-AllOk :
      (fs : List Str) (c : Config R D) → IsClosed scala_rule → P c → AllOk P (parse_scala_rule fs c)
  unfolding parse_scala_rule get_or_create_scala_rule_config
  scala_rule-AllOk [] c k h = tt
  scala_rule-AllOk (name ∷ []) c k h = tt
  scala_rule-AllOk (name ∷ param ∷ []) c k h = tt
  scala_rule-AllOk (name ∷ param ∷ v ∷ vs) c k h =
      let value = join (codes " ") (v ∷ vs) in
      elim (Result-cases (parse_directive param value (rule_or_new name (Map.get name c.rules)))) [
        | inl (e, q) ↦ rw q tt
        | inr (r, q) ↦ rw q (k c name param value r q h)
      ]

  scala_debug-AllOk :
      (keys : List Str) (c : Config R D)
      → IsClosed scala_debug
      → P c
      → AllOk P (parse_scala_annotation keys c)
  unfolding parse_scala_annotation
  scala_debug-AllOk [] c k h = h
  scala_debug-AllOk (key ∷ keys) c k h =
      let intent = parse_intent key in
      let annot = parse_annotation intent.value in
      elim (Bool-cases (annotation_eq annot debug_unknown)) [
        | inl q ↦ rw (parse_scala_annotation, q) tt
        | inr q ↦
            rw (parse_scala_annotation, q)
              (scala_debug-AllOk keys (set_annotation intent.want annot c) k
                (k c intent.want annot h))
      ]

  keep_unmanaged_deps-AllOk :
      (fs : List Str) (c : Config R D)
      → IsClosed scala_keep_unmanaged_deps
      → P c
      → AllOk P (parse_keep_unmanaged_deps fs c)
  unfolding parse_keep_unmanaged_deps
  keep_unmanaged_deps-AllOk [] c k h = tt
  keep_unmanaged_deps-AllOk (f ∷ []) c k h = elim (Option-cases (parse_bool f)) [
    | inl q ↦ rw q tt
    | inr (b, q) ↦ rw q (k c b h)
  ]
  keep_unmanaged_deps-AllOk (f ∷ g ∷ fs) c k h = tt

  fix_wildcard_imports-AllOk :
      (fs : List Str) (c : Config R D)
      → IsClosed scala_fix_wildcard_imports
      → P c
      → AllOk P (parse_fix_wildcard_import fs c)
  unfolding parse_fix_wildcard_import
  fix_wildcard_imports-AllOk [] c k h = tt
  fix_wildcard_imports-AllOk (f ∷ []) c k h = tt
  fix_wildcard_imports-AllOk (f ∷ g ∷ fs) c k h = k c f (g ∷ fs) h

  file_symbol_name-AllOk :
      (fs : List Str) (c : Config R D)
      → IsClosed resolve_file_symbol_name
      → P c
      → P (parse_resolve_file_symbol_names fs c)
  unfolding parse_resolve_file_symbol_names
  file_symbol_name-AllOk [] c k h = h
  file_symbol_name-AllOk (f ∷ []) c k h = h
  file_symbol_name-AllOk (f ∷ g ∷ fs) c k h = k c f (g ∷ fs) h

  resolve_with-AllOk :
      (fs : List Str) (c : Config R D) → IsClosed resolve_with → P c → P (parse_resolve_with fs c)
  unfolding parse_resolve_with
  resolve_with-AllOk [] c k h = h
  resolve_with-AllOk (f ∷ []) c k h = h
  resolve_with-AllOk (f ∷ g ∷ []) c k h = h
  resolve_with-AllOk (f ∷ g ∷ i ∷ fs) c k h = k c _ h

  rewrite_name-AllOk :
      (fs : List Str) (c : Config R D)
      → IsClosed resolve_kind_rewrite_name
      → P c
      → P (parse_resolve_kind_rewrite_name fs c)
  unfolding parse_resolve_kind_rewrite_name
  rewrite_name-AllOk [] c k h = h
  rewrite_name-AllOk (f ∷ []) c k h = h
  rewrite_name-AllOk (f ∷ g ∷ []) c k h = h
  rewrite_name-AllOk (f ∷ g ∷ i ∷ []) c k h = k c f _ h
  rewrite_name-AllOk (f ∷ g ∷ i ∷ j ∷ fs) c k h = h

  resolve_glob-AllOk :
      (parse : Str → Option Label) (fs : List Str) (c : Config R D)
      → IsClosed resolve_glob
      → P c
      → AllOk P (parse_resolve_glob parse fs c)
  unfolding parse_resolve_glob
  resolve_glob-AllOk parse [] c k h = h
  resolve_glob-AllOk parse (f ∷ []) c k h = h
  resolve_glob-AllOk parse (f ∷ g ∷ []) c k h = h
  resolve_glob-AllOk parse (f ∷ g ∷ i ∷ []) c k h = h
  resolve_glob-AllOk parse (f ∷ g ∷ i ∷ j ∷ []) c k h =
      elim (Bool-cases (str_has_eq.same f (codes "scala"))) [
        | inl p ↦ elim (Option-cases (parse j)) [
          | inl q ↦ rw (p, q) tt
          | inr (l, q) ↦ rw (p, q) (k c _ h)
        ]
        | inr p ↦ rw p h
      ]
  resolve_glob-AllOk parse (f ∷ g ∷ i ∷ j ∷ l ∷ fs) c k h = h

  resolvers-AllOk :
      (o : Outcome (Option (Slice R))) (c : Config R D)
      → IsClosed resolve_conflicts
      → P c
      → AllOk P (set_resolvers c o)
  resolvers-AllOk panicked c k h = tt
  resolvers-AllOk (returned none) c k h = tt
  resolvers-AllOk (returned (some s)) c k h = k c s h

  cleaners-AllOk :
      (o : Outcome (Option (Slice D))) (c : Config R D)
      → IsClosed scala_deps_cleaner
      → P c
      → AllOk P (set_cleaners c o)
  cleaners-AllOk panicked c k h = tt
  cleaners-AllOk (returned none) c k h = tt
  cleaners-AllOk (returned (some s)) c k h = k c s h

  log_level-AllOk :
      (o : Option ℕ) (c : Config R D)
      → IsClosed scala_log_level
      → P c
      → AllOk P (parse_log_level o c)
  unfolding parse_log_level
  log_level-AllOk none c k h = tt
  log_level-AllOk (some n) c k h = k c n h

  build_files-AllOk :
      (o : Option Bool) (c : Config R D)
      → IsClosed scala_generate_build_files
      → P c
      → AllOk P (parse_generate_build_files o c)
  unfolding parse_generate_build_files
  build_files-AllOk none c k h = tt
  build_files-AllOk (some b) c k h = k c b h

  pub apply_directive-AllOk :
      (u : Universe R D) (kind : DirectiveKind) (v : Str) (c : Config R D)
      → IsClosed kind
      → P c
      → AllOk P (apply_directive u kind v c)
  unfolding apply_directive
  apply_directive-AllOk u scala_rule v c k h = scala_rule-AllOk (fields v) c k h
  apply_directive-AllOk u scala_keep_unmanaged_deps v c k h =
      keep_unmanaged_deps-AllOk (fields v) c k h
  apply_directive-AllOk u scala_fix_wildcard_imports v c k h =
      fix_wildcard_imports-AllOk (fields v) c k h
  apply_directive-AllOk u resolve_glob v c k h = resolve_glob-AllOk u.parse_label (fields v) c k h
  apply_directive-AllOk u resolve_with v c k h = resolve_with-AllOk (fields v) c k h
  apply_directive-AllOk u resolve_file_symbol_name v c k h = file_symbol_name-AllOk (fields v) c k h
  apply_directive-AllOk u resolve_kind_rewrite_name v c k h = rewrite_name-AllOk (fields v) c k h
  apply_directive-AllOk u resolve_conflicts v c k h =
      resolvers-AllOk
        (apply_keys u.resolver_name u.get_conflict_resolver (fields v) c.conflict_resolvers) c k h
  apply_directive-AllOk u scala_deps_cleaner v c k h =
      cleaners-AllOk (apply_keys u.cleaner_name u.get_deps_cleaner (fields v) c.deps_cleaners) c k h
  apply_directive-AllOk u scala_log_level v c k h = log_level-AllOk (u.parse_level v) c k h
  apply_directive-AllOk u scala_debug v c k h = scala_debug-AllOk (fields v) c k h
  apply_directive-AllOk u scala_generate_build_files v c k h =
      build_files-AllOk (parse_bool v) c k h
  apply_directive-AllOk u other_directive v c k h = h

module _ {R D : Type 0} (u : Universe R D) where
  pub parse_directives-end :
      (c c' : Config R D) → parse_directives u [] c ≡ returned (ok c') → c ≡ c'
  unfolding parse_directives
  parse_directives-end c c' e = ground arith

  -- the configuration between the first directive and the others
  pub parse_directives-next :
      (d : Directive) (ds : List Directive) (c c' : Config R D)
      → parse_directives u (d ∷ ds) c ≡ returned (ok c')
      → (c1 : Config R D) × (apply_directive u (directive_kind d.key) d.value c ≡ returned (ok c1))
        × (parse_directives u ds c1 ≡ returned (ok c'))
  unfolding parse_directives
  parse_directives-next d ds c c' e =
      elim (Outcome-cases (apply_directive u (directive_kind d.key) d.value c)) [
        | inl q ↦ ground arith
        | inr (r, q) ↦ elim (Result-cases r) [
          | inl (err, p) ↦ ground arith
          | inr (c1, p) ↦ (c1, q ∙ ap returned p, ground arith)
        ]
      ]
