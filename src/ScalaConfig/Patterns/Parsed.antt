-- ===== src/ScalaConfig/Patterns/Parsed.antt =====
-- Which patterns decide after the directives of a build file.
use scala_gazelle.Prelude.{
  Str, Bool, true, false, ◌&&◌, Option, none, some, List, [], ◌∷◌, ◌++◌, find, fields, returned, ok,
  ◌≡◌, refl, arith, sym, ◌∙◌, ap, subst, or_else, append-nil, append_assoc,
}
use scala_gazelle.Collections.Intent.{parse_intent}
use scala_gazelle.Collections.Slice.{Slice, items}
use scala_gazelle.ScalaConfig.Named.{append_item}
use scala_gazelle.ScalaConfig.Named.Appended.{IsSlice, items-append_item, append_item-IsSlice}
use scala_gazelle.ScalaConfig.State.{Config, PatternSpec}
use scala_gazelle.ScalaConfig.Directives.{
  Directive, Universe, AllOk, add_patterns, parse_resolve_file_symbol_names,
}
use scala_gazelle.ScalaConfig.Directives.Apply.{
  DirectiveKind, directive_kind, apply_directive, parse_directives, scala_rule,
  scala_keep_unmanaged_deps, scala_fix_wildcard_imports, resolve_glob, resolve_with,
  resolve_file_symbol_name, resolve_kind_rewrite_name, resolve_conflicts, scala_deps_cleaner,
  scala_log_level, scala_debug, scala_generate_build_files, other_directive,
}
use scala_gazelle.ScalaConfig.Directives.Apply.Closed.{
  IsClosed, apply_directive-AllOk, parse_directives-end, parse_directives-next,
}
use scala_gazelle.ScalaConfig.Patterns.{resolves_in, should_resolve_file_symbol_name}

-- the patterns that the fields of a directive spell out: one for each field behind the first
abbrev pub with_file : Str → List Str → List PatternSpec
with_file f [] = []
with_file f (part ∷ parts) =
    record { file_pattern = f; pattern = parse_intent part } ∷ with_file f parts

abbrev pub spelled_out : List Str → List PatternSpec
spelled_out [] = []
spelled_out (f ∷ parts) = with_file f parts

abbrev pub name_patterns_of : DirectiveKind → Str → List PatternSpec
name_patterns_of resolve_file_symbol_name value = spelled_out (fields value)
name_patterns_of _ value = []

abbrev changes_names : DirectiveKind → Bool
changes_names resolve_file_symbol_name = true
changes_names _ = false

-- those of the `resolve_file_symbol_name` directives of a build file, in its order
abbrev pub name_patterns : List Directive → List PatternSpec
name_patterns [] = []
name_patterns (d ∷ ds) = name_patterns_of (directive_kind d.key) d.value ++ name_patterns ds

abbrev HasItems : {A : Type 0} → List A → Slice A → Type 0
HasItems xs s = IsSlice s × (items s ≡ xs)

HasItems-add_patterns :
    (f : Str) (parts : List Str) (s : Slice PatternSpec) (xs : List PatternSpec)
    → HasItems xs s
    → HasItems (xs ++ with_file f parts) (add_patterns f parts s)
unfolding add_patterns
HasItems-add_patterns f [] s xs h = rw (append-nil xs) h
HasItems-add_patterns f (part ∷ parts) s xs h =
    let spec : PatternSpec = record { file_pattern = f; pattern = parse_intent part } in
    rw (sym (append_assoc xs (spec ∷ []) (with_file f parts))) (
      HasItems-add_patterns f parts (append_item spec s) (xs ++ spec ∷ []) (
        append_item-IsSlice spec s h.0,
        items-append_item spec s h.0 ∙ ap (λ ys. ys ++ spec ∷ []) h.1,
      ))

module _ {R D : Type 0} (u : Universe R D) where
  abbrev HasNames : List PatternSpec → Config R D → Type 0
  HasNames xs c = HasItems xs c.resolve_file_symbol_names

  HasNames-fields :
      (fs : List Str) (c : Config R D) (xs : List PatternSpec)
      → HasNames xs c
      → HasNames (xs ++ spelled_out fs) (parse_resolve_file_symbol_names fs c)
  unfolding parse_resolve_file_symbol_names
  HasNames-fields [] c xs h = rw (append-nil xs) h
  HasNames-fields (f ∷ []) c xs h = rw (append-nil xs) h
  HasNames-fields (f ∷ part ∷ parts) c xs h =
      HasItems-add_patterns f (part ∷ parts) c.resolve_file_symbol_names xs h

  -- no other directive touches the patterns
  unchanged :
      (xs : List PatternSpec) (k : DirectiveKind)
      → changes_names k ≡ false
      → IsClosed (HasNames xs) k
  unchanged xs scala_rule e = λ c n p w r e k. k
  unchanged xs scala_keep_unmanaged_deps e = λ c b k. k
  unchanged xs scala_fix_wildcard_imports e = λ c f parts k. k
  unchanged xs resolve_glob e = λ c o k. k
  unchanged xs resolve_with e = λ c d k. k
  unchanged xs resolve_kind_rewrite_name e = λ c kind spec k. k
  unchanged xs resolve_conflicts e = λ c s k. k
  unchanged xs scala_deps_cleaner e = λ c s k. k
  unchanged xs scala_log_level e = λ c n k. k
  unchanged xs scala_debug e = λ c want a k. k
  unchanged xs scala_generate_build_files e = λ c b k. k
  unchanged xs other_directive e = tt
  unchanged xs resolve_file_symbol_name e = ground arith

  HasNames-directive :
      (k : DirectiveKind) (v : Str) (c : Config R D) (xs : List PatternSpec)
      → HasNames xs c
      → AllOk (HasNames (xs ++ name_patterns_of k v)) (apply_directive u k v c)
  unfolding apply_directive
  HasNames-directive resolve_file_symbol_name v c xs h = HasNames-fields (fields v) c xs h
  HasNames-directive scala_rule v c xs h =
      rw (append-nil xs)
        (apply_directive-AllOk (HasNames xs) u scala_rule v c (unchanged xs scala_rule refl) h)
  HasNames-directive scala_keep_unmanaged_deps v c xs h = rw (append-nil xs) (
      apply_directive-AllOk (HasNames xs) u scala_keep_unmanaged_deps v c
        (unchanged xs scala_keep_unmanaged_deps refl) h)
  HasNames-directive scala_fix_wildcard_imports v c xs h = rw (append-nil xs) (
      apply_directive-AllOk (HasNames xs) u scala_fix_wildcard_imports v c
        (unchanged xs scala_fix_wildcard_imports refl) h)
  HasNames-directive resolve_glob v c xs h =
      rw (append-nil xs)
        (apply_directive-AllOk (HasNames xs) u resolve_glob v c (unchanged xs resolve_glob refl) h)
  HasNames-directive resolve_with v c xs h =
      rw (append-nil xs)
        (apply_directive-AllOk (HasNames xs) u resolve_with v c (unchanged xs resolve_with refl) h)
  HasNames-directive resolve_kind_rewrite_name v c xs h = rw (append-nil xs) (
      apply_directive-AllOk (HasNames xs) u resolve_kind_rewrite_name v c
        (unchanged xs resolve_kind_rewrite_name refl) h)
  HasNames-directive resolve_conflicts v c xs h = rw (append-nil xs) (
      apply_directive-AllOk (HasNames xs) u resolve_conflicts v c
        (unchanged xs resolve_conflicts refl) h)
  HasNames-directive scala_deps_cleaner v c xs h = rw (append-nil xs) (
      apply_directive-AllOk (HasNames xs) u scala_deps_cleaner v c
        (unchanged xs scala_deps_cleaner refl) h)
  HasNames-directive scala_log_level v c xs h = rw (append-nil xs) (
      apply_directive-AllOk (HasNames xs) u scala_log_level v c (unchanged xs scala_log_level refl)
        h)
  HasNames-directive scala_debug v c xs h =
      rw (append-nil xs)
        (apply_directive-AllOk (HasNames xs) u scala_debug v c (unchanged xs scala_debug refl) h)
  HasNames-directive scala_generate_build_files v c xs h = rw (append-nil xs) (
      apply_directive-AllOk (HasNames xs) u scala_generate_build_files v c
        (unchanged xs scala_generate_build_files refl) h)
  HasNames-directive other_directive v c xs h = rw (append-nil xs) (
      apply_directive-AllOk (HasNames xs) u other_directive v c (unchanged xs other_directive refl)
        h)

  HasNames-directives :
      (ds : List Directive) (c c' : Config R D) (xs : List PatternSpec)
      → HasNames xs c
      → parse_directives u ds c ≡ returned (ok c')
      → HasNames (xs ++ name_patterns ds) c'
  HasNames-directives [] c c' xs h e =
      subst (HasNames (xs ++ [])) (parse_directives-end u c c' e) (rw (append-nil xs) h)
  HasNames-directives (d ∷ ds) c c' xs h e =
      let own = name_patterns_of (directive_kind d.key) d.value in
      let next = parse_directives-next u d ds c c' e in
      let kept = HasNames-directive (directive_kind d.key) d.value c xs h in
      rw (sym (append_assoc xs own (name_patterns ds))) (
        HasNames-directives ds next.0 c' (xs ++ own)
          (subst (AllOk (HasNames (xs ++ own))) next.1 kept) next.2)

abbrev pub wants : Option PatternSpec → Bool
wants none = false
wants (some spec) = spec.pattern.want

module _ (match : Str → Str → Bool) where
  abbrev pub names_match : Str → Str → PatternSpec → Bool
  names_match filename name spec = match spec.file_pattern filename && match spec.pattern.value name

  resolves_in_lem :
      (xs ys : List PatternSpec) (filename name : Str)
      → resolves_in match (xs ++ ys) filename name
        ≡ wants
            (or_else (find (names_match filename name) xs) (find (names_match filename name) ys))
  unfolding resolves_in
  resolves_in_lem [] [] filename name = refl
  resolves_in_lem [] (y ∷ ys) filename name = ground (arith, resolves_in_lem [] ys filename name)
  resolves_in_lem (x ∷ xs) ys filename name = ground (arith, resolves_in_lem xs ys filename name)

-- After the directives of a build file, a name of a file is resolved if the first pattern that matches
-- it is a positive one. The patterns that the configuration had before come first; then those of the
-- directives in their order.
pub should_resolve_file_symbol_name-parse_directives :
    {R D : Type 0} (u : Universe R D) (match : Str → Str → Bool) (ds : List Directive)
    (c c' : Config R D) (filename name : Str)
    → IsSlice c.resolve_file_symbol_names
    → parse_directives u ds c ≡ returned (ok c')
    → should_resolve_file_symbol_name match c' filename name
      ≡ wants (
          or_else
            (find (names_match match filename name) (items c.resolve_file_symbol_names))
            (find (names_match match filename name) (name_patterns ds)))
unfolding should_resolve_file_symbol_name
should_resolve_file_symbol_name-parse_directives u match ds c c' filename name h e =
    let xs = items c.resolve_file_symbol_names in
    rw (HasNames-directives u ds c c' xs (h, refl) e).1
      (resolves_in_lem match xs (name_patterns ds) filename name)
