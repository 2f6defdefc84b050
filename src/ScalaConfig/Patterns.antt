-- ===== src/ScalaConfig/Patterns.antt =====
-- `ShouldFixWildcardImport` and `ShouldResolveFileSymbolName` of pkg/scalaconfig/config.go: the first
-- of the configured patterns that matches decides.
pub mod Parsed
use scala_gazelle.Prelude.{
  Str, Bool, true, false, List, [], ◌∷◌, if◌then◌else◌, codes, has_suffix, has_substring, not,
}
use scala_gazelle.Collections.Intent.{Intent}
use scala_gazelle.Collections.Slice.{items}
use scala_gazelle.ScalaConfig.State.{Config, PatternSpec}

-- `match` is `Match` of doublestar, with false for its error
module _ (match : Str → Str → Bool) where
  abbrev pub is_file_of : Str → Str → Bool
  is_file_of pattern filename =
      if has_substring pattern (codes "*")
      then match pattern filename
      else has_suffix filename pattern

  -- the loop of `ShouldFixWildcardImport`
  unfoldable pub fixes_in : List PatternSpec → Str → Str → Bool
  fixes_in [] filename wimp = false
  fixes_in (spec ∷ specs) filename wimp =
      let rest = fixes_in specs filename wimp in
      if not (is_file_of spec.file_pattern filename)
      then rest
      else if not (match spec.pattern.value wimp)
      then rest
      else spec.pattern.want

  -- the loop of `ShouldResolveFileSymbolName`
  unfoldable pub resolves_in : List PatternSpec → Str → Str → Bool
  resolves_in [] filename name = false
  resolves_in (spec ∷ specs) filename name =
      let rest = resolves_in specs filename name in
      if not (match spec.file_pattern filename)
      then rest
      else if not (match spec.pattern.value name)
      then rest
      else spec.pattern.want

  module _ {R D : Type 0} (c : Config R D) where
    unfoldable pub should_fix_wildcard_import : Str → Str → Bool
    should_fix_wildcard_import filename wimp =
        fixes_in (items c.fix_wildcard_import_specs) filename wimp

    unfoldable pub should_resolve_file_symbol_name : Str → Str → Bool
    should_resolve_file_symbol_name filename name =
        resolves_in (items c.resolve_file_symbol_names) filename name
