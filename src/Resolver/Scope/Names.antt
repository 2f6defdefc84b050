-- ===== src/Resolver/Scope/Names.antt =====
-- What names lead to in a `ScalaScope`.
use scala_gazelle.Prelude.{
  Str, str_has_eq, false, ◌||◌, ◌++◌, Option, none, some, ◌≡◌, ◌==◌, arith, codes, trim_prefix,
  trim_prefix-append, Bool-cases, inl, inr,
}
use scala_gazelle.Resolver.Symbol.{Ref, Store}
use scala_gazelle.Resolver.Scope.{Scope, scala_scope, unless_builtin, get_symbol, root_prefix}

module _ (store : Store) where
  -- the symbol is neither the package scala nor the package java.lang
  abbrev pub IsUsable : Option Ref → Type 0
  IsUsable none = Unit
  IsUsable (some s) =
      (((store.at s).name == codes "scala") ≡ false)
      × (((store.at s).name == codes "java.lang") ≡ false)

  unless_builtin-IsUsable :
      (o next : Option Ref) → IsUsable next → IsUsable (unless_builtin store o next)
  unless_builtin-IsUsable none next h = h
  unless_builtin-IsUsable (some s) next h =
      elim (Bool-cases
        ((store.at s).name == codes "scala" || (store.at s).name == codes "java.lang")) [
          | inl e ↦ rw e h
          | inr e ↦ rw e (ground arith, ground arith)
        ]

  -- `GetSymbol` of a `ScalaScope` returns neither the symbol of the package scala nor that of java.lang,
  -- whatever its layers hold.
  pub get_symbol-IsUsable :
      (parent scala java_lang : Scope) (imp : Str)
      → IsUsable (get_symbol store (scala_scope parent scala java_lang) imp)
  unfolding get_symbol
  get_symbol-IsUsable parent scala java_lang imp =
      unless_builtin-IsUsable (get_symbol store parent imp) _ (
        unless_builtin-IsUsable (get_symbol store scala imp) _ (
          unless_builtin-IsUsable (get_symbol store java_lang imp) _ (
            unless_builtin-IsUsable (get_symbol store parent (trim_prefix imp root_prefix)) none
              tt)))

  -- A name under "_root_." that no layer knows as such leads to what the parent has for the rest of
  -- the name, but for the two packages.
  pub get_symbol-root :
      (parent scala java_lang : Scope) (name : Str)
      → get_symbol store parent (root_prefix ++ name) ≡ none
      → get_symbol store scala (root_prefix ++ name) ≡ none
      → get_symbol store java_lang (root_prefix ++ name) ≡ none
      → get_symbol store (scala_scope parent scala java_lang) (root_prefix ++ name)
        ≡ unless_builtin store (get_symbol store parent name) none
  unfolding get_symbol
  get_symbol-root parent scala java_lang name p s j =
      rw (p, s, j, trim_prefix-append root_prefix name)
