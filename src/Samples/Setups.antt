-- ===== src/Samples/Setups.antt =====
-- The set-up of flags, at concrete values.
use scala_gazelle.Prelude.{
  Str, str_has_eq, Option, none, [], ◌∷◌, codes, All, ok, failed, ◌≡◌, refl,
}
use scala_gazelle.Prelude.Map.{Assoc}
use scala_gazelle.Language.Setup.{
  not_found, invalid_flag, register, ExistingProvider, library, existing_provider, split_percent,
  setup_existing_rules, setup_symbol_providers, get_named_symbol_providers, check_all,
}
use scala_gazelle.Language.Setup.Registered.{
  IsRegistered, Extends, setup_existing_rules-IsRegistered,
}

abbrev library_registered : Assoc Str ExistingProvider
library_registered =
    (codes "x.bzl%lib", existing_provider library (codes "x.bzl") (codes "lib")) ∷ []

registers_library : setup_existing_rules library (codes "x.bzl%lib" ∷ []) [] ≡ ok library_registered
unfolding setup_existing_rules split_percent register
registers_library = refl

setup_existing_rules-IsRegistered_example :
    All (IsRegistered library library_registered) (codes "x.bzl%lib" ∷ [])
    × Extends [] library_registered
setup_existing_rules-IsRegistered_example =
    setup_existing_rules-IsRegistered library (codes "x.bzl%lib" ∷ []) [] library_registered
      registers_library

without_percent :
    setup_existing_rules library (codes "lib" ∷ []) [] ≡ failed (invalid_flag (codes "lib"))
unfolding setup_existing_rules split_percent
without_percent = refl

-- a provider is its name
abbrev own_name : Str → Str
own_name s = s

abbrev no_error : Str → Option Str
no_error s = none

unknown_provider :
    setup_symbol_providers own_name no_error
      (codes "java" ∷ codes "other" ∷ [])
      (codes "source" ∷ codes "java" ∷ [])
    ≡ failed (not_found (codes "other"))
unfolding setup_symbol_providers get_named_symbol_providers check_all
unknown_provider = refl
