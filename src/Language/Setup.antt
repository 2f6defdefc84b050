-- ===== src/Language/Setup.antt =====
-- The set-up of language/scala/flags.go with the registries behind it: pkg/resolver/global_*_registry.go
-- and pkg/scalarule/global_provider_registry.go. The values of the flags are arguments.
pub mod Registered
use scala_gazelle.Prelude.{
  ℕ, nat_beq, Str, str_has_eq, Bool, true, false, Option, none, some, List, [], ◌∷◌, ◌++◌, ◌==◌,
  if◌then◌else◌, sort_by, find, to_list, Result, ok, failed,
}
use scala_gazelle.Prelude.Map
use scala_gazelle.Prelude.Map.{Assoc}

pub data SetupError : Type 0 where
  duplicate : Str → SetupError
  not_found : Str → SetupError
  invalid_flag : Str → SetupError
  check_failed : Str → SetupError

module _ {A : Type 0} where
  -- `PutConflictResolver`, `PutDepsCleaner` and `RegisterProvider`
  unfoldable pub register : Str → A → Assoc Str A → Result SetupError (Assoc Str A)
  register name value registry = elim (Map.get name registry) [
    | some old ↦ failed (duplicate name)
    | none ↦ ok (Map.put name value registry)
  ]

  abbrev pub cons_found : Option A → List A → List A
  cons_found o rest = to_list o ++ rest

  abbrev pub look_up_all : List Str → Assoc Str A → List A
  look_up_all [] registry = []
  look_up_all (k ∷ ks) registry = cons_found (Map.get k registry) (look_up_all ks registry)

  -- `ProviderNames`, `GlobalConflictResolvers` and `GlobalDepsCleaners`: by name
  unfoldable pub registered_names : Assoc Str A → List Str
  registered_names registry = sort_by (λ s. s) (Map.keys registry)

  unfoldable pub registered_values : Assoc Str A → List A
  unfolding registered_names
  registered_values registry = look_up_all (registered_names registry) registry

  -- `setupConflictResolvers` and `setupDepsCleaners`; `CheckFlags` answers an error or `none`
  unfoldable pub setup_named :
      (A → Option Str) → Assoc Str A → List Str → Assoc Str A → Result SetupError (Assoc Str A)
  setup_named check_flags registry [] own = ok own
  setup_named check_flags registry (name ∷ names) own = elim (Map.get name registry) [
    | none ↦ failed (not_found name)
    | some value ↦ elim (check_flags value) [
      | some e ↦ failed (check_failed e)
      | none ↦ setup_named check_flags registry names (Map.put name value own)
    ]
  ]

  -- the registry of symbol providers is a list, whose items have names
  module _ (name_of : A → Str) where
    abbrev pub find_named : Str → List A → Option A
    find_named name providers = find (λ p. name_of p == name) providers

    -- `AddSymbolProvider`
    unfoldable pub add_symbol_provider : A → List A → Result SetupError (List A)
    add_symbol_provider provider providers = elim (find_named (name_of provider) providers) [
      | some p ↦ failed (duplicate (name_of p))
      | none ↦ ok (providers ++ provider ∷ [])
    ]

    -- `GetNamedSymbolProviders`
    unfoldable pub get_named_symbol_providers :
        List Str → List A → List A → Result SetupError (List A)
    get_named_symbol_providers [] all want = ok want
    get_named_symbol_providers (name ∷ names) all want = elim (find_named name all) [
      | none ↦ failed (not_found name)
      | some provider ↦ get_named_symbol_providers names all (want ++ provider ∷ [])
    ]

    unfoldable pub check_all : (A → Option Str) → List A → List A → Result SetupError (List A)
    check_all check_flags [] providers = ok providers
    check_all check_flags (p ∷ ps) providers = elim (check_flags p) [
      | some e ↦ failed (check_failed e)
      | none ↦ check_all check_flags ps providers
    ]

    -- `setupSymbolProviders`
    unfoldable pub setup_symbol_providers :
        (A → Option Str) → List Str → List A → Result SetupError (List A)
    setup_symbol_providers check_flags names all = elim (get_named_symbol_providers names all []) [
      | failed e ↦ failed e
      | ok providers ↦ check_all check_flags providers providers
    ]

-- `existingScalaRuleProvider`
pub record ExistingProvider : Type 0 where
  pub load : Str
  pub name : Str
  pub is_binary : Bool
  pub is_library : Bool
  pub is_test : Bool

-- which of the three flags
pub data Role : Type 0 where
  binary library test : Role

abbrev pub existing_provider : Role → Str → Str → ExistingProvider
existing_provider binary load kind = record {
  load = load;
  name = kind;
  is_binary = true;
  is_library = false;
  is_test = false;
}
existing_provider library load kind = record {
  load = load;
  name = kind;
  is_binary = false;
  is_library = true;
  is_test = false;
}
existing_provider test load kind = record {
  load = load;
  name = kind;
  is_binary = false;
  is_library = false;
  is_test = true;
}

abbrev pub cons_first : ℕ → Option (Str × Str) → Option (Str × Str)
cons_first c none = none
cons_first c (some (load, kind)) = some (c ∷ load, kind)

-- strings.SplitN(fqn, "%", 2), where it has two parts
unfoldable pub split_percent : Str → Option (Str × Str)
split_percent [] = none
split_percent (c ∷ s) =
    let rest = split_percent s in if nat_beq c 37 then some ([], s) else cons_first c rest

-- `setupExistingScalaBinaryRules` and the two beside it
unfoldable pub setup_existing_rules :
    Role → List Str → Assoc Str ExistingProvider → Result SetupError (Assoc Str ExistingProvider)
setup_existing_rules role [] registry = ok registry
setup_existing_rules role (fqn ∷ rules) registry = elim (split_percent fqn) [
  | none ↦ failed (invalid_flag fqn)
  | some parts ↦ elim (register fqn (existing_provider role parts.0 parts.1) registry) [
    | failed e ↦ failed e
    | ok registry' ↦ setup_existing_rules role rules registry'
  ]
]
