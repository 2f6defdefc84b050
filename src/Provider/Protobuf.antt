-- ===== src/Provider/Protobuf.antt =====
-- pkg/provider/protobuf_provider.go.
use scala_gazelle.Prelude.{
  Str, Bool, ◌||◌, List, [], ◌∷◌, codes, has_suffix, Outcome, returned, panicked,
}
use scala_gazelle.Prelude.Map.{Assoc}
use scala_gazelle.Label.{Label}
use scala_gazelle.Resolver.Symbol.{
  ImportType, proto_package, proto_enum, proto_enum_field, proto_message, proto_service, class,
}
use scala_gazelle.Provider.{GlobalScope, put_names}

-- `CanProvide`
unfoldable pub can_provide : Label → Bool
can_provide dep =
    has_suffix dep.name (codes "proto_scala_library")
    || has_suffix dep.name (codes "grpc_scala_library")

-- a loop of `OnResolve` over the labels and their symbols, in the order of the map
unfoldable pub put_provided :
    ImportType → Assoc Label (List Str) → GlobalScope → Outcome GlobalScope
put_provided kind [] g = returned g
put_provided kind ((from, symbols) ∷ provided) g =
    elim (put_names kind (codes "protobuf") from symbols g) [
      | panicked ↦ panicked
      | returned g' ↦ put_provided kind provided g'
    ]

abbrev pub provided_kinds : List (Str × ImportType)
provided_kinds =
    (codes "package", proto_package)
    ∷ (codes "enum", proto_enum)
    ∷ (codes "enumfield", proto_enum_field)
    ∷ (codes "message", proto_message)
    ∷ (codes "service", proto_service)
    ∷ (codes "class", class)
    ∷ []

-- the import provider, given the language
module _ (provided_imports : Str → Assoc Label (List Str)) where
  unfoldable pub put_kinds : List (Str × ImportType) → GlobalScope → Outcome GlobalScope
  put_kinds [] g = returned g
  put_kinds ((name, kind) ∷ kinds) g = elim (put_provided kind (provided_imports name) g) [
    | panicked ↦ panicked
    | returned g' ↦ put_kinds kinds g'
  ]

  -- `OnResolve`
  unfoldable pub on_resolve : GlobalScope → Outcome GlobalScope
  on_resolve g = put_kinds provided_kinds g
