-- ===== src/Resolver/ConflictResolver.antt =====
-- The conflict resolvers of pkg/resolver: preferred_deps_, predefined_label_, scala_grpc_zio_ and
-- scala_proto_package_conflict_resolver.go. Each picks one of a symbol and its conflicts, or passes.
pub mod Choice
use scala_gazelle.Prelude.{
  ℕ, Str, str_has_eq, Bool, true, false, not, ◌&&◌, ◌||◌, Option, none, some, List, [], ◌∷◌, ◌++◌,
  ◌==◌, nat_beq, nat_has_eq, if◌then◌else◌, codes, find, has_prefix, has_suffix, has_substring,
  is_nil,
}
use scala_gazelle.Prelude.Map
use scala_gazelle.Prelude.Map.{Assoc}
use scala_gazelle.Label.{Label, LabelApi, label_has_eq}
use scala_gazelle.Resolver.Symbol.{Ref, Store, ImportType, proto_package, proto_service}
use scala_gazelle.Resolver.Import.{Import}

abbrev pub is_proto_package : ImportType → Bool
is_proto_package proto_package = true
is_proto_package _ = false

abbrev pub is_proto_service : ImportType → Bool
is_proto_service proto_service = true
is_proto_service _ = false

unfoldable pub is_grpc_zio_label : Str → Bool
is_grpc_zio_label name = has_suffix name (codes "_grpc_zio_scala_library")

unfoldable pub is_proto_label : Str → Bool
is_proto_label name = has_suffix name (codes "_proto_scala_library")

unfoldable pub is_grpc_label : Str → Bool
is_grpc_label name = has_suffix name (codes "_grpc_scala_library")

module _ (store : Store) where
  -- the loop over `symbol.Conflicts`, behind the test of the symbol itself
  abbrev pub first_with_label : Label → Ref → Option Ref
  first_with_label want symbol =
      if (store.at symbol).label == want
      then some symbol
      else find (λ s. (store.at s).label == want) (store.at symbol).conflicts

  -- `PreferredDepsConflictResolver.ResolveConflict`
  unfoldable pub resolve_preferred_deps : Assoc Str Label → Ref → Option Ref
  resolve_preferred_deps preferred symbol = elim (Map.get (store.at symbol).name preferred) [
    | none ↦ none
    | some want ↦ first_with_label want symbol
  ]

  -- `PredefinedLabelConflictResolver.ResolveConflict`
  unfoldable pub resolve_predefined_label : LabelApi → Ref → Option Ref
  resolve_predefined_label api symbol = first_with_label api.no_label symbol

  -- `firstSymbol`
  abbrev pub first_symbol : List Ref → (Str → Bool) → Option Ref
  first_symbol symbols predicate = find (λ s. predicate (store.at s).label.name) symbols

  -- an import that the search loops skip; `symbol` is the one in conflict
  abbrev pub other_symbol : Ref → Import → Option Ref
  other_symbol symbol imp = elim imp.symbol [
    | none ↦ none
    | some s ↦ if not (is_nil imp.error) then none else if nat_beq s symbol then none else some s
  ]

  abbrev pub satisfies : (Ref → Bool) → Option Ref → Bool
  satisfies p none = false
  satisfies p (some s) = p s

  abbrev pub any_other : (Ref → Bool) → Ref → List Import → Bool
  any_other p symbol [] = false
  any_other p symbol (imp ∷ imports) =
      satisfies p (other_symbol symbol imp) || any_other p symbol imports

  -- a service whose last dotted name starts with "Zio"
  abbrev pub is_zio_service : Ref → Bool
  is_zio_service s =
      is_proto_service (store.at s).kind && has_substring (store.at s).name (codes ".Zio")

  -- `ScalaGrpcZioConflictResolver.ResolveConflict`
  unfoldable pub resolve_grpc_zio : List Import → Ref → Option Ref
  resolve_grpc_zio imports symbol =
      let symbols = (store.at symbol).conflicts ++ symbol ∷ [] in
      elim (first_symbol symbols is_grpc_label) [
        | none ↦ none
        | some grpc ↦ elim (first_symbol symbols is_grpc_zio_label) [
          | none ↦ none
          | some zio ↦
              if not ((store.at grpc).name == (store.at zio).name)
              then none
              else if any_other is_zio_service symbol imports
              then some zio
              else some grpc
        ]
      ]

  abbrev pub service_suffixes : List Str
  service_suffixes =
      codes "Grpc"
      ∷ codes "Client"
      ∷ codes "Handler"
      ∷ codes "Server"
      ∷ codes "PowerApi"
      ∷ codes "PowerApiHandler"
      ∷ codes "ClientPowerApi"
      ∷ []

  abbrev pub has_any_suffix : Str → List Str → Bool
  has_any_suffix name [] = false
  has_any_suffix name (suffix ∷ rest) = has_suffix name suffix || has_any_suffix name rest

  -- a symbol of the package that is called like a service
  unfoldable pub is_grpc_use : Str → Ref → Bool
  is_grpc_use pkg s =
      has_prefix (store.at s).name pkg && has_any_suffix (store.at s).name service_suffixes

  -- the end of the function: the proto label comes first, and the other one must be the grpc label
  abbrev pub pick_by_label : Bool → Ref → Ref → Option Ref
  pick_by_label is_using_grpc a b =
      if not (is_grpc_label (store.at b).label.name)
      then none
      else if is_using_grpc
      then some b
      else some a

  -- `ScalaProtoPackageConflictResolver.ResolveConflict`; the conflicts are given, as the first test
  -- counts them
  abbrev pub resolve_proto_pair : List Import → Ref → List Ref → Option Ref
  resolve_proto_pair imports a [] = none
  resolve_proto_pair imports a (b ∷ c ∷ rest) = none
  resolve_proto_pair imports a (b ∷ []) =
      if not (is_proto_package (store.at a).kind && is_proto_package (store.at b).kind)
      then none
      else if not ((store.at a).name == (store.at b).name)
      then none
      else (let using_grpc = any_other (is_grpc_use (store.at a).name) a imports in
          if not (is_proto_label (store.at a).label.name)
          then pick_by_label using_grpc b a
          else pick_by_label using_grpc a b)

  unfoldable pub resolve_proto_package : List Import → Ref → Option Ref
  resolve_proto_package imports symbol =
      resolve_proto_pair imports symbol (store.at symbol).conflicts

-- the resolvers that a configuration can list
pub data ConflictResolver : Type 0 where
  preferred_deps : Assoc Str Label → ConflictResolver
  predefined_label scala_grpc_zio scala_proto_package : ConflictResolver

module _ (api : LabelApi) (store : Store) where
  unfoldable pub resolve_conflict : ConflictResolver → List Import → Ref → Option Ref
  unfolding resolve_preferred_deps resolve_predefined_label resolve_grpc_zio resolve_proto_package
  resolve_conflict (preferred_deps preferred) imports symbol =
      resolve_preferred_deps store preferred symbol
  resolve_conflict predefined_label imports symbol = resolve_predefined_label store api symbol
  resolve_conflict scala_grpc_zio imports symbol = resolve_grpc_zio store imports symbol
  resolve_conflict scala_proto_package imports symbol = resolve_proto_package store imports symbol

  -- `Config.ResolveConflict` of pkg/scalaconfig/config.go: the first resolver that has an answer
  unfoldable pub resolve_conflicts : List ConflictResolver → List Import → Ref → Option Ref
  resolve_conflicts [] imports symbol = none
  resolve_conflicts (r ∷ resolvers) imports symbol = elim (resolve_conflict r imports symbol) [
    | none ↦ resolve_conflicts resolvers imports symbol
    | some s ↦ some s
  ]
