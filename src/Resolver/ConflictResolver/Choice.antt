-- ===== src/Resolver/ConflictResolver/Choice.antt =====
-- What a conflict resolver may answer, and when.
use scala_gazelle.Prelude.{
  Str, str_has_eq, Bool, true, not, ◌||◌, some, List, [], ◌∷◌, ◌++◌, ◌==◌, nat_beq, nat_has_eq,
  nat_beq_iff, contains-append, find, is_nil, contains, ◌≡◌, refl, arith, Option-cases, Bool-cases,
  inl, inr, map,
}
use scala_gazelle.Prelude.Map
use scala_gazelle.Label.{Label, LabelApi, label_has_eq, label_eq_iff}
use scala_gazelle.Resolver.Symbol.{Ref, Store, conflict_labels}
use scala_gazelle.Resolver.Import.{Import}
use scala_gazelle.Resolver.ConflictResolver.{
  first_with_label, first_symbol, resolve_preferred_deps, resolve_predefined_label,
  resolve_grpc_zio, resolve_proto_pair, resolve_proto_package, is_grpc_label, is_grpc_zio_label,
  ConflictResolver, preferred_deps, predefined_label, scala_grpc_zio, scala_proto_package,
  resolve_conflict, resolve_conflicts,
}

find-contains :
    (p : Ref → Bool) (xs : List Ref) (r : Ref) → find p xs ≡ some r → contains r xs ≡ true
find-contains p [] r h = ground arith
find-contains p (x ∷ xs) r h = ground (arith, find-contains p xs r, nat_beq_iff r x)

find-holds : (p : Ref → Bool) (xs : List Ref) (r : Ref) → find p xs ≡ some r → p r ≡ true
find-holds p [] r h = ground arith
find-holds p (x ∷ xs) r h = elim (Bool-cases (p x)) [
  | inl e ↦ ground arith
  | inr e ↦ ground (arith, find-holds p xs r)
]

module _ (store : Store) where
  -- the symbol or one of its conflicts
  abbrev pub is_candidate : Ref → Ref → Bool
  is_candidate symbol r = nat_beq r symbol || contains r (store.at symbol).conflicts

  first_with_label-is_candidate :
      (want : Label) (symbol r : Ref)
      → first_with_label store want symbol ≡ some r
      → is_candidate symbol r ≡ true
  first_with_label-is_candidate want symbol r h = ground (
    arith,
    nat_beq_iff r symbol,
    find-contains (λ s. (store.at s).label == want) (store.at symbol).conflicts r,
  )

  first_symbol-is_candidate :
      (p : Str → Bool) (symbol r : Ref)
      → first_symbol store ((store.at symbol).conflicts ++ symbol ∷ []) p ≡ some r
      → is_candidate symbol r ≡ true
  first_symbol-is_candidate p symbol r h = ground (
    arith,
    find-contains (λ s. p (store.at s).label.name) ((store.at symbol).conflicts ++ symbol ∷ []) r h,
    contains-append r (store.at symbol).conflicts (symbol ∷ []),
  )

  grpc_zio-is_candidate :
      (imports : List Import) (symbol r : Ref)
      → resolve_grpc_zio store imports symbol ≡ some r
      → is_candidate symbol r ≡ true
  unfolding resolve_grpc_zio
  grpc_zio-is_candidate imports symbol r h =
      let symbols = (store.at symbol).conflicts ++ symbol ∷ [] in
      elim (Option-cases (first_symbol store symbols is_grpc_label)) [
        | inl e ↦ ground (arith, e, h)
        | inr (grpc, e) ↦ elim (Option-cases (first_symbol store symbols is_grpc_zio_label)) [
          | inl f ↦ ground (arith, e, f, h)
          | inr (zio, f) ↦ ground (
            arith,
            e,
            f,
            h,
            first_symbol-is_candidate is_grpc_label symbol grpc e,
            first_symbol-is_candidate is_grpc_zio_label symbol zio f,
          )
        ]
      ]

  proto_package-is_candidate :
      (imports : List Import) (symbol r : Ref) (conflicts : List Ref)
      → resolve_proto_pair store imports symbol conflicts ≡ some r
      → (nat_beq r symbol || contains r conflicts) ≡ true
  proto_package-is_candidate imports symbol r [] h = ground arith
  proto_package-is_candidate imports symbol r (b ∷ []) h =
      ground (arith, nat_beq_iff r symbol, nat_beq_iff r b)
  proto_package-is_candidate imports symbol r (b ∷ c ∷ rest) h = ground arith

  preferred-is_candidate :
      (preferred : Map.Assoc Str Label) (symbol r : Ref)
      → resolve_preferred_deps store preferred symbol ≡ some r
      → is_candidate symbol r ≡ true
  unfolding resolve_preferred_deps
  preferred-is_candidate preferred symbol r h =
      elim (Option-cases (Map.get (store.at symbol).name preferred)) [
        | inl e ↦ ground (arith, e, h)
        | inr (want, e) ↦ ground (arith, e, h, first_with_label-is_candidate want symbol r)
      ]

module _ (api : LabelApi) (store : Store) where
  resolve_conflict-is_candidate :
      (cr : ConflictResolver) (imports : List Import) (symbol r : Ref)
      → resolve_conflict api store cr imports symbol ≡ some r
      → is_candidate store symbol r ≡ true
  unfolding resolve_conflict resolve_predefined_label resolve_proto_package
  resolve_conflict-is_candidate (preferred_deps preferred) imports symbol r h =
      preferred-is_candidate store preferred symbol r h
  resolve_conflict-is_candidate predefined_label imports symbol r h =
      first_with_label-is_candidate store api.no_label symbol r h
  resolve_conflict-is_candidate scala_grpc_zio imports symbol r h =
      grpc_zio-is_candidate store imports symbol r h
  resolve_conflict-is_candidate scala_proto_package imports symbol r h =
      proto_package-is_candidate store imports symbol r (store.at symbol).conflicts h

  -- Whatever resolvers are listed, in whatever order: an answer to a conflict is the symbol itself
  -- or one of its conflicts.
  pub resolve_conflicts-is_candidate :
      (resolvers : List ConflictResolver) (imports : List Import) (symbol r : Ref)
      → resolve_conflicts api store resolvers imports symbol ≡ some r
      → is_candidate store symbol r ≡ true
  unfolding resolve_conflicts
  resolve_conflicts-is_candidate [] imports symbol r h = ground arith
  resolve_conflicts-is_candidate (cr ∷ resolvers) imports symbol r h =
      elim (Option-cases (resolve_conflict api store cr imports symbol)) [
        | inl e ↦ resolve_conflicts-is_candidate resolvers imports symbol r (ground (arith, e, h))
        | inr (s, e) ↦ resolve_conflict-is_candidate cr imports symbol r (ground (arith, e, h))
      ]

find-label :
    (store : Store) (want : Label) (xs : List Ref)
    → not (is_nil (find (λ s. (store.at s).label == want) xs))
      ≡ contains want (map (λ s. (store.at s).label) xs)
find-label store want [] = refl
find-label store want (x ∷ xs) = ground (
  arith,
  find-label store want xs,
  label_eq_iff want (store.at x).label,
  label_eq_iff (store.at x).label want,
)

-- Where the name of a symbol has a preferred label, the resolver answers exactly if the symbol or
-- one of its conflicts comes from that label.
pub preferred_deps-found :
    (store : Store) (preferred : Map.Assoc Str Label) (symbol : Ref) (want : Label)
    → Map.get (store.at symbol).name preferred ≡ some want
    → not (is_nil (resolve_preferred_deps store preferred symbol))
      ≡ ((store.at symbol).label == want || contains want (conflict_labels store symbol))
unfolding resolve_preferred_deps
preferred_deps-found store preferred symbol want h =
    ground (arith, h, find-label store want (store.at symbol).conflicts)

-- An answer of the resolver of preferred labels comes from the label that is preferred for the name.
pub preferred_deps-label :
    (store : Store) (preferred : Map.Assoc Str Label) (symbol r : Ref)
    → resolve_preferred_deps store preferred symbol ≡ some r
    → Map.get (store.at symbol).name preferred ≡ some (store.at r).label
unfolding resolve_preferred_deps
preferred_deps-label store preferred symbol r h =
    elim (Option-cases (Map.get (store.at symbol).name preferred)) [
      | inl e ↦ ground (arith, e, h)
      | inr (want, e) ↦ ground (
        arith,
        e,
        h,
        find-holds (λ s. (store.at s).label == want) (store.at symbol).conflicts r,
        label_eq_iff (store.at symbol).label want,
        label_eq_iff (store.at r).label want,
      )
    ]
