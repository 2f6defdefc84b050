-- ===== src/Maven/MavenResolver/Provided.antt =====
-- `Resolve` against the dependencies that were loaded.
use scala_gazelle.Prelude.{
  Str, str_has_eq, str_eq, str_eq_iff, str_eq_refl, Bool, true, false, ◌&&◌, ◌||◌, Option, none,
  some, List, [], ◌∷◌, ◌++◌, ◌==◌, if◌then◌else◌, contains, contains-append, Distinct,
  Distinct-snoc, Bool-cases, Option-cases, inl, inr, ◌≡◌, ◌≢◌, ◌⊎◌, refl, arith, subst, fun_ext,
}
use scala_gazelle.Prelude.Map
use scala_gazelle.Prelude.Map.{Assoc, get-put}
use scala_gazelle.Label.{Label, LabelApi}
use scala_gazelle.Maven.Coordinate.{parse_coordinate, artifact_string}
use scala_gazelle.Maven.MavenResolver.{
  StringMultiSet, set_at, add, Dependency, MavenResolver, label_of, add_packages,
  new_resolver_from_v1, new_maven_resolver, Resolution, resolution_of, resolve, package_not_found,
  parsed, many_possible_imports,
}

contains-set_at-add :
    (key value : Str) (pkg l : Str) (m : StringMultiSet)
    → contains l (set_at pkg (add key value m))
      ≡ (contains l (set_at pkg m) || (key == pkg && l == value))
unfolding add
contains-set_at-add key value pkg l m = ground (
  arith,
  get-put key pkg (let set = set_at key m in if contains value set then set else set ++ value ∷ [])
      m,
  str_eq_iff key pkg,
  str_eq_iff l value,
  contains-append l (set_at key m) (value ∷ []),
)

-- a set that is there has something, and nothing twice
IsMultiSet : StringMultiSet → Type 0
IsMultiSet m = (pkg : Str) → Distinct (set_at pkg m) × (Map.get pkg m ≢ some [])

set_at-put :
    (key pkg : Str) (set : List Str) (m : StringMultiSet)
    → set_at pkg (Map.put key set m) ≡ (if str_eq key pkg then set else set_at pkg m)
set_at-put key pkg set m = ground (arith, get-put key pkg set m)

added_nonempty :
    (value : Str) (set : List Str) → (if contains value set then set else set ++ value ∷ []) ≢ []
added_nonempty value [] = ground arith
added_nonempty value (x ∷ set) = ground arith

added-Distinct :
    (value : Str) (set : List Str)
    → Distinct set
    → Distinct (if contains value set then set else set ++ value ∷ [])
added-Distinct value set d = elim (Bool-cases (contains value set)) [
  | inl e ↦ rw e d
  | inr e ↦ rw e (Distinct-snoc value set d e)
]

add-IsMultiSet :
    (key value : Str) (m : StringMultiSet) → IsMultiSet m → IsMultiSet (add key value m)
unfolding add IsMultiSet
add-IsMultiSet key value m h pkg =
    let set = set_at key m in
    let new = if contains value set then set else set ++ value ∷ [] in
    elim (Bool-cases (str_eq key pkg)) [
      | inl e ↦ (
        rw (set_at-put key pkg new m, e) (added-Distinct value set (h key).0),
        rw (get-put key pkg new m, e) (ground (arith, added_nonempty value set)),
      )
      | inr e ↦
          (rw (set_at-put key pkg new m, e) (h pkg).0, rw (get-put key pkg new m, e) (h pkg).1)
    ]

module _ (api : LabelApi) (workspace_name : Str) where
  contains-add_packages :
      (from : Label) (packages : List Str) (r : MavenResolver) (pkg l : Str)
      → contains l (set_at pkg (add_packages api workspace_name from packages r).data_set)
        ≡ (contains l (set_at pkg r.data_set) || (contains pkg packages && l == api.to_string from))
  unfolding add_packages
  contains-add_packages from [] r pkg l = ground arith
  contains-add_packages from (p ∷ packages) r pkg l = ground (
    arith,
    contains-add_packages from packages
        (record r {
          data_set = add p (api.to_string from) r.data_set;
          put_symbols = r.put_symbols ++ (p, from) ∷ [];
        })
        pkg l,
    contains-set_at-add p (api.to_string from) pkg l r.data_set,
    str_eq_iff pkg p,
    str_eq_iff p pkg,
  )

  add_packages-IsMultiSet :
      (from : Label) (packages : List Str) (r : MavenResolver)
      → IsMultiSet r.data_set
      → IsMultiSet (add_packages api workspace_name from packages r).data_set
  unfolding add_packages
  add_packages-IsMultiSet from [] r h = h
  add_packages-IsMultiSet from (p ∷ packages) r h =
      add_packages-IsMultiSet from packages
        (record r {
          data_set = add p (api.to_string from) r.data_set;
          put_symbols = r.put_symbols ++ (p, from) ∷ [];
        })
        (add-IsMultiSet p (api.to_string from) r.data_set h)

  -- the label of a coordinate, as text
  abbrev pub is_label_of : Str → Str → Bool
  is_label_of l coord = elim (parse_coordinate coord) [
    | none ↦ false
    | some c ↦ l == api.to_string (label_of api workspace_name (artifact_string c))
  ]

  -- some dependency with the package has this label
  unfoldable pub provides : Str → Str → List Dependency → Bool
  provides pkg l [] = false
  provides pkg l (dep ∷ deps) =
      (contains pkg dep.packages && is_label_of l dep.coord) || provides pkg l deps

  new_resolver_from_v1-contains :
      (deps : List Dependency) (r loaded : MavenResolver) (pkg l : Str)
      → IsMultiSet r.data_set
      → new_resolver_from_v1 api workspace_name deps r ≡ some loaded
      → IsMultiSet loaded.data_set
        × (contains l (set_at pkg loaded.data_set)
            ≡ (contains l (set_at pkg r.data_set) || provides pkg l deps))
  unfolding new_resolver_from_v1 provides
  new_resolver_from_v1-contains [] r loaded pkg l h e =
      let same : r ≡ loaded = ground (arith, e) in
      subst
        (λ r'.
          IsMultiSet r'.data_set
          × (contains l (set_at pkg r'.data_set) ≡ (contains l (set_at pkg r.data_set) || false)))
        same (h, ground arith)
  new_resolver_from_v1-contains (dep ∷ deps) r loaded pkg l h e =
      elim (Option-cases (parse_coordinate dep.coord)) [
        | inl n ↦ ground (arith, n, e)
        | inr (c, n) ↦
            let from = label_of api workspace_name (artifact_string c) in
            let begun : MavenResolver = record r {
              artifacts = Map.put dep.coord from r.artifacts;
            } in
            let rest =
              new_resolver_from_v1-contains deps
                (add_packages api workspace_name from dep.packages begun) loaded pkg l
                (add_packages-IsMultiSet from dep.packages begun h) (ground (arith, n, e)) in
            (rest.0, ground (arith, n, rest.1, contains-add_packages from dep.packages begun pkg l))
      ]

  -- what `Resolve` answers where these are the labels of the package
  abbrev pub IsAnswer : (Str → Bool) → Str → Resolution → Type 0
  IsAnswer labels m answer =
      ((answer ≡ package_not_found) × (labels m ≡ false))
      ⊎ ((l : Str) × (answer ≡ parsed (api.parse l)) × (labels m ≡ (m == l)))
      ⊎ ((l : Str) × (k : Str) × (answer ≡ many_possible_imports)
          × ((l == k) ≡ false)
          × (labels l ≡ true)
          × (labels k ≡ true))

  resolution_of-IsAnswer :
      (set : Option (List Str)) (m : Str)
      → set ≢ some []
      → Distinct (elim set [ none ↦ [] | some labels ↦ labels ])
      → IsAnswer
          (λ l. contains l (elim set [ none ↦ [] | some labels ↦ labels ]))
          m
          (resolution_of api set)
  resolution_of-IsAnswer none m n d = inl (refl, refl)
  resolution_of-IsAnswer (some []) m n d = ground (arith, n)
  resolution_of-IsAnswer (some (l ∷ [])) m n d = inr (inl (l, refl, ground arith))
  resolution_of-IsAnswer (some (l ∷ k ∷ rest)) m n d = inr (
      inr (
        l,
        k,
        refl,
        ground (arith, d.0),
        ground (arith, str_eq_refl l),
        ground (arith, str_eq_refl k),
      ))

-- After the dependencies of a lock file of version 1 were loaded, a package is not found if no
-- dependency has it; it is the one label of the dependencies that have it; or it is ambiguous, and two
-- different labels have it.
pub resolve-new_resolver_from_v1 :
    (api : LabelApi) (workspace_name : Str) (deps : List Dependency) (loaded : MavenResolver)
    (pkg m : Str)
    → new_resolver_from_v1 api workspace_name deps new_maven_resolver ≡ some loaded
    → IsAnswer api workspace_name
        (λ l. provides api workspace_name pkg l deps)
        m
        (resolve api loaded pkg)
unfolding resolve IsMultiSet
resolve-new_resolver_from_v1 api workspace_name deps loaded pkg m h =
    let at = λ (l : Str).
      new_resolver_from_v1-contains api workspace_name deps new_maven_resolver loaded pkg l
        (λ p. (tt, ground arith)) h in
    subst (λ labels. IsAnswer api workspace_name labels m (resolve api loaded pkg))
      (fun_ext λ l. ground (arith, (at l).1))
      (resolution_of-IsAnswer api workspace_name (Map.get pkg loaded.data_set) m ((at m).0 pkg).1
        ((at m).0 pkg).0)
