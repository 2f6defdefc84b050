-- ===== src/Maven/MavenResolver.antt =====
-- pkg/maven/multiset.go and pkg/maven/resolver.go: the labels that provide a package.
pub mod Provided
use scala_gazelle.Prelude.{
  ℕ, Str, str_has_eq, Bool, true, false, Option, none, some, List, [], ◌∷◌, ◌++◌, if◌then◌else◌,
  contains, sort_by,
}
use scala_gazelle.Prelude.Map
use scala_gazelle.Prelude.Map.{Assoc}
use scala_gazelle.Label.{Label, LabelApi}
use scala_gazelle.Maven.Coordinate.{
  Coordinate, parse_coordinate, artifact_string, cleanup_label_name,
}

-- `StringMultiSet`: a set is a list without duplicates, in the order of the first additions
abbrev pub StringMultiSet : Type 0
StringMultiSet = Assoc Str (List Str)

-- m.data[key], where a missing set counts as an empty one
abbrev pub set_at : Str → StringMultiSet → List Str
set_at key m = elim (Map.get key m) [ none ↦ [] | some set ↦ set ]

-- `Add`
unfoldable pub add : Str → Str → StringMultiSet → StringMultiSet
add key value m =
    Map.put key (let set = set_at key m in if contains value set then set else set ++ value ∷ []) m

-- a dependency of the lock file, version 1
pub record Dependency : Type 0 where
  pub coord : Str
  pub packages : List Str

-- what loading writes: the fields `data` and `artifacts`, and the package symbols that are put
pub record MavenResolver : Type 0 where
  pub data_set : StringMultiSet
  pub artifacts : Assoc Str Label
  pub put_symbols : List (Str × Label)

module _ (api : LabelApi) (workspace_name : Str) where
  -- the label of an artifact
  abbrev pub label_of : Str → Label
  label_of id = record {
    repo = workspace_name;
    pkg = [];
    name = cleanup_label_name id;
    relative = false;
  }

  unfoldable pub add_packages : Label → List Str → MavenResolver → MavenResolver
  add_packages from [] r = r
  add_packages from (pkg ∷ packages) r = add_packages from packages (record r {
    data_set = add pkg (api.to_string from) r.data_set;
    put_symbols = r.put_symbols ++ (pkg, from) ∷ [];
  })

  -- the body of the loops of both versions
  abbrev pub add_artifact : Str → Label → List Str → MavenResolver → MavenResolver
  add_artifact id from packages r =
      add_packages from packages (record r { artifacts = Map.put id from r.artifacts })

  -- `newResolverFromV1`; `none` is its error
  unfoldable pub new_resolver_from_v1 : List Dependency → MavenResolver → Option MavenResolver
  new_resolver_from_v1 [] r = some r
  new_resolver_from_v1 (dep ∷ deps) r = elim (parse_coordinate dep.coord) [
    | none ↦ none
    | some coord ↦
        new_resolver_from_v1 deps
          (add_artifact dep.coord (label_of (artifact_string coord)) dep.packages r)
  ]

  unfoldable pub add_sorted : List (Str × List Str) → MavenResolver → MavenResolver
  add_sorted [] r = r
  add_sorted ((id, packages) ∷ rest) r = add_sorted rest (add_artifact id (label_of id) packages r)

  -- `newResolverFromV2`: the packages of the lock file by artifact, in the order of their ids
  unfoldable pub new_resolver_from_v2 : Assoc Str (List Str) → MavenResolver → MavenResolver
  new_resolver_from_v2 packages r = add_sorted (sort_by (λ p. p.0) packages) r

abbrev pub new_maven_resolver : MavenResolver
new_maven_resolver = record { data_set = []; artifacts = []; put_symbols = [] }

-- the results of `Resolve`
pub data Resolution : Type 0 where
  parsed : Option Label → Resolution
  package_not_found no_external_imports many_possible_imports : Resolution

abbrev pub resolution_of : LabelApi → Option (List Str) → Resolution
resolution_of api none = package_not_found
resolution_of api (some []) = no_external_imports
resolution_of api (some (l ∷ [])) = parsed (api.parse l)
resolution_of api (some (l ∷ m ∷ rest)) = many_possible_imports

-- `Resolve`
unfoldable pub resolve : LabelApi → MavenResolver → Str → Resolution
resolve api r pkg = resolution_of api (Map.get pkg r.data_set)
