-- ===== src/Resolver/ImportMap.antt =====
-- pkg/resolver/import_map.go: a map of imports by name that remembers the order of insertion.
pub mod Order
pub mod Deps
pub mod Labelled
use scala_gazelle.Prelude.{
  Str, str_has_eq, Bool, true, false, not, ◌||◌, ◌&&◌, Option, none, some, List, [], ◌∷◌, ◌++◌, map,
  ◌==◌, if◌then◌else◌, find,
}
use scala_gazelle.Prelude.Map
use scala_gazelle.Prelude.Map.{Assoc}
use scala_gazelle.Label.{Label, LabelApi, label_has_eq}
use scala_gazelle.Resolver.Symbol.{Ref, Store}
use scala_gazelle.Resolver.Import.{Import, is_self_import}

pub record OrderedImportMap : Type 0 where
  pub values : List Import
  pub has : Assoc Str Bool

pub record ImportLabel : Type 0 where
  pub import : Import
  pub label : Label

-- A read of a Go map of Booleans: a missing key is false.
abbrev pub is_set : Option Bool → Bool
is_set none = false
is_set (some b) = b

-- `Put`
unfoldable pub put : Import → OrderedImportMap → OrderedImportMap
put imp m =
    if is_set (Map.get imp.imp m.has)
    then m
    else record { values = m.values ++ imp ∷ []; has = Map.put imp.imp true m.has }

abbrev pub put_all : List Import → OrderedImportMap → OrderedImportMap
put_all [] m = m
put_all (imp ∷ imports) m = put_all imports (put imp m)

abbrev pub empty : OrderedImportMap
empty = record { values = []; has = [] }

-- `NewImportMap`
unfoldable pub new_import_map : List Import → OrderedImportMap
new_import_map imports = put_all imports empty

-- `Keys`: in the order of insertion, although its comment says sorted
abbrev pub keys : OrderedImportMap → List Str
keys m = map (λ imp. imp.imp) m.values

-- `Get`
unfoldable pub get : Str → OrderedImportMap → Option Import
get key m = find (λ imp. imp.imp == key) m.values

-- `PutImportIfNotSelf`
unfoldable pub put_import_if_not_self : Store → Label → Import → OrderedImportMap → OrderedImportMap
put_import_if_not_self store from imp m =
    if is_self_import store imp.symbol from.repo from.pkg from.name then m else put imp m

module _ (api : LabelApi) (store : Store) (from : Label) where
  open api use {no_label, rel}

  -- the label of an import that `Deps` does not skip for want of a symbol or for an error
  unfoldable pub dep_of : Import → Option Label
  dep_of imp = elim imp.symbol [
    | none ↦ none
    | some s ↦ elim imp.error [
      | none ↦ some (rel (store.at s).label from.repo from.pkg)
      | some e ↦ none
    ]
  ]

  -- the two tests behind `seen`
  unfoldable pub is_not_a_dep : Label → Bool
  is_not_a_dep dep =
      (dep == no_label || dep.relative && (dep.repo == [] && (dep.pkg == [] && dep.name == [])))
      || dep.relative && dep.name == from.name

  pub record DepsLoop : Type 0 where
    pub seen : Assoc Label Bool
    pub deps : Assoc Label ImportLabel

  -- one round of the loop
  unfoldable pub visit_import : Import → DepsLoop → DepsLoop
  visit_import imp l = elim (dep_of imp) [
    | none ↦ l
    | some dep ↦
        if is_set (Map.get dep l.seen)
        then l
        else if is_not_a_dep dep
        then record l { seen = Map.put dep true l.seen }
        else record {
          seen = Map.put dep true l.seen;
          deps = Map.put dep (record { import = imp; label = dep }) l.deps;
        }
  ]

  unfoldable pub visit_imports : List Import → DepsLoop → DepsLoop
  visit_imports [] l = l
  visit_imports (imp ∷ imports) l = visit_imports imports (visit_import imp l)

  -- `Deps`
  unfoldable pub deps : OrderedImportMap → Assoc Label ImportLabel
  deps m =
      (visit_imports m.values
        (record { seen = Map.put from true (Map.put no_label true []); deps = [] })).deps
