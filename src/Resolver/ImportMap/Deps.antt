-- ===== src/Resolver/ImportMap/Deps.antt =====
-- `Deps` as a function of the label: the first import that leads to it, unless it is no dep.
use scala_gazelle.Prelude.{
  str_has_eq, Bool, true, false, not, ◌||◌, Option, none, some, List, [], ◌∷◌, ◌==◌, if◌then◌else◌,
  find, ◌≡◌, refl, arith, inl, inr, Option-cases,
}
use scala_gazelle.Prelude.Map
use scala_gazelle.Prelude.Map.{Assoc, get-put}
use scala_gazelle.Label.{Label, LabelApi, label_has_eq, label_eq_iff}
use scala_gazelle.Resolver.Symbol.{Store}
use scala_gazelle.Resolver.Import.{Import}
use scala_gazelle.Resolver.ImportMap.{
  OrderedImportMap, ImportLabel, is_set, dep_of, is_not_a_dep, DepsLoop, visit_import,
  visit_imports, deps,
}

module _ (api : LabelApi) (store : Store) (from : Label) where
  -- the import leads to the label
  abbrev pub leads_to : Label → Import → Bool
  leads_to d imp = elim (dep_of api store from imp) [ none ↦ false | some dep ↦ dep == d ]

  abbrev pub labelled : Label → Option Import → Option ImportLabel
  labelled d none = none
  labelled d (some imp) = some (record { import = imp; label = d })

  -- what `Deps` should hold at a label
  abbrev pub first_dep : Label → List Import → Option ImportLabel
  first_dep d imports =
      if is_not_a_dep api store from d then none else labelled d (find (leads_to d) imports)

  -- one round, as it is seen at a label
  seen-visit_import :
      (d : Label) (imp : Import) (l : DepsLoop api store from)
      → is_set (Map.get d (visit_import api store from imp l).seen)
        ≡ (is_set (Map.get d l.seen) || leads_to d imp)
  unfolding visit_import
  seen-visit_import d imp l = elim (Option-cases (dep_of api store from imp)) [
    | inl e ↦ ground arith
    | inr (dep, e) ↦ ground (arith, label_eq_iff dep d, get-put dep d true l.seen)
  ]

  deps-visit_import :
      (d : Label) (imp : Import) (l : DepsLoop api store from)
      → Map.get d (visit_import api store from imp l).deps ≡ (
          if is_set (Map.get d l.seen) || not (leads_to d imp)
          then Map.get d l.deps
          else if is_not_a_dep api store from d
          then Map.get d l.deps
          else labelled d (some imp))
  unfolding visit_import
  deps-visit_import d imp l = elim (Option-cases (dep_of api store from imp)) [
    | inl e ↦ ground arith
    | inr (dep, e) ↦ ground (
      arith,
      label_eq_iff dep d,
      get-put dep d (let il : ImportLabel = record { import = imp; label = dep } in il) l.deps,
    )
  ]

  -- a label that was seen keeps what it has
  deps-visit_imports_seen :
      (d : Label) (imports : List Import) (l : DepsLoop api store from)
      → is_set (Map.get d l.seen) ≡ true
      → Map.get d (visit_imports api store from imports l).deps ≡ Map.get d l.deps
  unfolding visit_imports
  deps-visit_imports_seen d [] l h = refl
  deps-visit_imports_seen d (imp ∷ imports) l h = ground (
    arith,
    seen-visit_import d imp l,
    deps-visit_import d imp l,
    deps-visit_imports_seen d imports (visit_import api store from imp l),
  )

  -- a label that was not seen gets the first import that leads to it
  deps-visit_imports :
      (d : Label) (imports : List Import) (l : DepsLoop api store from)
      → Map.get d l.deps ≡ none
      → is_set (Map.get d l.seen) ≡ false
      → Map.get d (visit_imports api store from imports l).deps ≡ first_dep d imports
  unfolding visit_imports
  deps-visit_imports d [] l h k = ground arith
  deps-visit_imports d (imp ∷ imports) l h k =
      let l' = visit_import api store from imp l in
      ground (
        arith,
        seen-visit_import d imp l,
        deps-visit_import d imp l,
        deps-visit_imports d imports l',
        deps-visit_imports_seen d imports l',
      )

  -- `Deps` holds at each label the first import without an error whose symbol's label, relative to the
  -- rule, it is; and nothing at the rule itself, at `NoLabel`, at the empty relative label and at a
  -- relative label of the rule's name.
  pub deps_lem :
      (d : Label) (m : OrderedImportMap)
      → Map.get d (deps api store from m)
        ≡ (if d == from || d == api.no_label then none else first_dep d m.values)
  unfolding deps
  deps_lem d m =
      let start : DepsLoop api store from = record {
        seen = Map.put from true (Map.put api.no_label true []);
        deps = [];
      } in
      ground (
        arith,
        get-put from d true (Map.put api.no_label true []),
        label_eq_iff from d,
        label_eq_iff d from,
        label_eq_iff api.no_label d,
        label_eq_iff d api.no_label,
        deps-visit_imports d m.values start,
        deps-visit_imports_seen d m.values start,
      )
