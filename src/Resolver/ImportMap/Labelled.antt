-- ===== src/Resolver/ImportMap/Labelled.antt =====
-- The entries of `Deps` stand under the labels that they hold.
use scala_gazelle.Prelude.{true, Bool-cases, Option-cases, inl, inr, List, [], ◌∷◌, ◌≡◌, refl, ◌==◌}
use scala_gazelle.Prelude.Map
use scala_gazelle.Prelude.Map.{Assoc}
use scala_gazelle.Label.{Label, LabelApi, label_has_eq}
use scala_gazelle.Resolver.Symbol.{Store}
use scala_gazelle.Resolver.Import.{Import}
use scala_gazelle.Resolver.ImportMap.{
  OrderedImportMap, ImportLabel, is_set, dep_of, is_not_a_dep, DepsLoop, visit_import,
  visit_imports, deps,
}

abbrev pub AreLabelled : Assoc Label ImportLabel → Type 0
AreLabelled [] = Unit
AreLabelled ((d, l) ∷ labels) = (l.label ≡ d) × AreLabelled labels

put-AreLabelled :
    (l : ImportLabel) (labels : Assoc Label ImportLabel)
    → AreLabelled labels
    → AreLabelled (Map.put l.label l labels)
put-AreLabelled l [] h = (refl, tt)
put-AreLabelled l ((d, k) ∷ labels) h = elim (Bool-cases (d == l.label)) [
  | inl q ↦ rw q (refl, h.1)
  | inr q ↦ rw q (h.0, put-AreLabelled l labels h.1)
]

module _ (api : LabelApi) (store : Store) (from : Label) where
  visit_import-AreLabelled :
      (imp : Import) (l : DepsLoop api store from)
      → AreLabelled l.deps
      → AreLabelled (visit_import api store from imp l).deps
  unfolding visit_import
  visit_import-AreLabelled imp l h = elim (Option-cases (dep_of api store from imp)) [
    | inl q ↦ rw (visit_import, q) h
    | inr (dep, q) ↦ elim (Bool-cases (is_set (Map.get dep l.seen))) [
      | inl p ↦ rw (visit_import, q, p) h
      | inr p ↦ elim (Bool-cases (is_not_a_dep api store from dep)) [
        | inl o ↦ rw (visit_import, q, p, o) h
        | inr o ↦
            rw (visit_import, q, p, o)
              (put-AreLabelled (record { import = imp; label = dep }) l.deps h)
      ]
    ]
  ]

  visit_imports-AreLabelled :
      (imports : List Import) (l : DepsLoop api store from)
      → AreLabelled l.deps
      → AreLabelled (visit_imports api store from imports l).deps
  unfolding visit_imports
  visit_imports-AreLabelled [] l h = h
  visit_imports-AreLabelled (imp ∷ imports) l h =
      visit_imports-AreLabelled imports (visit_import api store from imp l)
        (visit_import-AreLabelled imp l h)

  pub deps-AreLabelled : (m : OrderedImportMap) → AreLabelled (deps api store from m)
  unfolding deps
  deps-AreLabelled m =
      visit_imports-AreLabelled m.values
        (record { seen = Map.put from true (Map.put api.no_label true []); deps = [] }) tt
