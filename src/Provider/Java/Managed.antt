-- ===== src/Provider/Java/Managed.antt =====
-- Which labels the provider of jar files manages.
use scala_gazelle.Prelude.{
  Str, str_has_eq, true, not, some, List, [], ◌∷◌, ◌==◌, if◌then◌else◌, is_nil, contains, All,
  Outcome, returned, panicked, Result, ok, failed, ◌≡◌, arith, inl, inr, Bool-cases, Option-cases,
  Outcome-cases, Result-cases, ap, ◌∙◌, subst,
}
use scala_gazelle.Prelude.Map
use scala_gazelle.Prelude.Map.{Assoc, get-put}
use scala_gazelle.Label.{Label, LabelApi, label_has_eq, label_eq_iff}
use scala_gazelle.Resolver.Symbol.{Ref, package_type}
use scala_gazelle.Provider.{GlobalScope, put_names}
use scala_gazelle.Provider.Java.{
  IndexedClass, IndexedJar, Index, JavaProvider, IndexError, java_name, with_symbol,
  read_class_file, read_class_files, then_classes, parse_label_non_canonical, read_jar_file,
  parse_predefined, put_preferred, read_jar_files, read_preferred, read_predefined, read_jar_index,
  can_provide,
}

by_label-with_symbol :
    (file : IndexedClass) (symbol : Ref) (p p' : JavaProvider) (g' : GlobalScope)
    (o : Outcome GlobalScope)
    → with_symbol file symbol p o ≡ returned (p', g')
    → p'.by_label ≡ p.by_label
by_label-with_symbol file symbol p p' g' panicked e = ground arith
by_label-with_symbol file symbol p p' g' (returned g) e = ground (arith, e)

by_label-read_class_files :
    (files : List IndexedClass) (from : Label) (p p' : JavaProvider) (g g' : GlobalScope)
    → read_class_files files from p g ≡ returned (p', g')
    → p'.by_label ≡ p.by_label
unfolding read_class_files read_class_file
by_label-read_class_files [] from p p' g g' e = ground (arith, e)
by_label-read_class_files (file ∷ files) from p p' g g' e =
    elim (Outcome-cases (read_class_file file from p g)) [
      | inl q ↦ ground (arith, e, q)
      | inr ((p1, g1), q) ↦
          by_label-read_class_files files from p1 p' g1 g' (ground (arith, e, q))
          ∙ by_label-with_symbol file g.store.next p p1 g1 _ q
    ]

by_label-then_classes :
    (files : List IndexedClass) (from : Label) (p p' : JavaProvider) (o : Outcome GlobalScope)
    (g' : GlobalScope)
    → then_classes files from p o ≡ returned (ok (p', g'))
    → p'.by_label ≡ p.by_label
by_label-then_classes files from p p' panicked g' e = ground arith
by_label-then_classes files from p p' (returned g) g' e =
    elim (Outcome-cases (read_class_files files from p g)) [
      | inl q ↦ ground (arith, e, q)
      | inr ((p1, g1), q) ↦ by_label-read_class_files files from p p' g g' (ground (arith, e, q))
    ]

module _ (api : LabelApi) where
  -- the label of the jar parses, and the provider manages it
  pub record IsManaged (p : JavaProvider) (jar : IndexedJar) : Type 0 where
    pub from : Label
    pub parsed : parse_label_non_canonical api jar.label ≡ some from
    pub provided : can_provide p from ≡ true

  abbrev pub Keeps : JavaProvider → JavaProvider → Type 0
  Keeps p p' = (dep : Label) → can_provide p dep ≡ true → can_provide p' dep ≡ true

  by_label-read_jar_file :
      (jar : IndexedJar) (predefined : List Label) (p p' : JavaProvider) (g g' : GlobalScope)
      → read_jar_file api jar predefined p g ≡ returned (ok (p', g'))
      → (from : Label) × ((parse_label_non_canonical api jar.label ≡ some from)
          × (p'.by_label ≡ Map.put from jar p.by_label))
  unfolding read_jar_file
  by_label-read_jar_file jar predefined p p' g g' e = elim (Bool-cases (jar.filename == [])) [
    | inl q ↦ ground (arith, e, q)
    | inr q ↦ elim (Option-cases (parse_label_non_canonical api jar.label)) [
      | inl t ↦ ground (arith, e, q, t)
      | inr (from, t) ↦
          let own = if contains from predefined then api.no_label else from in
          let p1 : JavaProvider = record p { by_label = Map.put from jar p.by_label } in
          let put = put_names package_type java_name own jar.package_name g in
          (
            from,
            (t, by_label-then_classes jar.class_file own p1 p' put g' (ground (arith, e, q, t))),
          )
    ]
  ]

  IsManaged-read_jar_file :
      (jar : IndexedJar) (predefined : List Label) (p p' : JavaProvider) (g g' : GlobalScope)
      → read_jar_file api jar predefined p g ≡ returned (ok (p', g'))
      → IsManaged p' jar × Keeps p p'
  unfolding can_provide
  IsManaged-read_jar_file jar predefined p p' g g' e =
      let r = by_label-read_jar_file jar predefined p p' g g' e in
      let provides : (dep : Label)
          → (not (is_nil (Map.get dep p'.by_label)))
            ≡ (if r.0 == dep then true else not (is_nil (Map.get dep p.by_label))) =
        λ dep.
          ap (λ m. not (is_nil (Map.get dep m))) r.1.1
          ∙ ground (arith, get-put r.0 dep jar p.by_label) in
      (
        record {
          from = r.0;
          parsed = r.1.0;
          provided = ground (arith, provides r.0, label_eq_iff r.0 r.0);
        },
        (λ dep h. ground (arith, h, provides dep)),
      )

  IsManaged-read_jar_files :
      (jars : List IndexedJar) (predefined : List Label) (p p' : JavaProvider) (g g' : GlobalScope)
      → read_jar_files api jars predefined p g ≡ returned (ok (p', g'))
      → All (IsManaged p') jars × Keeps p p'
  unfolding read_jar_files
  IsManaged-read_jar_files [] predefined p p' g g' e =
      let same : p ≡ p' = ground (arith, e) in
      (tt, (λ dep h. subst (λ r. can_provide r dep ≡ true) same h))
  IsManaged-read_jar_files (jar ∷ jars) predefined p p' g g' e =
      elim (Outcome-cases (read_jar_file api jar predefined p g)) [
        | inl q ↦ ground (arith, e, q)
        | inr (o, q) ↦ elim (Result-cases o) [
          | inl (err, t) ↦ ground (arith, e, q, t)
          | inr ((p1, g1), t) ↦
              let here = IsManaged-read_jar_file jar predefined p p1 g g1 (q ∙ ap returned t) in
              let rest =
                IsManaged-read_jar_files jars predefined p1 p' g1 g' (ground (arith, e, q, t)) in
              (
                (
                  record {
                    from = here.0.from;
                    parsed = here.0.parsed;
                    provided = rest.1 here.0.from here.0.provided;
                  },
                  rest.0,
                ),
                (λ dep h. rest.1 dep (here.1 dep h)),
              )
        ]
      ]

  IsManaged-read_preferred :
      (index : Index) (predefined : List Label) (p p' : JavaProvider) (g g' : GlobalScope)
      (o : Result IndexError (Assoc Str Label))
      → read_preferred api index predefined p g o ≡ returned (ok (p', g'))
      → All (IsManaged p') index.jar_file × Keeps p p'
  unfolding can_provide
  IsManaged-read_preferred index predefined p p' g g' (failed err) e = ground arith
  IsManaged-read_preferred index predefined p p' g g' (ok preferred) e =
      IsManaged-read_jar_files index.jar_file predefined (record p { preferred = preferred }) p' g
        g' e

  IsManaged-read_predefined :
      (index : Index) (p p' : JavaProvider) (g g' : GlobalScope)
      (o : Result IndexError (List Label))
      → read_predefined api index p g o ≡ returned (ok (p', g'))
      → All (IsManaged p') index.jar_file × Keeps p p'
  IsManaged-read_predefined index p p' g g' (failed err) e = ground arith
  IsManaged-read_predefined index p p' g g' (ok predefined) e =
      IsManaged-read_preferred index predefined p p' g g'
        (put_preferred api index.preferred p.preferred) e

  -- After an index is read without an error, each of its jars has a label that parses, and the
  -- provider answers for this label that it can provide it; and so it does for the labels that it
  -- could provide before.
  pub read_jar_index-IsManaged :
      (index : Index) (p p' : JavaProvider) (g g' : GlobalScope)
      → read_jar_index api index p g ≡ returned (ok (p', g'))
      → All (IsManaged p') index.jar_file × Keeps p p'
  unfolding read_jar_index
  read_jar_index-IsManaged index p p' g g' e =
      IsManaged-read_predefined index p p' g g' (parse_predefined api index.predefined []) e
