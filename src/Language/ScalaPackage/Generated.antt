-- ===== src/Language/ScalaPackage/Generated.antt =====
-- Which rules come out of the configured rules and the rules of a build file.
use scala_gazelle.Prelude.{
  ℕ, suc, Str, str_has_eq, str_eq, str_eq_iff, true, false, Option, none, some, List, [], ◌∷◌, ◌++◌,
  ◌==◌, if◌then◌else◌, contains, to_list, is_nil, Outcome, returned, ◌≡◌, refl, arith, inl, inr,
  Bool-cases, Option-cases, sym, ap, ◌∙◌, append-nil, append_assoc,
}
use scala_gazelle.Prelude.Map
use scala_gazelle.Prelude.Map.{Assoc, get-put, get-remove}
use scala_gazelle.RuleConfig.{RuleConfig}
use scala_gazelle.Language.ScalaPackage.{
  Load, ExistingRule, fully_qualified_load_name, RuleProvider, Provider, list_of, contributes,
  group_rules, Generation, add_resolved, resolve_existing, add_provided, generate_configured,
  generate_loop, begun, generate_rules,
}

module _ (lookup_provider : Str → Option Provider) (loads : List Load) where
  -- the rules of the build file whose full name is the one that is asked for
  abbrev pub matching : Str → List ExistingRule → List ExistingRule
  matching fqn [] = []
  matching fqn (r ∷ rules) =
      let rest = matching fqn rules in
      if fully_qualified_load_name loads r.kind == fqn then r ∷ rest else rest

  abbrev pub resolved_by : Provider → RuleConfig → List ExistingRule → List RuleProvider
  resolved_by p rc [] = []
  resolved_by p rc (r ∷ rs) = to_list (p.resolve_rule rc r) ++ resolved_by p rc rs

  -- what a configured rule gives, and the rules of the implementations that are not taken yet
  abbrev pub given_by : Option Provider → RuleConfig → List ExistingRule → List RuleProvider
  given_by none rc rs = []
  given_by (some p) rc rs = to_list (p.provide_rule rc) ++ resolved_by p rc rs

  abbrev pub generated_by : List Str → List RuleConfig → List ExistingRule → List RuleProvider
  generated_by taken [] rules = []
  generated_by taken (rc ∷ rcs) rules =
      let skipped = generated_by taken rcs rules in
      let rest = generated_by (rc.implementation ∷ taken) rcs rules in
      let rs = if contains rc.implementation taken then [] else matching rc.implementation rules in
      if rc.enabled then given_by (lookup_provider rc.implementation) rc rs ++ rest else skipped

  -- the implementations of all enabled rules are registered
  abbrev pub AreRegistered : List RuleConfig → Type 0
  AreRegistered [] = Unit
  AreRegistered (rc ∷ rcs) =
      (rc.enabled ≡ true → is_nil (lookup_provider rc.implementation) ≡ false) × AreRegistered rcs

  get-group_rules :
      (fqn : Str) (rules : List ExistingRule) (groups : Assoc Str (List ExistingRule)) (n : ℕ)
      → list_of (Map.get fqn (group_rules lookup_provider loads rules groups n).0)
        ≡ list_of (Map.get fqn groups) ++ matching fqn rules
  unfolding group_rules
  get-group_rules fqn [] groups n = sym (append-nil (list_of (Map.get fqn groups)))
  get-group_rules fqn (r ∷ rules) groups n =
      let f = fully_qualified_load_name loads r.kind in
      let with_r = list_of (Map.get f groups) ++ r ∷ [] in
      let m = if contributes (lookup_provider f) then suc n else n in
      let rest = get-group_rules fqn rules (Map.put f with_r groups) m in
      elim (Bool-cases (str_eq f fqn)) [
        | inl t ↦
            let found : list_of (Map.get fqn (Map.put f with_r groups))
                ≡ list_of (Map.get fqn groups) ++ r ∷ [] =
              ground (arith, get-put f fqn with_r groups, str_eq_iff f fqn) in
            rw t (
              rest
              ∙ ap (λ rs. rs ++ matching fqn rules) found
              ∙ append_assoc (list_of (Map.get fqn groups)) (r ∷ []) (matching fqn rules))
        | inr t ↦
            let other : list_of (Map.get fqn (Map.put f with_r groups))
                ≡ list_of (Map.get fqn groups) =
              ground (arith, get-put f fqn with_r groups) in
            rw t (rest ∙ ap (λ rs. rs ++ matching fqn rules) other)
      ]

  pub resolve_existing-groups :
      (p : Provider) (rc : RuleConfig) (rs : List ExistingRule)
      (g : Generation lookup_provider loads)
      → (resolve_existing lookup_provider loads p rc rs g).groups ≡ g.groups
  unfolding resolve_existing
  resolve_existing-groups p rc [] g = refl
  resolve_existing-groups p rc (r ∷ rs) g = elim (Option-cases (p.resolve_rule rc r)) [
    | inl e ↦ rw (resolve_existing, e) (resolve_existing-groups p rc rs g)
    | inr (q, e) ↦
        rw (resolve_existing, e)
          (resolve_existing-groups p rc rs (add_resolved lookup_provider loads r (some q) g))
  ]

  resolve_existing-rules :
      (p : Provider) (rc : RuleConfig) (rs : List ExistingRule)
      (g : Generation lookup_provider loads)
      → (resolve_existing lookup_provider loads p rc rs g).rules ≡ g.rules ++ resolved_by p rc rs
  unfolding resolve_existing
  resolve_existing-rules p rc [] g = sym (append-nil g.rules)
  resolve_existing-rules p rc (r ∷ rs) g = elim (Option-cases (p.resolve_rule rc r)) [
    | inl e ↦ rw (resolve_existing, e) (resolve_existing-rules p rc rs g)
    | inr (q, e) ↦
        rw (resolve_existing, e)
          (resolve_existing-rules p rc rs (add_resolved lookup_provider loads r (some q) g)
            ∙ append_assoc g.rules (q ∷ []) (resolved_by p rc rs))
  ]

  -- the groups hold the matching rules of the implementations that are not taken
  abbrev HasGroups : List Str → List ExistingRule → Generation lookup_provider loads → Type 0
  HasGroups taken rules g =
      (fqn : Str)
      → list_of (Map.get fqn g.groups) ≡ (if contains fqn taken then [] else matching fqn rules)

  HasGroups-generate_configured :
      (p : Provider) (rc : RuleConfig) (taken : List Str) (rules : List ExistingRule)
      (g : Generation lookup_provider loads)
      → HasGroups taken rules g
      → HasGroups
          (rc.implementation ∷ taken)
          rules
          (generate_configured lookup_provider loads p rc g)
  unfolding generate_configured
  HasGroups-generate_configured p rc taken rules g h fqn =
      let rs = list_of (Map.get rc.implementation g.groups) in
      let before = add_provided lookup_provider loads (p.provide_rule rc) g in
      rw (resolve_existing-groups p rc rs before) (
        ground (
          arith,
          h fqn,
          get-remove rc.implementation fqn g.groups,
          str_eq_iff rc.implementation fqn,
          str_eq_iff fqn rc.implementation,
        ))

  generate_configured-rules :
      (p : Provider) (rc : RuleConfig) (taken : List Str) (rules : List ExistingRule)
      (g : Generation lookup_provider loads)
      → HasGroups taken rules g
      → (generate_configured lookup_provider loads p rc g).rules
        ≡ g.rules
          ++ given_by
              (some p)
              rc
              (if contains rc.implementation taken then [] else matching rc.implementation rules)
  unfolding generate_configured
  generate_configured-rules p rc taken rules g h =
      let rs = list_of (Map.get rc.implementation g.groups) in
      let before = add_provided lookup_provider loads (p.provide_rule rc) g in
      resolve_existing-rules p rc rs before
      ∙ append_assoc g.rules (to_list (p.provide_rule rc)) (resolved_by p rc rs)
      ∙ ap (λ xs. g.rules ++ given_by (some p) rc xs) (h rc.implementation)

  abbrev Generates : List RuleProvider → Outcome (Generation lookup_provider loads) → Type 0
  Generates rules o = (g : Generation lookup_provider loads) × (o ≡ returned g) × (g.rules ≡ rules)

  pub loop_registered :
      (rc : RuleConfig) (rcs : List RuleConfig) (p : Provider)
      (g : Generation lookup_provider loads)
      → rc.enabled ≡ true
      → lookup_provider rc.implementation ≡ some p
      → generate_loop lookup_provider loads (rc ∷ rcs) g
        ≡ generate_loop lookup_provider loads rcs (generate_configured lookup_provider loads p rc g)
  unfolding generate_loop
  loop_registered rc rcs p g e q = ground arith

  generated_registered :
      (rc : RuleConfig) (rcs : List RuleConfig) (p : Provider) (taken : List Str)
      (rules : List ExistingRule)
      → rc.enabled ≡ true
      → lookup_provider rc.implementation ≡ some p
      → generated_by taken (rc ∷ rcs) rules
        ≡ given_by
            (some p)
            rc
            (if contains rc.implementation taken then [] else matching rc.implementation rules)
          ++ generated_by (rc.implementation ∷ taken) rcs rules
  generated_registered rc rcs p taken rules e q = ground arith

  generate_loop-Generates :
      (rcs : List RuleConfig) (taken : List Str) (rules : List ExistingRule)
      (g : Generation lookup_provider loads)
      → AreRegistered rcs
      → HasGroups taken rules g
      → Generates
          (g.rules ++ generated_by taken rcs rules)
          (generate_loop lookup_provider loads rcs g)
  unfolding generate_loop
  generate_loop-Generates [] taken rules g k h = (g, refl, sym (append-nil g.rules))
  generate_loop-Generates (rc ∷ rcs) taken rules g k h = elim (Bool-cases rc.enabled) [
    | inl e ↦ elim (Option-cases (lookup_provider rc.implementation)) [
      | inl q ↦ ground (arith, k.0)
      | inr (p, q) ↦
          let next = generate_configured lookup_provider loads p rc g in
          let own =
            given_by (some p) rc
              (if contains rc.implementation taken then [] else matching rc.implementation rules) in
          let rest = generated_by (rc.implementation ∷ taken) rcs rules in
          let after =
            generate_loop-Generates rcs (rc.implementation ∷ taken) rules next k.1
              (HasGroups-generate_configured p rc taken rules g h) in
          (
            after.0,
            loop_registered rc rcs p g e q ∙ after.1,
            after.2
                ∙ ap (λ xs. xs ++ rest) (generate_configured-rules p rc taken rules g h)
                ∙ append_assoc g.rules own rest
                ∙ ap (λ xs. g.rules ++ xs) (sym (generated_registered rc rcs p taken rules e q)),
          )
    ]
    | inr e ↦ rw (generate_loop, e) (generate_loop-Generates rcs taken rules g k.1 h)
  ]

  -- If the implementation of every enabled configured rule is registered, then the rules are generated:
  -- configured rule by configured rule, first what its implementation provides, and then what the
  -- implementation makes of the rules of the build file with its full name, which are given to the
  -- first enabled configured rule of that implementation only.
  pub generate_rules-generated_by :
      (rcs : List RuleConfig) (rules : List ExistingRule)
      → AreRegistered rcs
      → (g : Generation lookup_provider loads) × (generate_rules lookup_provider loads rcs rules
          ≡ returned g)
        × (g.rules ≡ generated_by [] rcs rules)
  unfolding generate_rules
  generate_rules-generated_by rcs rules k =
      generate_loop-Generates rcs [] rules (begun lookup_provider loads rules) k
        (λ fqn. get-group_rules fqn rules [] 0)
