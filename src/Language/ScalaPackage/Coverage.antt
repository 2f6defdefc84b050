-- ===== src/Language/ScalaPackage/Coverage.antt =====
-- The bounds of the counts for the coverage of a package.
use scala_gazelle.Prelude.{
  ℕ, suc, ◌+◌, ◌≤◌, Str, str_has_eq, str_eq_iff, false, Option, none, some, List, [], ◌∷◌, ◌++◌,
  if◌then◌else◌, length, length-append, returned, ◌≡◌, refl, arith, inl, inr, Bool-cases,
  Option-cases, sym, ◌∙◌,
}
use scala_gazelle.Prelude.Map
use scala_gazelle.Prelude.Map.{Assoc}
use scala_gazelle.RuleConfig.{RuleConfig}
use scala_gazelle.Language.ScalaPackage.{
  Load, ExistingRule, fully_qualified_load_name, RuleProvider, Provider, list_of, contributes,
  rule_contributes_to_coverage, group_rules, Generation, add_resolved, resolve_existing,
  add_provided, generate_configured, generate_loop, begun, generate_rules,
}
use scala_gazelle.Language.ScalaPackage.Generated.{resolve_existing-groups, loop_registered}

module _ (lookup_provider : Str → Option Provider) (loads : List Load) where
  -- the rules that count for the total
  abbrev weight : Str → List ExistingRule → ℕ
  weight fqn rs = if contributes (lookup_provider fqn) then length rs else 0

  abbrev total_weight : Assoc Str (List ExistingRule) → ℕ
  total_weight [] = 0
  total_weight ((fqn, rs) ∷ groups) = weight fqn rs + total_weight groups

  total_weight-put :
      (f : Str) (r : ExistingRule) (groups : Assoc Str (List ExistingRule))
      → total_weight (Map.put f (list_of (Map.get f groups) ++ r ∷ []) groups)
        ≡ weight f (r ∷ []) + total_weight groups
  total_weight-put f r [] = ground arith
  total_weight-put f r ((i, rs) ∷ groups) =
      ground (arith, str_eq_iff i f, length-append rs (r ∷ []), total_weight-put f r groups)

  total-group_rules :
      (rules : List ExistingRule) (groups : Assoc Str (List ExistingRule)) (n : ℕ)
      → total_weight (group_rules lookup_provider loads rules groups n).0 + n
        ≡ (group_rules lookup_provider loads rules groups n).1 + total_weight groups
  unfolding group_rules
  total-group_rules [] groups n = omega arith
  total-group_rules (r ∷ rules) groups n =
      let f = fully_qualified_load_name loads r.kind in
      let groups' = Map.put f (list_of (Map.get f groups) ++ r ∷ []) groups in
      let m = if contributes (lookup_provider f) then suc n else n in
      ground (arith, total-group_rules rules groups' m, total_weight-put f r groups)

  total_weight-remove_le :
      (f : Str) (groups : Assoc Str (List ExistingRule))
      → total_weight (Map.remove f groups) ≤ total_weight groups
  total_weight-remove_le f [] = omega arith
  total_weight-remove_le f ((i, rs) ∷ groups) = ground (arith, total_weight-remove_le f groups)

  total_weight-remove :
      (f : Str) (groups : Assoc Str (List ExistingRule))
      → total_weight (Map.remove f groups) + weight f (list_of (Map.get f groups))
        ≤ total_weight groups
  total_weight-remove f [] = ground arith
  total_weight-remove f ((i, rs) ∷ groups) =
      ground (arith, str_eq_iff i f, total_weight-remove_le f groups, total_weight-remove f groups)

  -- an implementation that does not count for the total gives only names that do not count either
  abbrev pub NamesAgree : Type 0
  NamesAgree =
      (fqn : Str) (p : Provider) (rc : RuleConfig) (r : ExistingRule) (q : RuleProvider)
      → lookup_provider fqn ≡ some p
      → rule_contributes_to_coverage p.name ≡ false
      → p.resolve_rule rc r ≡ some q
      → rule_contributes_to_coverage q.name ≡ false

  module _ (agree : NamesAgree) where
    managed-add_resolved :
        (p : Provider) (rc : RuleConfig) (r : ExistingRule) (o : Option RuleProvider)
        (g : Generation lookup_provider loads)
        → lookup_provider rc.implementation ≡ some p
        → p.resolve_rule rc r ≡ o
        → ((add_resolved lookup_provider loads r o g).coverage.managed
            ≤ g.coverage.managed + weight rc.implementation (r ∷ []))
          × ((add_resolved lookup_provider loads r o g).coverage.total ≡ g.coverage.total)
    managed-add_resolved p rc r none g k e = (ground arith, refl)
    managed-add_resolved p rc r (some q) g k e =
        let apart = agree rc.implementation p rc r q k in
        elim (Bool-cases (rule_contributes_to_coverage p.name)) [
          | inl t ↦ (ground (arith, t, k), ground arith)
          | inr t ↦ (ground (arith, t, k, apart t e), ground (arith, apart t e))
        ]

    managed-resolve_existing :
        (p : Provider) (rc : RuleConfig) (rs : List ExistingRule)
        (g : Generation lookup_provider loads)
        → lookup_provider rc.implementation ≡ some p
        → ((resolve_existing lookup_provider loads p rc rs g).coverage.managed
            ≤ g.coverage.managed + weight rc.implementation rs)
          × ((resolve_existing lookup_provider loads p rc rs g).coverage.total ≡ g.coverage.total)
    unfolding resolve_existing
    managed-resolve_existing p rc [] g k = (ground arith, refl)
    managed-resolve_existing p rc (r ∷ rs) g k =
        let o = p.resolve_rule rc r in
        let one = managed-add_resolved p rc r o g k refl in
        let rest = managed-resolve_existing p rc rs (add_resolved lookup_provider loads r o g) k in
        (ground (arith, one.0, rest.0), rest.1 ∙ one.1)

    -- what is managed and what is still to be managed count for the total
    abbrev IsBounded : Generation lookup_provider loads → Type 0
    IsBounded g = g.coverage.managed + total_weight g.groups ≤ g.coverage.total

    generate_configured-IsBounded :
        (p : Provider) (rc : RuleConfig) (g : Generation lookup_provider loads)
        → lookup_provider rc.implementation ≡ some p
        → IsBounded g
        → IsBounded (generate_configured lookup_provider loads p rc g)
    unfolding generate_configured
    generate_configured-IsBounded p rc g k h =
        let rs = list_of (Map.get rc.implementation g.groups) in
        let before = add_provided lookup_provider loads (p.provide_rule rc) g in
        let both = managed-resolve_existing p rc rs before k in
        rw (resolve_existing-groups lookup_provider loads p rc rs before)
          (omega (arith, both.0, both.1, total_weight-remove rc.implementation g.groups, h))

    generate_loop-IsBounded :
        (rcs : List RuleConfig) (g g' : Generation lookup_provider loads)
        → IsBounded g
        → generate_loop lookup_provider loads rcs g ≡ returned g'
        → IsBounded g'
    unfolding generate_loop
    generate_loop-IsBounded [] g g' h e = ground (arith, e, h)
    generate_loop-IsBounded (rc ∷ rcs) g g' h e = elim (Bool-cases rc.enabled) [
      | inl t ↦ elim (Option-cases (lookup_provider rc.implementation)) [
        | inl q ↦ ground (arith, t, q, e)
        | inr (p, q) ↦
            generate_loop-IsBounded rcs (generate_configured lookup_provider loads p rc g) g'
              (generate_configured-IsBounded p rc g q h)
              (sym (loop_registered lookup_provider loads rc rcs p g t q) ∙ e)
      ]
      | inr t ↦ generate_loop-IsBounded rcs g g' h (ground (arith, t, e))
    ]

-- Let no implementation that does not count for the total make a rule with a name that counts. Then at
-- most as many rules of a package are managed as it has in total.
pub generate_rules-coverage_le :
    (lookup_provider : Str → Option Provider) (loads : List Load) (rcs : List RuleConfig)
    (rules : List ExistingRule) (g : Generation lookup_provider loads)
    → NamesAgree lookup_provider loads
    → generate_rules lookup_provider loads rcs rules ≡ returned g
    → g.coverage.managed ≤ g.coverage.total
unfolding generate_rules
generate_rules-coverage_le lookup_provider loads rcs rules g agree e =
    let start = begun lookup_provider loads rules in
    let bounded : start.coverage.managed + total_weight lookup_provider loads start.groups
        ≤ start.coverage.total =
      ground (arith, total-group_rules lookup_provider loads rules [] 0) in
    ground (arith, generate_loop-IsBounded lookup_provider loads agree rcs start g bounded e)
