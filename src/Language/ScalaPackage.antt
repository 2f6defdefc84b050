-- ===== src/Language/ScalaPackage.antt =====
-- language/scala/scala_package.go: which rules a package generates, and the counts for coverage.go;
-- and `fullyQualifiedLoadName` of loads.go.
pub mod Generated
pub mod Coverage
use scala_gazelle.Prelude.{
  ℕ, zero, suc, ◌+◌, Str, str_has_eq, Bool, true, false, not, ◌&&◌, Option, none, some, List, [],
  ◌∷◌, ◌++◌, ◌==◌, if◌then◌else◌, codes, contains, or_else, is_nil, Outcome, returned, panicked,
  to_list,
}
use scala_gazelle.Prelude.Map
use scala_gazelle.Prelude.Map.{Assoc}
use scala_gazelle.RuleConfig.{RuleConfig}

-- `rule.Load` with its symbol pairs, (from, to), and what the loop reads of a rule of a build file
pub record Load : Type 0 where
  pub name : Str
  pub pairs : List (Str × Str)

pub record ExistingRule : Type 0 where
  pub kind : Str
  pub name : Str

-- the inner loop
unfoldable pub find_pair : Str → Str → List (Str × Str) → Option Str
find_pair load kind [] = none
find_pair load kind ((from, to) ∷ pairs) =
    let rest = find_pair load kind pairs in
    if from == to && from == kind
    then some (load ++ (codes "%" ++ from))
    else if to == kind
    then some (load ++ (codes "%" ++ from))
    else rest

-- `fullyQualifiedLoadName`
unfoldable pub fully_qualified_load_name : List Load → Str → Str
fully_qualified_load_name [] kind = kind
fully_qualified_load_name (load ∷ loads) kind = elim (find_pair load.name kind load.pairs) [
  | none ↦ fully_qualified_load_name loads kind
  | some fqn ↦ fqn
]

-- `ruleContributesToCoverage`
unfoldable pub rule_contributes_to_coverage : Str → Bool
rule_contributes_to_coverage name =
    not
      (contains name (codes "scala_files" ∷ codes "scala_fileset" ∷ codes "semanticdb_index" ∷ []))

-- `packageRuleCoverage`
pub record PackageRuleCoverage : Type 0 where
  pub managed : ℕ
  pub total : ℕ
  pub kinds : Assoc Str ℕ

-- what the package uses of a `scalarule.RuleProvider`
pub record RuleProvider : Type 0 where
  pub kind : Str
  pub name : Str

-- A `scalarule.Provider`: what `ProvideRule` answers, and `ResolveRule` of those that have it; nil is
-- `none`.
pub record Provider : Type 0 where
  pub name : Str
  pub provide_rule : RuleConfig → Option RuleProvider
  pub resolve_rule : RuleConfig → ExistingRule → Option RuleProvider

abbrev pub list_of : Option (List ExistingRule) → List ExistingRule
list_of none = []
list_of (some rs) = rs

-- `m[k]++`
abbrev pub add_one : Str → Assoc Str ℕ → Assoc Str ℕ
add_one k m = Map.put k (suc (elim (Map.get k m) [ none ↦ 0 | some n ↦ n ])) m

abbrev pub contributes : Option Provider → Bool
contributes none = false
contributes (some p) = rule_contributes_to_coverage p.name

-- `LookupProvider` of the registry, and the load statements of the build file
module _ (lookup_provider : Str → Option Provider) (loads : List Load) where
  -- the loop over the rules of the file: the rules by their full name, and the total
  unfoldable pub group_rules :
      List ExistingRule → Assoc Str (List ExistingRule) → ℕ → Assoc Str (List ExistingRule) × ℕ
  group_rules [] groups total = (groups, total)
  group_rules (r ∷ rules) groups total =
      let fqn = fully_qualified_load_name loads r.kind in
      group_rules rules (Map.put fqn (list_of (Map.get fqn groups) ++ r ∷ []) groups)
        (if contributes (lookup_provider fqn) then suc total else total)

  pub record Generation : Type 0 where
    pub rules : List RuleProvider
    pub groups : Assoc Str (List ExistingRule)
    pub coverage : PackageRuleCoverage

  abbrev pub count_managed : Str → Str → PackageRuleCoverage → PackageRuleCoverage
  count_managed name kind cov =
      if rule_contributes_to_coverage name
      then record cov { managed = suc cov.managed; kinds = add_one kind cov.kinds }
      else cov

  abbrev pub add_resolved : ExistingRule → Option RuleProvider → Generation → Generation
  add_resolved r none g = g
  add_resolved r (some p) g = record g {
    rules = g.rules ++ p ∷ [];
    coverage = count_managed p.name r.kind g.coverage;
  }

  -- the loop over the existing rules of a configuration
  unfoldable pub resolve_existing :
      Provider → RuleConfig → List ExistingRule → Generation → Generation
  resolve_existing p rc [] g = g
  resolve_existing p rc (r ∷ rs) g =
      resolve_existing p rc rs (add_resolved r (p.resolve_rule rc r) g)

  abbrev pub add_provided : Option RuleProvider → Generation → Generation
  add_provided o g = record g { rules = g.rules ++ to_list o }

  -- one round of the loop over the configured rules, behind the tests
  unfoldable pub generate_configured : Provider → RuleConfig → Generation → Generation
  generate_configured p rc g =
      let g' =
        resolve_existing p rc (list_of (Map.get rc.implementation g.groups))
          (add_provided (p.provide_rule rc) g) in
      record g' { groups = Map.remove rc.implementation g'.groups }

  -- `rc.Provider`, which is looked up if it is nil. It is nil at the start: a clone has none.
  abbrev pub provider_of : RuleConfig → Option Provider
  provider_of rc = lookup_provider rc.implementation

  unfoldable pub generate_loop : List RuleConfig → Generation → Outcome Generation
  generate_loop [] g = returned g
  generate_loop (rc ∷ rcs) g = elim rc.enabled [
    | false ↦ generate_loop rcs g
    | true ↦ elim (provider_of rc) [
      | none ↦ panicked
      | some p ↦ generate_loop rcs (generate_configured p rc g)
    ]
  ]

  abbrev pub begun : List ExistingRule → Generation
  begun rules =
      let grouped = group_rules rules [] 0 in
      record {
        rules = [];
        groups = grouped.0;
        coverage = record { managed = 0; total = grouped.1; kinds = [] };
      }

  -- `generateRules`, of the configured rules and the rules of the build file
  unfoldable pub generate_rules : List RuleConfig → List ExistingRule → Outcome Generation
  generate_rules rcs rules = generate_loop rcs (begun rules)
