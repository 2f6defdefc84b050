-- ===== src/Samples/Packages.antt =====
-- Runs over directories, and the rules of packages, at concrete inputs.
use scala_gazelle.Prelude.{
  Str, str_has_eq, true, Option, none, some, List, [], ◌∷◌, ◌++◌, codes, returned, map, ◌≡◌, ◌≤◌,
  refl, arith,
}
use scala_gazelle.RuleConfig.{RuleConfig}
use scala_gazelle.Language.Lifecycle.{Rule, new_lang, on_resolve, on_end, resolved}
use scala_gazelle.Language.Lifecycle.Steps.{
  Visited, generate_all, calls_of, resolve_all, two_cycles, label_in,
}
use scala_gazelle.Language.Lifecycle.Order.{done-resolve_all-generate_all}
use scala_gazelle.Language.ScalaPackage.{
  Load, ExistingRule, Provider, Generation, generate_rules, group_rules, resolve_existing,
  generate_configured, generate_loop, find_pair, fully_qualified_load_name,
  rule_contributes_to_coverage,
}
use scala_gazelle.Language.ScalaPackage.Generated.{generated_by, generate_rules-generated_by}
use scala_gazelle.Language.ScalaPackage.Coverage.{NamesAgree, generate_rules-coverage_le}

abbrev a_lib : Rule
a_lib = record { name = codes "lib"; has_provider = true }

abbrev two_dirs : List Visited
two_dirs = record { rel = codes "b"; rules = [] } ∷ []

abbrev first_dir : Visited
first_dir = record { rel = codes "a"; rules = a_lib ∷ [] }

abbrev some_providers : List Str
some_providers = codes "source" ∷ []

done-resolve_all-generate_all_example :
    (resolve_all
      (codes "repo")
      (calls_of (codes "repo") (first_dir ∷ two_dirs))
      (generate_all (first_dir ∷ two_dirs) (new_lang some_providers))).done
    ≡ map on_resolve some_providers
      ++ (two_cycles (first_dir ∷ two_dirs) ++ map on_end some_providers)
done-resolve_all-generate_all_example =
    done-resolve_all-generate_all (codes "repo") some_providers first_dir two_dirs
      (refl, (refl, tt))

two_dirs_run :
    two_cycles (first_dir ∷ two_dirs)
    ≡ resolved (label_in [] (codes "a") (codes "lib")) a_lib
      ∷ resolved (label_in [] (codes "a") (codes "lib")) a_lib
      ∷ []
two_dirs_run = refl

-- an implementation that manages each rule of its kind
abbrev library : Str → Provider
library name = record {
  name = name;
  provide_rule = λ rc. none;
  resolve_rule = λ rc r. some (record { kind = r.kind; name = r.name });
}

abbrev any_library : Str → Option Provider
any_library fqn = some (library (codes "scala_library"))

abbrev a_config : RuleConfig
a_config = record {
  rel = [];
  deps = [];
  attrs = [];
  options = [];
  enabled = true;
  implementation = codes "x.bzl%scala_library";
  provider = none;
  name = codes "scala_library";
}

abbrev a_load : Load
a_load = record {
  name = codes "x.bzl";
  pairs = (codes "scala_library", codes "scala_library") ∷ [];
}

abbrev an_existing : ExistingRule
an_existing = record { kind = codes "scala_library"; name = codes "lib" }

generate_rules-generated_by_example :
    (g : Generation any_library (a_load ∷ [])) × (generate_rules any_library
        (a_load ∷ [])
        (a_config ∷ [])
        (an_existing ∷ [])
      ≡ returned g)
    × (g.rules ≡ generated_by any_library (a_load ∷ []) [] (a_config ∷ []) (an_existing ∷ []))
generate_rules-generated_by_example =
    generate_rules-generated_by any_library (a_load ∷ []) (a_config ∷ []) (an_existing ∷ [])
      ((λ e. refl), tt)

any_library-NamesAgree : NamesAgree any_library (a_load ∷ [])
unfolding rule_contributes_to_coverage
any_library-NamesAgree fqn p rc r q k c e = ground (arith, k, c)

abbrev a_generation : Generation any_library (a_load ∷ [])
a_generation = record {
  rules = record { kind = codes "scala_library"; name = codes "lib" } ∷ [];
  groups = [];
  coverage = record { managed = 1; total = 1; kinds = (codes "scala_library", 1) ∷ [] };
}

generate_rules-coverage_le_example : a_generation.coverage.managed ≤ a_generation.coverage.total
unfolding generate_rules generate_loop generate_configured resolve_existing group_rules
    fully_qualified_load_name find_pair rule_contributes_to_coverage
generate_rules-coverage_le_example =
    generate_rules-coverage_le any_library (a_load ∷ []) (a_config ∷ []) (an_existing ∷ [])
      a_generation any_library-NamesAgree refl

-- The implementation scala_fileset does not count for the total, but a rule of it with another name
-- counts as managed: one rule of none.
abbrev any_fileset : Str → Option Provider
any_fileset fqn = some (library (codes "scala_fileset"))

more_than_total :
    generate_rules any_fileset (a_load ∷ []) (a_config ∷ []) (an_existing ∷ [])
    ≡ returned (record {
      rules = record { kind = codes "scala_library"; name = codes "lib" } ∷ [];
      groups = [];
      coverage = record { managed = 1; total = 0; kinds = (codes "scala_library", 1) ∷ [] };
    })
unfolding generate_rules generate_loop generate_configured resolve_existing group_rules
    fully_qualified_load_name find_pair rule_contributes_to_coverage
more_than_total = refl
