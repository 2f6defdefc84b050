-- ===== src/Samples/Builds.antt =====
-- The lock files, the jar indexes and the build outputs that the other tools read, on small inputs.
use scala_gazelle.Prelude.{
  ◌≡◌, refl, Str, str_has_eq, codes, false, some, List, [], ◌∷◌, ◌++◌, map, if◌then◌else◌,
  split_byte, returned, panicked,
}
use scala_gazelle.Label.{Label, LabelApi}
use scala_gazelle.Maven.Coordinate.{parse_coordinate, artifact_string, cleanup_label_name}
use scala_gazelle.Maven.MavenResolver.{
  Dependency, MavenResolver, new_maven_resolver, new_resolver_from_v1, add_packages, add, resolve,
}
use scala_gazelle.Maven.MavenResolver.Provided.{IsAnswer, provides, resolve-new_resolver_from_v1}
use scala_gazelle.JarIndex.{JarFile, merge_jar_files}
use scala_gazelle.JarIndex.Merged.{merge_jar_files_lem, remove_from_jar, is_predefined, first_jars}
use scala_gazelle.Autokeep.Diagnostics.{ScalacError, missing_symbol, buildozer_unused_dep}
use scala_gazelle.Autokeep.Scanner.{Line, scalac_failed, error_line, scan_errors}
use scala_gazelle.Autokeep.Scanner.Scanned.{derefs_nil, errors_of, scan_errors_lem}
use scala_gazelle.Autokeep.Deps.{DepsMap, CachedRule}

-- labels as texts "@repo//:name", which all parse to the empty label
abbrev nothing : Label
nothing = record { repo = []; pkg = []; name = []; relative = false }

abbrev plain_labels : LabelApi
plain_labels = record {
  no_label = nothing;
  rel = λ l repo pkg. l;
  to_string = λ l. codes "@" ++ (l.repo ++ (codes "//:" ++ l.name));
  parse = λ s. some nothing;
}

abbrev one_dependency : List Dependency
one_dependency = record { coord = codes "g:a:1"; packages = codes "p" ∷ [] } ∷ []

abbrev label_a : Label
label_a = record { repo = codes "maven"; pkg = []; name = codes "g_a"; relative = false }

abbrev loaded_one : MavenResolver
loaded_one = record {
  data_set = (codes "p", codes "@maven//:g_a" ∷ []) ∷ [];
  artifacts = (codes "g:a:1", label_a) ∷ [];
  put_symbols = (codes "p", label_a) ∷ [];
}

load_one :
    new_resolver_from_v1 plain_labels (codes "maven") one_dependency new_maven_resolver
    ≡ some loaded_one
unfolding new_resolver_from_v1 parse_coordinate split_byte artifact_string cleanup_label_name
    add_packages add
load_one = refl

resolve-new_resolver_from_v1_example :
    IsAnswer plain_labels
      (codes "maven")
      (λ l. provides plain_labels (codes "maven") (codes "p") l one_dependency)
      (codes "@maven//:g_a")
      (resolve plain_labels loaded_one (codes "p"))
resolve-new_resolver_from_v1_example =
    resolve-new_resolver_from_v1 plain_labels (codes "maven") one_dependency loaded_one (codes "p")
      (codes "@maven//:g_a") load_one

abbrev jar_of : Str → JarFile
jar_of label = record {
  filename = codes "x.jar";
  label = label;
  class_file =
      record { name = codes "a.B"; symbols = codes "java.lang.Object" ∷ codes "a.C" ∷ [] } ∷ [];
  package_name = codes "a" ∷ [];
}

abbrev three_jars : List JarFile
three_jars = jar_of (codes "//:x") ∷ jar_of (codes "//:y") ∷ jar_of (codes "//:x") ∷ []

merge_jar_files_example :
    (merge_jar_files (codes "//:y" ∷ []) three_jars).0
    ≡ map
        (remove_from_jar (is_predefined (codes "//:y" ∷ []) three_jars))
        (first_jars [] three_jars)
merge_jar_files_example = merge_jar_files_lem (codes "//:y" ∷ []) three_jars

abbrev some_lines : List Line
some_lines =
    scalac_failed (codes "BUILD") (codes "//:x")
    ∷ error_line (missing_symbol (codes "X.scala") (codes "a.B"))
    ∷ []

scan_errors_example :
    scan_errors some_lines []
    ≡ (if derefs_nil false some_lines then panicked else returned (errors_of some_lines))
scan_errors_example = scan_errors_lem some_lines

abbrev some_errors : List ScalacError
some_errors =
    record {
      rule_label = codes "//:x";
      build_file = codes "BUILD";
      error = some (missing_symbol (codes "X.scala") (codes "a.B"));
    }
    ∷ record {
      rule_label = codes "//:x";
      build_file = codes "BUILD";
      error = some (buildozer_unused_dep (codes "//:z") (codes "//:x"));
    }
    ∷ []

abbrev some_deps : DepsMap
some_deps = (codes "a.B", codes "//:y") ∷ []

abbrev cached : Str → CachedRule
cached label = record {
  label = label;
  files = record { classes = codes "a.B" ∷ []; objects = []; traits = []; types = [] } ∷ [];
}
