-- ===== src/JarIndex.antt =====
-- pkg/jarindex/merge.go: the indexes of jar files as one. The messages of
-- build/stack/gazelle/scala/jarindex/jarindex.proto have the fields that the merge reads or writes.
pub mod Merged
use scala_gazelle.Prelude.{
  ℕ, Str, str_has_eq, Bool, true, false, not, ◌&&◌, ◌||◌, Option, none, some, List, [], ◌∷◌, ◌++◌,
  ◌==◌, codes, if◌then◌else◌, contains, or_else, length, ltb,
}
use scala_gazelle.Prelude.Map
use scala_gazelle.Prelude.Map.{Assoc}

pub record ClassFile : Type 0 where
  pub name : Str
  pub symbols : List Str

pub record JarFile : Type 0 where
  pub filename : Str
  pub label : Str
  pub class_file : List ClassFile
  pub package_name : List Str

-- the calls of `warn`
pub data Warning : Type 0 where
  duplicate_jar_label : Str → Warning
  missing_jar_label : Str → Warning
  missing_jar_filename : Str → Warning
  split_package : Str → List Str → Warning

-- what the loop over the jars writes: `predefinedSymbols` and `labels` are lists of the keys
pub record Merge : Type 0 where
  pub jar_file : List JarFile
  pub labels : List Str
  pub labels_by_package : Assoc Str (List Str)
  pub providers_by_class : Assoc Str (List Str)
  pub predefined_symbols : List Str
  pub warnings : List Warning

abbrev pub labels_at : Str → Assoc Str (List Str) → List Str
labels_at key m = elim (Map.get key m) [ none ↦ [] | some labels ↦ labels ]

-- m[key] = append(m[key], label)
abbrev pub append_label : Str → Str → Assoc Str (List Str) → Assoc Str (List Str)
append_label key label m = Map.put key (labels_at key m ++ label ∷ []) m

unfoldable pub append_labels : List Str → Str → Assoc Str (List Str) → Assoc Str (List Str)
append_labels [] label m = m
append_labels (key ∷ keys) label m = append_labels keys label (append_label key label m)

abbrev pub class_names : List ClassFile → List Str
class_names [] = []
class_names (file ∷ files) = file.name ∷ class_names files

-- `visitJarFile`
unfoldable pub visit_jar_file : List Str → JarFile → Merge → Merge
visit_jar_file predefined_labels jar m =
    if jar.label == []
    then record m { warnings = m.warnings ++ missing_jar_label jar.filename ∷ [] }
    else if jar.filename == []
    then record m { warnings = m.warnings ++ missing_jar_filename jar.label ∷ [] }
    else record m {
      predefined_symbols =
          if contains jar.label predefined_labels
          then m.predefined_symbols ++ class_names jar.class_file
          else m.predefined_symbols;
      labels_by_package = append_labels jar.package_name jar.label m.labels_by_package;
      providers_by_class =
          append_labels (class_names jar.class_file) jar.label m.providers_by_class;
    }

abbrev pub add_jar_file : List Str → JarFile → Merge → Merge
add_jar_file predefined_labels jar m =
    if contains jar.label m.labels
    then record m { warnings = m.warnings ++ duplicate_jar_label jar.label ∷ [] }
    else (let visited =
          visit_jar_file predefined_labels jar (record m { labels = jar.label ∷ m.labels }) in
        record visited { jar_file = visited.jar_file ++ jar ∷ [] })

-- the loop over `jarFiles`
unfoldable pub add_jar_files : List Str → List JarFile → Merge → Merge
add_jar_files predefined_labels [] m = m
add_jar_files predefined_labels (jar ∷ jars) m =
    add_jar_files predefined_labels jars (add_jar_file predefined_labels jar m)

abbrev pub resolvable : List Str → List Str → List Str
resolvable predefined [] = []
resolvable predefined (sym ∷ symbols) =
    let rest = resolvable predefined symbols in if contains sym predefined then rest else sym ∷ rest

abbrev pub strip_class_files : List Str → List ClassFile → List ClassFile
strip_class_files predefined [] = []
strip_class_files predefined (file ∷ files) =
    record file { symbols = resolvable predefined file.symbols }
    ∷ strip_class_files predefined files

-- the loop that removes predefined symbols
abbrev pub strip_jar_files : List Str → List JarFile → List JarFile
strip_jar_files predefined [] = []
strip_jar_files predefined (jar ∷ jars) =
    record jar { class_file = strip_class_files predefined jar.class_file }
    ∷ strip_jar_files predefined jars

-- the loop over `labelsByPackage`, in the order of the list
abbrev pub split_packages : Assoc Str (List Str) → List Warning
split_packages [] = []
split_packages ((pkg, labels) ∷ rest) =
    let others = split_packages rest in
    if ltb 1 (length labels) then split_package pkg labels ∷ others else others

abbrev pub new_merge : Merge
new_merge = record {
  jar_file = [];
  labels = [];
  labels_by_package = [];
  providers_by_class = [];
  predefined_symbols = codes "java.lang.Object" ∷ [];
  warnings = [];
}

-- `MergeJarFiles`: the jars of the index, and the warnings. Its error is always nil.
unfoldable pub merge_jar_files : List Str → List JarFile → List JarFile × List Warning
merge_jar_files predefined jars =
    let m = add_jar_files predefined jars new_merge in
    (
      strip_jar_files m.predefined_symbols m.jar_file,
      m.warnings ++ split_packages m.labels_by_package,
    )
