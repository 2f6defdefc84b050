-- ===== src/Samples/Jars.antt =====
-- The symbols of jar files and of sources, at concrete inputs.
use scala_gazelle.Prelude.{
  Outcome, ℕ, str_has_eq, nat_has_eq, false, none, some, [], ◌∷◌, codes, All, returned, panicked,
  ok, failed, ◌≡◌, refl,
}
use scala_gazelle.Label.{Label, LabelApi, label_has_eq, label_eq}
use scala_gazelle.Collections.PathTrie.{node, leaf, find_child, parts, put_at, set_child}
use scala_gazelle.Collections.PathTrie.Walk.{visit, path_steps, path_calls}
use scala_gazelle.Resolver.ImportSegmenter.{import_segmenter}
use scala_gazelle.Resolver.Symbol.{class, new_symbol, conflict, require}
use scala_gazelle.Resolver.TrieScope
use scala_gazelle.Resolver.TrieScope.{TrieScope, get_symbol, put}
use scala_gazelle.Provider
use scala_gazelle.Provider.{GlobalScope, put_new_symbol, put_names}
use scala_gazelle.Language.ScalaRule.{File}
use scala_gazelle.Collections.PathTrie.Named.{IsNamed, is_named}
use scala_gazelle.Resolver.TrieScope.Update.Known.{IsKnown, Grows}
use scala_gazelle.Provider.Source.{load_scala_file, load_scala_files}
use scala_gazelle.Provider.Source.Declared.{declared, load_scala_files-IsKnown}
use scala_gazelle.Provider.Java.{
  IndexedClass, Index, JavaProvider, new_java_provider, Read, read_class_file, read_class_files,
  read_jar_file, read_jar_files, parse_predefined, put_preferred, read_jar_index,
  parse_label_non_canonical, on_resolve, require_all, require_classes,
}
use scala_gazelle.Provider.Java.Managed.{IsManaged, Keeps, read_jar_index-IsManaged}
use scala_gazelle.Provider.Java.Required.{RequiresAll, Requires, on_resolve-RequiresAll}

abbrev jar_labels : LabelApi
jar_labels = record {
  no_label = record { repo = []; pkg = []; name = []; relative = false };
  rel = λ l repo pkg. l;
  to_string = λ l. l.name;
  parse = λ s. some (record { repo = []; pkg = []; name = s; relative = false });
}

abbrev sub_class : IndexedClass
sub_class = record {
  name = codes "p.Sub";
  superclasses = codes "p.Base" ∷ [];
  interfaces = [];
  is_interface = false;
}

abbrev base_class : IndexedClass
base_class = record {
  name = codes "p.Base";
  superclasses = [];
  interfaces = [];
  is_interface = false;
}

abbrev one_jar : Index
one_jar = record {
  predefined = [];
  preferred = [];
  jar_file =
      record {
        filename = codes "x.jar";
        label = codes "x";
        package_name = codes "p" ∷ [];
        class_file = sub_class ∷ base_class ∷ [];
      }
      ∷ [];
}

abbrev no_symbols : GlobalScope
no_symbols = record {
  scope = record { root = node none leaf };
  packages = record { root = node none leaf };
  store = record {
    at = λ r. record {
      kind = class;
      name = [];
      label = jar_labels.no_label;
      provider = [];
      conflicts = [];
      requires = [];
    };
    next = 0;
  };
}

-- what was read, if there was no error
abbrev read_or_none : Read → JavaProvider × GlobalScope
read_or_none (returned (ok pg)) = pg
read_or_none (returned (failed e)) = (new_java_provider, no_symbols)
read_or_none panicked = (new_java_provider, no_symbols)

abbrev jar_read : JavaProvider × GlobalScope
jar_read = read_or_none (read_jar_index jar_labels one_jar new_java_provider no_symbols)

reads_jar :
    read_jar_index jar_labels one_jar new_java_provider no_symbols
    ≡ returned (ok (jar_read.0, jar_read.1))
unfolding read_jar_index parse_predefined put_preferred read_jar_files read_jar_file
    parse_label_non_canonical put_names put_new_symbol new_symbol TrieScope.put_symbol get_symbol
    visit path_calls path_steps import_segmenter find_child parts put_at set_child label_eq
    read_class_file read_class_files Provider.put_symbol conflict put
reads_jar = refl

read_jar_index-IsManaged_example :
    All (IsManaged jar_labels jar_read.0) one_jar.jar_file
    × Keeps jar_labels new_java_provider jar_read.0
read_jar_index-IsManaged_example =
    read_jar_index-IsManaged jar_labels one_jar new_java_provider jar_read.0 no_symbols jar_read.1
      reads_jar

on_resolve-RequiresAll_example :
    All (RequiresAll jar_read.1.scope (on_resolve jar_read.0 jar_read.1)) jar_read.0.class_symbols
    × ((symbol resolved : ℕ)
        → Requires jar_read.1 symbol resolved
        → Requires (on_resolve jar_read.0 jar_read.1) symbol resolved)
on_resolve-RequiresAll_example = on_resolve-RequiresAll jar_read.0 jar_read.1

-- the symbol of the package is the first, the one of the class the second, and its superclass the third
sub_requires_base : ((on_resolve jar_read.0 jar_read.1).store.at 1).requires ≡ 2 ∷ []
unfolding on_resolve require_classes require_all require read_jar_index parse_predefined
    put_preferred read_jar_files read_jar_file parse_label_non_canonical put_names put_new_symbol
    new_symbol TrieScope.put_symbol get_symbol visit path_calls path_steps import_segmenter
    find_child parts put_at set_child label_eq read_class_file read_class_files Provider.put_symbol
    conflict put
sub_requires_base = refl

abbrev one_file : File
one_file = record {
  filename = codes "a/x.scala";
  imports = [];
  semantic_imports = [];
  packages = [];
  extends = [];
  classes = codes "p.X" ∷ [];
  objects = codes "p.X" ∷ codes "p.Y" ∷ [];
  traits = [];
  types = [];
  vals = [];
}

abbrev from_lib : Label
from_lib = record { repo = []; pkg = codes "a"; name = codes "lib"; relative = false }

abbrev loaded_or_none : Outcome GlobalScope → GlobalScope
loaded_or_none panicked = no_symbols
loaded_or_none (returned g) = g

abbrev with_file : GlobalScope
with_file =
    loaded_or_none (load_scala_files from_lib (codes "scala_library") (one_file ∷ []) no_symbols)

loads_file :
    load_scala_files from_lib (codes "scala_library") (one_file ∷ []) no_symbols
    ≡ returned with_file
unfolding load_scala_files load_scala_file put_names put_new_symbol new_symbol TrieScope.put_symbol
    get_symbol visit path_calls path_steps import_segmenter find_child put_at parts set_child
    label_eq
loads_file = refl

IsNamed-no_symbols : IsNamed no_symbols.scope.root
unfolding is_named
IsNamed-no_symbols = refl

load_scala_files-IsKnown_example :
    All (λ file. All (IsKnown with_file.scope) (declared file)) (one_file ∷ [])
    × Grows no_symbols.scope with_file.scope
load_scala_files-IsKnown_example =
    load_scala_files-IsKnown from_lib (codes "scala_library") (one_file ∷ []) no_symbols with_file
      IsNamed-no_symbols (((refl, tt), ((refl, (refl, tt)), (tt, (tt, tt)))), tt) loads_file
