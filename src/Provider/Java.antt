-- ===== src/Provider/Java.antt =====
-- pkg/provider/java_provider.go: the symbols of the jar files of an index. Reading the file of an
-- index is left out.
pub mod Managed
pub mod Required
use scala_gazelle.Prelude.{
  Str, str_has_eq, Bool, true, false, ◌||◌, not, Option, none, some, List, [], ◌∷◌, ◌++◌, ◌==◌,
  codes, if◌then◌else◌, is_nil, sort_by, contains, Outcome, returned, panicked, Result, ok, failed,
}
use scala_gazelle.Prelude.Map
use scala_gazelle.Prelude.Map.{Assoc}
use scala_gazelle.Label.{Label, LabelApi, label_has_eq}
use scala_gazelle.Resolver.Symbol.{ImportType, package_type, class, interface, Ref, Store, require}
use scala_gazelle.Resolver.TrieScope.{get_symbol}
use scala_gazelle.Provider.{GlobalScope, put_new_symbol, put_names}

-- the messages of build/stack/gazelle/scala/jarindex/jarindex.proto, as far as the provider reads them
pub record IndexedClass : Type 0 where
  pub name : Str
  pub superclasses : List Str
  pub interfaces : List Str
  pub is_interface : Bool

pub record IndexedJar : Type 0 where
  pub filename : Str
  pub label : Str
  pub package_name : List Str
  pub class_file : List IndexedClass

pub record Index : Type 0 where
  pub predefined : List Str
  pub preferred : Assoc Str Str
  pub jar_file : List IndexedJar

-- the state: the keys of `classSymbols` are pointers, which differ for each class that is read
pub record JavaProvider : Type 0 where
  pub by_label : Assoc Label IndexedJar
  pub class_symbols : List (IndexedClass × Ref)
  pub preferred : Assoc Str Label

abbrev pub new_java_provider : JavaProvider
new_java_provider = record { by_label = []; class_symbols = []; preferred = [] }

pub data IndexError : Type 0 where
  bad_predefined : Str → IndexError
  malformed_preferred : Str → IndexError
  bad_jar_label : Str → Str → IndexError

abbrev pub is_empty : List Str → Bool
is_empty [] = true
is_empty (s ∷ ss) = false

abbrev pub java_name : Str
java_name = codes "java"

abbrev pub with_symbol :
    IndexedClass → Ref → JavaProvider → Outcome GlobalScope → Outcome (JavaProvider × GlobalScope)
with_symbol file symbol p panicked = panicked
with_symbol file symbol p (returned g) = returned (
  if not (is_empty file.superclasses) || not (is_empty file.interfaces)
      then record p { class_symbols = p.class_symbols ++ (file, symbol) ∷ [] }
      else p,
  g,
)

-- `readClassFile`: the symbol that is made has the next address
unfoldable pub read_class_file :
    IndexedClass → Label → JavaProvider → GlobalScope → Outcome (JavaProvider × GlobalScope)
read_class_file file from p g =
    with_symbol file g.store.next p
      (put_new_symbol (if file.is_interface then interface else class) file.name java_name from g)

unfoldable pub read_class_files :
    List IndexedClass → Label → JavaProvider → GlobalScope → Outcome (JavaProvider × GlobalScope)
read_class_files [] from p g = returned (p, g)
read_class_files (file ∷ files) from p g = elim (read_class_file file from p g) [
  | panicked ↦ panicked
  | returned pg ↦ read_class_files files from pg.0 pg.1
]

abbrev pub Read : Type 0
Read = Outcome (Result IndexError (JavaProvider × GlobalScope))

abbrev pub then_classes : List IndexedClass → Label → JavaProvider → Outcome GlobalScope → Read
then_classes files from p panicked = panicked
then_classes files from p (returned g) = elim (read_class_files files from p g) [
  | panicked ↦ panicked
  | returned pg ↦ returned (ok pg)
]

module _ (api : LabelApi) where
  -- `ParseLabelNonCanonical`; the flag that it clears is not modelled
  unfoldable pub parse_label_non_canonical : Str → Option Label
  parse_label_non_canonical [] = some api.no_label
  parse_label_non_canonical (c ∷ s) = api.parse (c ∷ s)

  abbrev pub read_labelled :
      IndexedJar → List Label → JavaProvider → GlobalScope → Option Label → Read
  read_labelled jar predefined p g none = returned (failed (bad_jar_label jar.filename jar.label))
  read_labelled jar predefined p g (some from) =
      let own = if contains from predefined then api.no_label else from in
      then_classes jar.class_file own (record p { by_label = Map.put from jar p.by_label })
        (put_names package_type java_name own jar.package_name g)

  -- `readJarFile`
  unfoldable pub read_jar_file : IndexedJar → List Label → JavaProvider → GlobalScope → Read
  read_jar_file jar predefined p g =
      if jar.filename == []
      then panicked
      else read_labelled jar predefined p g (parse_label_non_canonical jar.label)

  -- the three loops of `readJarIndex`
  unfoldable pub parse_predefined : List Str → List Label → Result IndexError (List Label)
  parse_predefined [] labels = ok labels
  parse_predefined (v ∷ vs) labels = elim (parse_label_non_canonical v) [
    | none ↦ failed (bad_predefined v)
    | some l ↦ parse_predefined vs (l ∷ labels)
  ]

  unfoldable pub put_preferred :
      Assoc Str Str → Assoc Str Label → Result IndexError (Assoc Str Label)
  put_preferred [] preferred = ok preferred
  put_preferred ((k, v) ∷ kvs) preferred = elim (parse_label_non_canonical v) [
    | none ↦ failed (malformed_preferred v)
    | some dep ↦ put_preferred kvs (Map.put k dep preferred)
  ]

  unfoldable pub read_jar_files : List IndexedJar → List Label → JavaProvider → GlobalScope → Read
  read_jar_files [] predefined p g = returned (ok (p, g))
  read_jar_files (jar ∷ jars) predefined p g = elim (read_jar_file jar predefined p g) [
    | panicked ↦ panicked
    | returned o ↦ elim o [
      | failed e ↦ returned (failed e)
      | ok pg ↦ read_jar_files jars predefined pg.0 pg.1
    ]
  ]

  abbrev pub read_preferred :
      Index → List Label → JavaProvider → GlobalScope → Result IndexError (Assoc Str Label) → Read
  read_preferred index predefined p g (failed e) = returned (failed e)
  read_preferred index predefined p g (ok preferred) =
      read_jar_files index.jar_file predefined (record p { preferred = preferred }) g

  abbrev pub read_predefined :
      Index → JavaProvider → GlobalScope → Result IndexError (List Label) → Read
  read_predefined index p g (failed e) = returned (failed e)
  read_predefined index p g (ok predefined) =
      read_preferred index predefined p g (put_preferred index.preferred p.preferred)

  -- `readJarIndex`
  unfoldable pub read_jar_index : Index → JavaProvider → GlobalScope → Read
  read_jar_index index p g = read_predefined index p g (parse_predefined index.predefined [])

-- `CanProvide`
unfoldable pub can_provide : JavaProvider → Label → Bool
can_provide p dep = not (is_nil (Map.get dep p.by_label))

-- the loop of `OnResolve` over the names that a class extends
unfoldable pub require_all : List Str → Ref → GlobalScope → GlobalScope
require_all [] symbol g = g
require_all (name ∷ names) symbol g = elim (get_symbol g.scope name) [
  | none ↦ require_all names symbol g
  | some resolved ↦ require_all names symbol (record g { store = require symbol resolved g.store })
]

unfoldable pub require_classes : List (IndexedClass × Ref) → GlobalScope → GlobalScope
require_classes [] g = g
require_classes ((file, symbol) ∷ files) g =
    require_classes files (require_all (file.superclasses ++ file.interfaces) symbol g)

-- `OnResolve`: the order of classes of one name is left open by the source
unfoldable pub on_resolve : JavaProvider → GlobalScope → GlobalScope
on_resolve p g = require_classes (sort_by (λ c. c.0.name) p.class_symbols) g
