-- ===== src/Provider/Source.antt =====
-- pkg/provider/source_provider.go: the files of a rule, and their symbols.
pub mod Named
pub mod Declared
use scala_gazelle.Prelude.{
  Str, str_has_eq, Bool, true, false, not, ◌||◌, Option, none, some, List, [], ◌∷◌, ◌++◌, ◌==◌,
  if◌then◌else◌, is_nil, sort_by, map, Outcome, returned, panicked, Result, ok, failed, join_path,
}
use scala_gazelle.Prelude.Map
use scala_gazelle.Prelude.Map.{Assoc}
use scala_gazelle.Label.{Label}
use scala_gazelle.Resolver.Symbol.{class, object, trait, type, value}
use scala_gazelle.Language.ScalaRule.{File}
use scala_gazelle.Parser.{ParsedRule}
use scala_gazelle.Provider.{GlobalScope, put_names}

-- the state of the provider: the files of the fileset, by name
pub record SourceProvider : Type 0 where
  pub scala_files : Assoc Str File

-- `parseScalaFileset`, of the files of its rules
unfoldable pub add_fileset : List File → SourceProvider → SourceProvider
add_fileset [] r = r
add_fileset (file ∷ files) r =
    add_fileset files (record { scala_files = Map.put file.filename file r.scala_files })

-- `CanProvide`, with the index of known rules and `Label.Abs`
unfoldable pub can_provide : (Label → Bool) → (Label → Str → Str → Label) → Label → Label → Bool
can_provide known abs dep from =
    if known dep
    then true
    else if dep.relative
    then (if known (abs dep from.repo from.pkg) then true else false)
    else false

-- what the loop over the sources gathers: the files that are there, and the relative path of each
-- absolute path that has to be parsed
pub record Wanted : Type 0 where
  pub have_files : List File
  pub need_filenames : Assoc Str Str

module _ (r : SourceProvider) (dir pkg : Str) where
  unfoldable pub want_files : List Str → Wanted → Wanted
  want_files [] w = w
  want_files (src ∷ srcs) w =
      let rel = join_path pkg src in
      elim (Map.get rel r.scala_files) [
        | some file ↦ want_files srcs (record w { have_files = w.have_files ++ file ∷ [] })
        | none ↦
            want_files srcs
              (record w { need_filenames = Map.put (join_path dir src) rel w.need_filenames })
      ]

-- the answer of the parser: an error, and files with the error of each
pub record ParseResponse : Type 0 where
  pub error : Str
  pub files : List (File × Str)

pub data SourceError : Type 0 where
  parse_failed : Str → SourceError
  file_failed : Str → Str → SourceError

abbrev pub Files : Type 0
Files = Outcome (Result SourceError (List File))

abbrev pub cons_file : File → Files → Files
cons_file file panicked = panicked
cons_file file (returned (failed e)) = returned (failed e)
cons_file file (returned (ok files)) = returned (ok (file ∷ files))

abbrev pub rename_file : File → Option Str → Files → Files
rename_file file none rest = panicked
rename_file file (some rel) rest = cons_file (record file { filename = rel }) rest

-- the loop over the files of the response
unfoldable pub rename_files : Assoc Str Str → List (File × Str) → Files
rename_files need [] = returned (ok [])
rename_files need ((file, error) ∷ files) =
    let rest = rename_files need files in
    if not (error == [])
    then returned (failed (file_failed file.filename error))
    else rename_file file (Map.get file.filename need) rest

abbrev pub behind : List File → Files → Files
behind have panicked = panicked
behind have (returned (failed e)) = returned (failed e)
behind have (returned (ok files)) = returned (ok (have ++ files))

abbrev pub use_response : Wanted → Result Str ParseResponse → Files
use_response w (failed e) = returned (failed (parse_failed e))
use_response w (ok response) =
    if not (response.error == [])
    then returned (failed (parse_failed response.error))
    else behind w.have_files (rename_files w.need_filenames response.files)

abbrev pub is_nil_map : Assoc Str Str → Bool
is_nil_map [] = true
is_nil_map (p ∷ ps) = false

-- `parser.Parse` with the start of the parser, of the sorted absolute names
module _ (parse : List Str → Result Str ParseResponse) where
  -- `parseFiles`
  unfoldable pub parse_files : SourceProvider → Str → Str → List Str → Files
  parse_files r dir pkg srcs =
      let w = want_files r dir pkg srcs (record { have_files = []; need_filenames = [] }) in
      if is_nil_map w.need_filenames
      then returned (ok w.have_files)
      else use_response w (parse (sort_by (λ s. s) (Map.keys w.need_filenames)))

abbrev pub and_put : Outcome GlobalScope → (GlobalScope → Outcome GlobalScope) → Outcome GlobalScope
and_put panicked f = panicked
and_put (returned g) f = f g

-- `loadScalaFile`: the provider of a symbol is the kind of its rule
unfoldable pub load_scala_file : Label → Str → File → GlobalScope → Outcome GlobalScope
load_scala_file from kind file g =
    and_put
      (and_put
        (and_put
          (and_put (put_names class kind from file.classes g)
            (put_names object kind from file.objects))
          (put_names trait kind from file.traits))
        (put_names type kind from file.types))
      (put_names value kind from file.vals)

-- the loop of `LoadScalaRule` and of `ParseScalaRule`
unfoldable pub load_scala_files : Label → Str → List File → GlobalScope → Outcome GlobalScope
load_scala_files from kind [] g = returned g
load_scala_files from kind (file ∷ files) g = elim (load_scala_file from kind file g) [
  | panicked ↦ panicked
  | returned g' ↦ load_scala_files from kind files g'
]

abbrev pub Loaded : Type 0
Loaded = Outcome (Result SourceError (Option ParsedRule) × GlobalScope)

abbrev pub loaded_rule : Str → Str → List File → Outcome GlobalScope → Loaded
loaded_rule label kind files panicked = panicked
loaded_rule label kind files (returned g) =
    returned (ok (some (record { label = label; kind = kind; files = files; sha256 = [] })), g)

abbrev pub load_parsed : Str → Label → Str → GlobalScope → Files → Loaded
load_parsed label from kind g panicked = panicked
load_parsed label from kind g (returned (failed e)) = returned (failed e, g)
load_parsed label from kind g (returned (ok files)) =
    let sorted = sort_by (λ f. f.filename) files in
    loaded_rule label kind sorted (load_scala_files from kind sorted g)

module _ (parse : List Str → Result Str ParseResponse) (to_string : Label → Str) where
  -- `ParseScalaRule`
  unfoldable pub parse_scala_rule :
      SourceProvider → Str → Label → Str → List Str → GlobalScope → Loaded
  parse_scala_rule r kind from dir [] g = returned (ok none, g)
  parse_scala_rule r kind from dir (src ∷ srcs) g =
      load_parsed (to_string from) from kind g
        (parse_files parse r dir from.pkg (sort_by (λ s. s) (src ∷ srcs)))
