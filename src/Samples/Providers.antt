-- ===== src/Samples/Providers.antt =====
-- The parsers and the symbol providers, at concrete inputs.
use scala_gazelle.Prelude.{
  Str, str_has_eq, strs_has_eq, false, Option, none, some, List, [], ◌∷◌, codes, returned, Result,
  ok, failed, All, map, join_path, clean_path, split_byte, ◌≡◌, refl,
}
use scala_gazelle.Prelude.Map
use scala_gazelle.Label.{Label, label_has_eq}
use scala_gazelle.Language.ScalaRule.{File}
use scala_gazelle.Parser.{ParsedRule, new_memo_parser, NextParser, hash_files, parse_scala_rule}
use scala_gazelle.Parser.Memo.{parse_scala_rule-parse_scala_rule}
use scala_gazelle.Provider.Source.{
  add_fileset, ParseResponse, want_files, rename_files, parse_files,
}
use scala_gazelle.Provider.Source.Named.{IsNamed, parse_files-IsNamed}
use scala_gazelle.Provider.Semanticdb.{visit_files}
use scala_gazelle.Provider.Semanticdb.Doubled.{visit_files-parse_files}

abbrev lib : Label
lib = record { repo = []; pkg = codes "a"; name = codes "lib"; relative = false }

-- a hash that is the name of the file, and the digest of a text that is the text
abbrev any_hash : Str → Option Str
any_hash name = some name

abbrev same_text : Str → Str
same_text s = s

abbrev parsed_lib : ParsedRule
parsed_lib = record {
  label = codes "//a:lib";
  kind = codes "scala_library";
  files = [];
  sha256 = [];
}

abbrev hashed_lib : ParsedRule
hashed_lib = record parsed_lib { sha256 = codes "/b/x" }

-- a parser that counts its calls
abbrev counting : NextParser (List Str)
counting kind from dir srcs calls = returned (ok (some parsed_lib), kind ∷ calls)

abbrev never : NextParser (List Str)
never kind from dir srcs calls = returned (failed (codes "called"), calls)

parse_scala_rule-parse_scala_rule_example :
    parse_scala_rule any_hash same_text never
      (codes "scala_library")
      lib
      (codes "/b")
      (codes "x" ∷ [])
      (record { rules = (lib, hashed_lib) ∷ [] })
      []
    ≡ returned (ok hashed_lib, record { rules = (lib, hashed_lib) ∷ [] }, [])
unfolding parse_scala_rule hash_files join_path clean_path split_byte
parse_scala_rule-parse_scala_rule_example =
    parse_scala_rule-parse_scala_rule any_hash same_text counting never (codes "scala_library")
      (codes "scala_library") (codes "/b") lib (codes "x" ∷ []) new_memo_parser
      (record { rules = (lib, hashed_lib) ∷ [] }) [] (codes "scala_library" ∷ []) [] hashed_lib refl

abbrev file_named : Str → Str → File
file_named name import = record {
  filename = name;
  imports = import ∷ [];
  semantic_imports = [];
  packages = [];
  extends = [];
  classes = [];
  objects = [];
  traits = [];
  types = [];
  vals = [];
}

-- x is in the fileset, y is parsed
abbrev fileset : List File
fileset = file_named (codes "a/x") (codes "p.X") ∷ []

abbrev parse_y : List Str → Result Str ParseResponse
parse_y names =
    ok (record { error = []; files = (file_named (codes "/b/y") (codes "p.Y"), []) ∷ [] })

abbrev both_files : List File
both_files = file_named (codes "a/x") (codes "p.X") ∷ file_named (codes "a/y") (codes "p.Y") ∷ []

abbrev both_srcs : List Str
both_srcs = codes "x" ∷ codes "y" ∷ []

both_parsed :
    parse_files parse_y
      (add_fileset fileset (record { scala_files = [] }))
      (codes "/b")
      (codes "a")
      both_srcs
    ≡ returned (ok both_files)
unfolding parse_files add_fileset want_files rename_files join_path clean_path split_byte
both_parsed = refl

parse_files-IsNamed_example : All (IsNamed (map (join_path (codes "a")) both_srcs)) both_files
parse_files-IsNamed_example =
    parse_files-IsNamed parse_y fileset (codes "/b") (codes "a") both_srcs both_files both_parsed

-- the index of semantic imports has the file under its name
abbrev semantic_x : File
semantic_x = record (file_named (codes "a/x") (codes "p.X")) { semantic_imports = codes "q.Z" ∷ [] }

not_doubled :
    All
      (λ src.
        Map.get (join_path (codes "a") (join_path (codes "a") src)) ((codes "a/x", semantic_x) ∷ [])
        ≡ none)
      both_srcs
unfolding join_path clean_path split_byte
not_doubled = (refl, (refl, tt))

visit_files-parse_files_example :
    visit_files ((codes "a/x", semantic_x) ∷ []) (codes "a") both_files ≡ both_files
visit_files-parse_files_example =
    visit_files-parse_files parse_y fileset (codes "/b") (codes "a") both_srcs both_files
      ((codes "a/x", semantic_x) ∷ []) both_parsed not_doubled
