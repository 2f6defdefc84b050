-- ===== src/Provider/Semanticdb.antt =====
-- pkg/provider/semanticdb_provider.go, behind the reading of its files.
pub mod Doubled
use scala_gazelle.Prelude.{
  Str, str_has_eq, Bool, true, false, ◌||◌, ◌++◌, Option, none, some, List, [], ◌∷◌, ◌==◌, codes,
  if◌then◌else◌, map, has_prefix, trim_prefix, trim_space, join_path, Outcome, returned, panicked,
  Result, ok, failed,
}
use scala_gazelle.Prelude.Map
use scala_gazelle.Prelude.Map.{Assoc}
use scala_gazelle.Label.{Label}
use scala_gazelle.Language.ScalaRule.{File}
use scala_gazelle.Parser.{ParsedRule, NextParser}

-- the test of a comment in `CanProvide`
abbrev pub is_semantic_comment : Str → Bool
is_semantic_comment token =
    let text = trim_space (trim_prefix token (codes "#")) in
    text == codes "semanticdb" || has_prefix text (codes "SEMANTIC")

unfoldable pub has_semantic_comment : List Str → Bool
has_semantic_comment [] = false
has_semantic_comment (token ∷ tokens) =
    let rest = has_semantic_comment tokens in if is_semantic_comment token then true else rest

abbrev pub has_items : List Str → Bool
has_items [] = false
has_items (s ∷ ss) = true

abbrev pub has_semantic_imports : Option File → Bool
has_semantic_imports none = false
has_semantic_imports (some file) = has_items file.semantic_imports

-- `CanProvide`, of the comments before an item and behind it, and the source of the import
unfoldable pub can_provide : List Str → List Str → Option File → Bool
can_provide before suffix source =
    if has_semantic_comment (before ++ suffix) then has_semantic_imports source else false

-- `visitFile`
abbrev pub with_semantic_imports : File → Option File → File
with_semantic_imports file none = file
with_semantic_imports file (some f) = record file { semantic_imports = f.semantic_imports }

unfoldable pub visit_file : Assoc Str File → Str → File → File
visit_file files pkg file = with_semantic_imports file (Map.get (join_path pkg file.filename) files)

-- the loop of `ParseScalaRule`
unfoldable pub visit_files : Assoc Str File → Str → List File → List File
visit_files files pkg fs = map (visit_file files pkg) fs

-- the answer of the next parser; its rule is read when it is nil, too
abbrev pub visit_answer :
    {S : Type 0}
    → Assoc Str File
    → Str
    → Outcome (Result Str (Option ParsedRule) × S)
    → Outcome (Result Str (Option ParsedRule) × S)
visit_answer files pkg panicked = panicked
visit_answer files pkg (returned (failed e, s)) = returned (failed (codes "semanticdb: " ++ e), s)
visit_answer files pkg (returned (ok none, s)) = panicked
visit_answer files pkg (returned (ok (some r), s)) =
    returned (ok (some (record r { files = visit_files files pkg r.files })), s)

-- `ParseScalaRule`
unfoldable pub parse_scala_rule : {S : Type 0} → Assoc Str File → NextParser S → NextParser S
parse_scala_rule files next kind from dir srcs s =
    visit_answer files from.pkg (next kind from dir srcs s)

-- `parseFileSet` and `parseIndex`, which keep the last of a name, and `addTextDocument`, which fails
-- for a name that is there; a document is its uri
unfoldable pub add_files : List File → Assoc Str File → Assoc Str File
add_files [] files = files
add_files (file ∷ fs) files = add_files fs (Map.put file.filename file files)

unfoldable pub add_text_document :
    {Doc : Type 0} → Str → Doc → Assoc Str Doc → Option (Assoc Str Doc)
add_text_document uri doc docs = elim (Map.get uri docs) [
  | some old ↦ none
  | none ↦ some (Map.put uri doc docs)
]
