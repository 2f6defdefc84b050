-- ===== src/Parser.antt =====
-- pkg/parser/memo_parser.go: a parser in front of another, which remembers rules by the hash of their
-- files.
pub mod Memo
use scala_gazelle.Prelude.{
  Str, str_has_eq, Bool, true, false, Option, none, some, List, [], ◌∷◌, ◌++◌, ◌==◌, map, sort_by,
  if◌then◌else◌, Outcome, returned, panicked, Result, ok, failed, join_path,
}
use scala_gazelle.Prelude.Map
use scala_gazelle.Prelude.Map.{Assoc}
use scala_gazelle.Label.{Label, label_has_eq}
use scala_gazelle.Language.ScalaRule.{File}

-- message Rule of build/stack/gazelle/scala/parse/rule.proto
pub record ParsedRule : Type 0 where
  pub label : Str
  pub kind : Str
  pub files : List File
  pub sha256 : Str

pub record MemoParser : Type 0 where
  pub rules : Assoc Label ParsedRule

abbrev pub new_memo_parser : MemoParser
new_memo_parser = record { rules = [] }

pub data ParseError : Type 0 where
  hashing : Str → ParseError
  next_failed : Str → ParseError

-- A parser with a state: kind, label, directory and sources; its rule can be nil.
abbrev pub NextParser : Type 0 → Type 0
NextParser S = Str → Label → Str → List Str → S → Outcome (Result Str (Option ParsedRule) × S)

abbrev pub Parsed : Type 0 → Type 0
Parsed S = Outcome (Result ParseError ParsedRule × MemoParser × S)

abbrev pub is_current : Str → Option ParsedRule → Option ParsedRule
is_current sha256 none = none
is_current sha256 (some rule) = if rule.sha256 == sha256 then some rule else none

-- `FileSha256` and `Sha256`; `none` is the error of reading a file
module _ (file_sha256 : Str → Option Str) (sha256_of : Str → Str) where
  -- the loop over the sources
  unfoldable pub hash_files : Str → List Str → Str → Result ParseError Str
  hash_files dir [] hash = ok hash
  hash_files dir (src ∷ srcs) hash = elim (file_sha256 (join_path dir src)) [
    | none ↦ failed (hashing (join_path dir src))
    | some h ↦ hash_files dir srcs (hash ++ h)
  ]

  module _ {S : Type 0} (next : NextParser S) where
    abbrev pub save :
        Label → Str → MemoParser → Outcome (Result Str (Option ParsedRule) × S) → Parsed S
    save from sha256 memo panicked = panicked
    save from sha256 memo (returned (failed e, s)) = returned (failed (next_failed e), memo, s)
    save from sha256 memo (returned (ok none, s)) = panicked
    save from sha256 memo (returned (ok (some rule), s)) =
        let hashed : ParsedRule = record rule { sha256 = sha256 } in
        returned (ok hashed, record { rules = Map.put from hashed memo.rules }, s)

    -- the call of the next parser, which is not made without sources
    abbrev pub call_next : Str → Label → Str → List Str → Str → MemoParser → S → Parsed S
    call_next kind from dir [] sha256 memo s = panicked
    call_next kind from dir (src ∷ srcs) sha256 memo s =
        save from sha256 memo (next kind from dir (src ∷ srcs) s)

    abbrev pub or_call :
        Option ParsedRule → Str → Label → Str → List Str → Str → MemoParser → S → Parsed S
    or_call (some rule) kind from dir srcs sha256 memo s = returned (ok rule, memo, s)
    or_call none kind from dir srcs sha256 memo s = call_next kind from dir srcs sha256 memo s

    abbrev pub look_up :
        Result ParseError Str → Str → Label → Str → List Str → MemoParser → S → Parsed S
    look_up (failed e) kind from dir srcs memo s = returned (failed e, memo, s)
    look_up (ok hash) kind from dir srcs memo s =
        let sha256 = sha256_of hash in
        or_call (is_current sha256 (Map.get from memo.rules)) kind from dir srcs sha256 memo s

    -- `ParseScalaRule`
    unfoldable pub parse_scala_rule : Str → Label → Str → List Str → MemoParser → S → Parsed S
    parse_scala_rule kind from dir srcs memo s =
        let sorted = sort_by (λ x. x) srcs in
        look_up (hash_files dir sorted []) kind from dir sorted memo s

-- `LoadScalaRule`, before the call of the next parser
unfoldable pub load_scala_rule : Label → ParsedRule → MemoParser → MemoParser
load_scala_rule from rule memo = record { rules = Map.put from rule memo.rules }

-- `sortRuleFiles`, of one file; the names of a file are not modelled
unfoldable pub sort_file : File → File
sort_file file = record file {
  imports = sort_by (λ s. s) file.imports;
  packages = sort_by (λ s. s) file.packages;
  classes = sort_by (λ s. s) file.classes;
  objects = sort_by (λ s. s) file.objects;
  traits = sort_by (λ s. s) file.traits;
  types = sort_by (λ s. s) file.types;
  vals = sort_by (λ s. s) file.vals;
}

unfoldable pub sort_rule_files : List File → List File
sort_rule_files files = map sort_file (sort_by (λ f. f.filename) files)

abbrev pub with_sorted_files : ParsedRule → ParsedRule
with_sorted_files r = record r { files = sort_rule_files r.files }

-- `SortRules`; the times are not modelled
unfoldable pub sort_rules : List ParsedRule → List ParsedRule
sort_rules rules = map with_sorted_files (sort_by (λ r. r.label) rules)

abbrev pub values : Assoc Label ParsedRule → List ParsedRule
values [] = []
values ((from, rule) ∷ rules) = rule ∷ values rules

-- `ScalaRules`
unfoldable pub scala_rules : MemoParser → List ParsedRule
scala_rules memo = sort_rules (values memo.rules)
