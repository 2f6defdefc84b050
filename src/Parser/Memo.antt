-- ===== src/Parser/Memo.antt =====
-- What the memo answers.
use scala_gazelle.Prelude.{
  Str, str_has_eq, str_eq_iff, Option, none, some, List, [], ◌∷◌, ◌≡◌, refl, arith, inl, inr,
  Result-cases, Outcome, returned, panicked, Result, ok, failed, sort_by, sym, ap, ◌∙◌,
}
use scala_gazelle.Prelude.Map
use scala_gazelle.Prelude.Map.{get-put}
use scala_gazelle.Label.{Label, label_has_eq, label_eq_iff}
use scala_gazelle.Parser.{
  ParsedRule, MemoParser, NextParser, hash_files, is_current, save, or_call, look_up,
  parse_scala_rule,
}

module _ (file_sha256 : Str → Option Str) (sha256_of : Str → Str) {S : Type 0} where
  saved-save :
      (next : NextParser S) (sha256 : Str) (from : Label) (memo memo' : MemoParser) (s' : S)
      (rule : ParsedRule) (o : Outcome (Result Str (Option ParsedRule) × S))
      → save file_sha256 sha256_of next from sha256 memo o ≡ returned (ok rule, memo', s')
      → is_current sha256 (Map.get from memo'.rules) ≡ some rule
  saved-save next sha256 from memo memo' s' rule panicked e = ground arith
  saved-save next sha256 from memo memo' s' rule (returned (failed err, s)) e = ground arith
  saved-save next sha256 from memo memo' s' rule (returned (ok none, s)) e = ground arith
  saved-save next sha256 from memo memo' s' rule (returned (ok (some r), s)) e =
      let hashed : ParsedRule = record r { sha256 = sha256 } in
      ground (
        arith,
        get-put from from hashed memo.rules,
        label_eq_iff from from,
        str_eq_iff sha256 sha256,
      )

  saved-or_call :
      (next : NextParser S) (sha256 kind dir : Str) (from : Label) (srcs : List Str)
      (memo memo' : MemoParser) (s s' : S) (rule : ParsedRule) (o : Option ParsedRule)
      → is_current sha256 (Map.get from memo.rules) ≡ o
      → or_call file_sha256 sha256_of next o kind from dir srcs sha256 memo s
        ≡ returned (ok rule, memo', s')
      → is_current sha256 (Map.get from memo'.rules) ≡ some rule
  saved-or_call next sha256 kind dir from srcs memo memo' s s' rule (some r) h e = ground arith
  saved-or_call next sha256 kind dir from [] memo memo' s s' rule none h e = ground arith
  saved-or_call next sha256 kind dir from (src ∷ srcs) memo memo' s s' rule none h e =
      saved-save next sha256 from memo memo' s' rule (next kind from dir (src ∷ srcs) s) e

-- After a call that gives a rule, a call with the same label and the same sources, whose files have
-- the hashes that they had, gives this rule again and changes nothing, whatever the next parser and
-- its state are by then.
pub parse_scala_rule-parse_scala_rule :
    (file_sha256 : Str → Option Str) (sha256_of : Str → Str) {S T : Type 0} (next : NextParser S)
    (next' : NextParser T) (kind kind' dir : Str) (from : Label) (srcs : List Str)
    (memo memo' : MemoParser) (s s' : S) (t : T) (rule : ParsedRule)
    → parse_scala_rule file_sha256 sha256_of next kind from dir srcs memo s
      ≡ returned (ok rule, memo', s')
    → parse_scala_rule file_sha256 sha256_of next' kind' from dir srcs memo' t
      ≡ returned (ok rule, memo', t)
unfolding parse_scala_rule
parse_scala_rule-parse_scala_rule file_sha256 sha256_of next next' kind kind' dir from srcs memo
      memo' s s' t rule e =
    let sorted = sort_by (λ x. x) srcs in
    elim (Result-cases (hash_files file_sha256 sha256_of dir sorted [])) [
      | inl (err, q) ↦ ground (arith, q, e)
      | inr (hash, q) ↦
          let sha256 = sha256_of hash in
          let saved : is_current sha256 (Map.get from memo'.rules) ≡ some rule =
            saved-or_call file_sha256 sha256_of next sha256 kind dir from sorted memo memo' s s'
              rule (is_current sha256 (Map.get from memo.rules)) refl
              (ap (λ h. look_up file_sha256 sha256_of next h kind from dir sorted memo s) (sym q)
                ∙ e) in
          rw (q, saved) refl
    ]
