-- ===== src/Autokeep/Scanner.antt =====
-- pkg/autokeep/scanner.go: the errors in the output of a build.
pub mod Scanned
use scala_gazelle.Prelude.{
  ℕ, Str, str_has_eq, Bool, true, false, not, ◌&&◌, ◌||◌, Option, none, some, List, [], ◌∷◌, ◌++◌,
  ◌==◌, codes, if◌then◌else◌, nat_beq, leb, or_else, trim_suffix, trim_space, scan_lines,
  scan_fails, after, after_any, after_digits, is_digit, Outcome, returned, panicked,
}
use scala_gazelle.Autokeep.Diagnostics.{
  ErrorKind, missing_symbol, not_a_member_of_package, buildozer_unused_dep, ScalacError,
}

abbrev is_continuation : ℕ → Bool
is_continuation b = leb 128 b && leb b 191

-- one byte, or the UTF-8 text of one rune
abbrev is_one_rune : Str → Bool
is_one_rune (a ∷ []) = true
is_one_rune (a ∷ b ∷ []) = leb 194 a && leb a 223 && is_continuation b
is_one_rune (a ∷ b ∷ c ∷ []) =
    is_continuation c
    && ((nat_beq a 224 && leb 160 b && leb b 191)
        || (nat_beq a 237 && leb 128 b && leb b 159)
        || (leb 225 a && leb a 239 && not (nat_beq a 237) && is_continuation b))
is_one_rune (a ∷ b ∷ c ∷ d ∷ []) =
    is_continuation c
    && is_continuation d
    && ((nat_beq a 240 && leb 144 b && leb b 191)
        || (leb 241 a && leb a 243 && is_continuation b)
        || (nat_beq a 244 && leb 128 b && leb b 143))
is_one_rune _ = false

-- `([^b]+)` and the byte b: the group and what follows
abbrev until_byte : ℕ → Str → Option (Str × Str)
until_byte b [] = none
until_byte b (c ∷ s) =
    let rest = until_byte b s in
    if nat_beq c b then some ([], s) else elim rest [ none ↦ none | some p ↦ some (c ∷ p.0, p.1) ]

abbrev group {ℓ} : {A : Type ℓ} → ℕ → (Str → Str → Option A) → Str → Option A
group b f s = elim (until_byte b s) [ none ↦ none | some p ↦ if p.0 == [] then none else f p.0 p.1 ]

-- `(.*)` and what stands behind it, at the last place where that matches
abbrev any_group {ℓ} : {A : Type ℓ} → (Str → Str → Option A) → Str → Str → Option A
any_group f seen [] = f seen []
any_group f seen (c ∷ s) = or_else (any_group f (seen ++ c ∷ []) s) (f seen (c ∷ s))

-- `scalacErrorLine`: the build file and the target
unfoldable pub scalac_error_line : Str → Option (Str × Str)
scalac_error_line = after (codes "ERROR: ") (
    group 58 λ build_file. after_any (
      after (codes "scalac failed") (
        after_any
          (after (codes "(from target ") (group 41 λ target rest. some (build_file, target))))))

-- `symbolRequiredByLine`
unfoldable pub symbol_required_by_line : Str → Option Str
symbol_required_by_line =
    after (codes "This symbol is required by '")
      (group 39 λ symbol rest. if is_one_rune rest then some symbol else none)

abbrev missing_classpath : Str → Bool
missing_classpath s = elim (after (codes " is missing from the classpath") (λ rest. some rest) s) [
  | none ↦ false
  | some rest ↦ is_one_rune rest
]

-- `missingSymbolLine`: the source file and the symbol
unfoldable pub missing_symbol_line : Str → Option (Str × Str)
missing_symbol_line =
    any_group
      (λ file. after (codes ":") (
        after_digits (
          after (codes ": error: Symbol 'type ") (
            group 39 λ symbol rest. if missing_classpath rest then some (file, symbol) else none))))
      []

abbrev is_name_byte : ℕ → Bool
is_name_byte c = nat_beq c 95 || (leb 97 c && leb c 122) || (leb 65 c && leb c 90) || is_digit c

abbrev name_bytes : Str → Str × Str
name_bytes [] = ([], [])
name_bytes (c ∷ s) =
    let rest = name_bytes s in if is_name_byte c then (c ∷ rest.0, rest.1) else ([], c ∷ s)

-- `([A-Z][_a-zA-Z0-9]*) is not a member of package (.*)$`
abbrev member_name : Str → Option (Str × Str)
member_name [] = none
member_name (c ∷ s) =
    let name = name_bytes s in
    if leb 65 c && leb c 90
    then after (codes " is not a member of package ") (λ pkg. some (c ∷ name.0, pkg)) name.1
    else none

-- `notAMemberOfPackageLine`: the object and the package
unfoldable pub not_a_member_of_package_line : Str → Option (Str × Str)
not_a_member_of_package_line = after_any (
    after (codes ":")
      (after_digits (after (codes ": error: ") (after_any (after (codes " object ") member_name)))))

-- `buildozerLine`: the dep and the rule
unfoldable pub buildozer_line : Str → Option (Str × Str)
buildozer_line =
    after (codes "buildozer 'remove deps ")
      (group 39 λ dep. after (codes " ") λ rule_label. some (dep, rule_label))

-- The errors so far. `scalacError` points to the last of them: an assignment to its `Error` writes
-- there, and dereferences nil where there is none.
abbrev pub set_error : ErrorKind → List ScalacError → Outcome (List ScalacError)
set_error kind [] = panicked
set_error kind (e ∷ []) = returned (record e { error = some kind } ∷ [])
set_error kind (e ∷ f ∷ rest) = elim (set_error kind (f ∷ rest)) [
  | returned errors ↦ returned (e ∷ errors)
  | panicked ↦ panicked
]

-- the pattern that a line matches first
pub data Line : Type 0 where
  scalac_failed : Str → Str → Line
  required_by : Str → Line
  error_line : ErrorKind → Line
  other_line : Line

abbrev pair_line : (Str → Str → Line) → Option (Str × Str) → Line → Line
pair_line f none next = next
pair_line f (some p) next = f p.0 p.1

unfoldable pub read_line : Str → Line
read_line line =
    pair_line scalac_failed (scalac_error_line line) (elim (symbol_required_by_line line) [
      | some symbol ↦ required_by symbol
      | none ↦
          pair_line (λ file symbol. error_line (missing_symbol file symbol))
            (missing_symbol_line line)
            (pair_line (λ symbol pkg. error_line (not_a_member_of_package symbol pkg))
              (not_a_member_of_package_line line)
              (pair_line (λ dep label. error_line (buildozer_unused_dep dep label))
                (buildozer_line line) other_line))
    ])

-- the loop body; `missingSymbol` is nil at all times, so that writing to it panics
unfoldable pub scan_line : Line → List ScalacError → Outcome (List ScalacError)
scan_line (scalac_failed build_file target) errors = returned (
    errors
    ++ record {
      rule_label = trim_suffix target (codes "_testlib");
      build_file = build_file;
      error = none;
    }
      ∷ [])
scan_line (required_by symbol) errors = panicked
scan_line (error_line kind) errors = set_error kind errors
scan_line other_line errors = returned errors

unfoldable pub scan_errors : List Line → List ScalacError → Outcome (List ScalacError)
scan_errors [] errors = returned errors
scan_errors (line ∷ lines) errors = elim (scan_line line errors) [
  | returned errors' ↦ scan_errors lines errors'
  | panicked ↦ panicked
]

abbrev pub read_lines : List Str → List Line
read_lines [] = []
read_lines (line ∷ lines) = read_line (trim_space line) ∷ read_lines lines

-- `ScanOutput`; `none` is the scanner's error. An empty line matches no pattern.
unfoldable pub scan_output : Str → Outcome (Option (List ScalacError))
scan_output output = elim (scan_errors (read_lines (scan_lines output)) []) [
  | panicked ↦ panicked
  | returned errors ↦ returned (if scan_fails output then none else some errors)
]
