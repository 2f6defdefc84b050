-- ===== src/WildcardImport/Scanner.antt =====
-- pkg/wildcardimport/scanner.go: the symbols that the output of a build reports as not found.
use scala_gazelle.Prelude.{
  ℕ, Str, str_has_eq, Bool, ◌&&◌, Option, none, some, List, [], ◌∷◌, codes, if◌then◌else◌, contains,
  sort_by, leb, or_else, trim_space, scan_lines, scan_fails, after, after_any, after_digits,
}

abbrev is_upper : ℕ → Bool
is_upper c = leb 65 c && leb c 90

-- `([A-Z].*)$`
abbrev upper_name : Str → Option Str
upper_name [] = none
upper_name (c ∷ s) = if is_upper c then some (c ∷ s) else none

-- `notFoundLine`, its third group
unfoldable pub not_found_line : Str → Option Str
not_found_line = after_any (
    after (codes ":") (
      after_digits (
        after (codes ": error: ") (
          after_any (
            after (codes "not found: ") λ s.
              or_else (after (codes "value ") upper_name s)
                (after (codes "type ") upper_name s))))))

-- the loop over the lines; the set is a list without duplicates
unfoldable pub scan_into : List Str → List Str → List Str
scan_into [] not_found = not_found
scan_into (line ∷ lines) not_found = elim (not_found_line (trim_space line)) [
  | none ↦ scan_into lines not_found
  | some sym ↦ scan_into lines (if contains sym not_found then not_found else sym ∷ not_found)
]

-- `outputScanner.scan`; `none` is the scanner's error
unfoldable pub scan : Str → Option (List Str)
scan output =
    if scan_fails output then none else some (sort_by (λ s. s) (scan_into (scan_lines output) []))
