-- ===== src/Autokeep/Scanner/Scanned.antt =====
-- When the scan of an output panics, and what it finds otherwise.
use scala_gazelle.Prelude.{
  Bool, true, false, not, ◌||◌, Option, none, some, List, [], ◌∷◌, ◌++◌, ◌≡◌, refl, arith,
  if◌then◌else◌, Outcome, returned, panicked, codes, trim_suffix, append_assoc,
}
use scala_gazelle.Autokeep.Diagnostics.{ErrorKind, ScalacError}
use scala_gazelle.Autokeep.Scanner.{
  Line, scalac_failed, required_by, error_line, other_line, set_error, scan_line, scan_errors,
}

-- what the lines say that follow the line of a failed target, up to the next: the last error
abbrev pub last_error : List Line → Option ErrorKind → Option ErrorKind
last_error [] found = found
last_error (scalac_failed build_file target ∷ lines) found = found
last_error (error_line kind ∷ lines) found = last_error lines (some kind)
last_error (required_by symbol ∷ lines) found = last_error lines found
last_error (other_line ∷ lines) found = last_error lines found

-- one error for each failed target
abbrev pub errors_of : List Line → List ScalacError
errors_of [] = []
errors_of (scalac_failed build_file target ∷ lines) =
    record {
      rule_label = trim_suffix target (codes "_testlib");
      build_file = build_file;
      error = last_error lines none;
    }
    ∷ errors_of lines
errors_of (required_by symbol ∷ lines) = errors_of lines
errors_of (error_line kind ∷ lines) = errors_of lines
errors_of (other_line ∷ lines) = errors_of lines

-- a line that names who requires a symbol, or an error before the first failed target
abbrev pub derefs_nil : Bool → List Line → Bool
derefs_nil begun [] = false
derefs_nil begun (scalac_failed build_file target ∷ lines) = derefs_nil true lines
derefs_nil begun (required_by symbol ∷ lines) = true
derefs_nil begun (error_line kind ∷ lines) = let rest = derefs_nil begun lines in not begun || rest
derefs_nil begun (other_line ∷ lines) = derefs_nil begun lines

set_error-snoc :
    (kind : ErrorKind) (errors : List ScalacError) (e : ScalacError)
    → set_error kind (errors ++ e ∷ []) ≡ returned (errors ++ record e { error = some kind } ∷ [])
set_error-snoc kind [] e = refl
set_error-snoc kind (x ∷ []) e = refl
set_error-snoc kind (x ∷ y ∷ errors) e = rw (set_error-snoc kind (y ∷ errors) e) refl

-- the scan from an error that is being filled
abbrev filled : List ScalacError → ScalacError → List Line → Outcome (List ScalacError)
filled done e lines =
    if derefs_nil true lines
    then panicked
    else returned (done ++ record e { error = last_error lines e.error } ∷ errors_of lines)

scan_errors-begun :
    (lines : List Line) (done : List ScalacError) (e : ScalacError)
    → scan_errors lines (done ++ e ∷ []) ≡ filled done e lines
unfolding scan_errors scan_line
scan_errors-begun [] done e = refl
scan_errors-begun (scalac_failed build_file target ∷ lines) done e = ground (
  arith,
  scan_errors-begun lines (done ++ e ∷ []) (record {
    rule_label = trim_suffix target (codes "_testlib");
    build_file = build_file;
    error = none;
  }),
  append_assoc done (e ∷ []) (
      record {
        rule_label = trim_suffix target (codes "_testlib");
        build_file = build_file;
        error = last_error lines none;
      }
      ∷ errors_of lines),
)
scan_errors-begun (required_by symbol ∷ lines) done e = refl
scan_errors-begun (error_line kind ∷ lines) done e =
    rw (scan_errors, set_error-snoc kind done e)
      (scan_errors-begun lines done (record e { error = some kind }))
scan_errors-begun (other_line ∷ lines) done e = scan_errors-begun lines done e

-- The scan dereferences nil exactly if some line names who requires a symbol, or an error comes before
-- the first failed target. Otherwise it has one error for each failed target, with the last of the
-- messages up to the next failed target.
pub scan_errors_lem :
    (lines : List Line)
    → scan_errors lines []
      ≡ (if derefs_nil false lines then panicked else returned (errors_of lines))
unfolding scan_errors scan_line
scan_errors_lem [] = refl
scan_errors_lem (scalac_failed build_file target ∷ lines) = scan_errors-begun lines [] (record {
  rule_label = trim_suffix target (codes "_testlib");
  build_file = build_file;
  error = none;
})
scan_errors_lem (required_by symbol ∷ lines) = refl
scan_errors_lem (error_line kind ∷ lines) = refl
scan_errors_lem (other_line ∷ lines) = scan_errors_lem lines
