-- ===== src/WildcardImport/Fixer.antt =====
-- pkg/wildcardimport/fixer.go: build, comment the import out, and import what the build misses until
-- it succeeds.
pub mod Rounds
pub mod Outcome
use scala_gazelle.Prelude.{
  ℕ, zero, suc, ◌+◌, Str, str_has_eq, Bool, true, false, ◌||◌, not, Option, none, some, List, [],
  ◌∷◌, ◌++◌, ◌==◌, codes, if◌then◌else◌, contains, sort_by, join, nat_beq,
}
use scala_gazelle.WildcardImport.TextFile.{
  TextFile, write, write_original, write_commented, new_text_file_from_reader,
}
use scala_gazelle.WildcardImport.Scanner.{scan}

-- What the loop asks of its surroundings, in an iteration: the output and the exit code of the build of
-- the file with these contents, and whether the file can be written.
pub record World : Type 0 where
  pub build : ℕ → Str → Str × ℕ
  pub can_write : ℕ → Bool
  -- the order in which Go ranges over a map, from the order in which its keys were added
  pub range : ℕ → List Str → List Str

pub data FixError : Type 0 where
  cannot_write must_build_first cannot_scan no_new_result bad_import_line : FixError

-- the result, and the contents of the file at the return
pub data Fix : Type 0 where
  fixed : List Str → Str → Fix
  failed : FixError → Str → Fix
  out_of_fuel : Fix

abbrev import_line : Str → List Str → Option Str
import_line import_prefix [] = none
import_line import_prefix (s ∷ []) = some (codes "import " ++ (import_prefix ++ (codes "." ++ s)))
import_line import_prefix (s ∷ t ∷ more) = some (
    codes "import "
    ++ (import_prefix
        ++ (codes ".{" ++ (join (codes ", ") (sort_by (λ x. x) (s ∷ t ∷ more)) ++ codes "}"))))

-- `makeImportLine`
unfoldable pub make_import_line : Str → List Str → Option Str
make_import_line import_prefix symbols =
    if import_prefix == [] then none else import_line import_prefix symbols

abbrev pub add_symbol : Str → List Str → List Str
add_symbol sym completion = if contains sym completion then completion else completion ++ sym ∷ []

-- the loop over the symbols: the set with them, and `hasNewResult`
unfoldable pub add_symbols : List Str → List Str → List Str × Bool
add_symbols [] completion = (completion, false)
add_symbols (sym ∷ symbols) completion =
    let (all, has_new_result) = add_symbols symbols (add_symbol sym completion) in
    (all, not (contains sym completion) || has_new_result)

module _ (w : World) (tf : TextFile) (import_prefix : Str) where
  -- the end of a round: the import of what is known to be missing is written
  abbrev pub write_import : ℕ → List Str → Str → (Str → Fix) → Fix
  write_import iteration completion content next =
      elim (make_import_line import_prefix (w.range iteration completion)) [
        | none ↦ failed bad_import_line content
        | some line ↦
            if w.can_write iteration then next (write line tf) else failed cannot_write content
      ]

  -- the iterations after the first. `content` is what the file has.
  unfoldable pub fix_rounds : ℕ → ℕ → List Str → Str → Fix
  fix_rounds zero iteration completion content = out_of_fuel
  fix_rounds (suc fuel) iteration completion content =
      elim (nat_beq (w.build iteration content).1 0) [
        | true ↦ fixed (w.range iteration completion) content
        | false ↦ elim (scan (w.build iteration content).0) [
          | none ↦ failed cannot_scan content
          | some symbols ↦ elim (add_symbols symbols completion).1 [
            | false ↦ failed no_new_result content
            | true ↦ write_import iteration (add_symbols symbols completion).0 content λ content'.
                fix_rounds fuel (suc iteration) (add_symbols symbols completion).0 content'
          ]
        ]
      ]

  -- `fixFile`; the contents of the file are `content`. Iteration 0 builds the original file, and
  -- iteration 1 begins with the import commented out.
  unfoldable pub fix_file : ℕ → Str → Fix
  fix_file fuel content =
      if not (w.can_write 0)
      then failed cannot_write content
      else if not (nat_beq (w.build 0 (write_original tf)).1 0)
      then failed must_build_first (write_original tf)
      else if not (w.can_write 1)
      then failed cannot_write (write_original tf)
      else fix_rounds fuel 1 [] (write_commented tf)

-- `Fix`, for a file that can be opened: without the import line there is nothing to do.
unfoldable pub fix : World → ℕ → Str → Str → Fix
fix w fuel import_prefix content =
    let target_line = codes "import " ++ (import_prefix ++ codes "._") in
    elim (new_text_file_from_reader content target_line) [
      | none ↦ fixed [] content
      | some tf ↦ fix_file w tf import_prefix fuel content
    ]
