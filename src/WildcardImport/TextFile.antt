-- ===== src/WildcardImport/TextFile.antt =====
-- pkg/wildcardimport/text_file.go: a file that is split at its import line. Files are their contents.
pub mod Rewrite
use scala_gazelle.Prelude.{
  Str, str_has_eq, ◌||◌, Option, none, some, List, [], ◌∷◌, ◌++◌, ◌==◌, if◌then◌else◌, codes, join,
  scan_lines,
}

pub record TextFile : Type 0 where
  pub before_lines : List Str
  pub target_line : Str
  pub after_lines : List Str

abbrev pub commented : Str → Str
commented line = codes "// " ++ line

-- one round of the loop over the lines
abbrev pub add_line : Str → Str → TextFile → TextFile
add_line target line file =
    if line == target || line == commented target
    then record file { target_line = target }
    else if file.target_line == []
    then record file { before_lines = file.before_lines ++ line ∷ [] }
    else record file { after_lines = file.after_lines ++ line ∷ [] }

unfoldable pub add_lines : Str → List Str → TextFile → TextFile
add_lines target [] file = file
add_lines target (line ∷ lines) file = add_lines target lines (add_line target line file)

abbrev pub new_file : TextFile
new_file = record { before_lines = []; target_line = []; after_lines = [] }

abbrev pub finish : TextFile → Option TextFile
finish file =
    if file.target_line == []
    then none
    else some (record file { after_lines = file.after_lines ++ [] ∷ [] })

-- `NewTextFileFromReader`; `none` is its `ImportLineNotFoundError`. An error of the scanner is not
-- looked at.
unfoldable pub new_text_file_from_reader : Str → Str → Option TextFile
new_text_file_from_reader content target = finish (add_lines target (scan_lines content) new_file)

-- `Write`: the new content of the file
unfoldable pub write : Str → TextFile → Str
write line f = join (codes "\n") ((f.before_lines ++ line ∷ []) ++ f.after_lines)

unfoldable pub write_original : TextFile → Str
write_original f = write f.target_line f

unfoldable pub write_commented : TextFile → Str
write_commented f = write (commented f.target_line) f
