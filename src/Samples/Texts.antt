-- ===== src/Samples/Texts.antt =====
-- The text files and the fixer of pkg/wildcardimport, on small files.
use scala_gazelle.Prelude.{
  ◌≡◌, ◌≢◌, refl, arith, Str, codes, true, some, [], ◌∷◌, ◌++◌, if◌then◌else◌, has_substring, All,
  unlines, scan_lines, scan_fails, str_has_eq, trim_space, Bool-cases, inl, inr, subst,
}
use scala_gazelle.WildcardImport.TextFile.{
  TextFile, new_text_file_from_reader, write, write_original, write_commented, add_lines,
}
use scala_gazelle.WildcardImport.TextFile.Rewrite.{new_text_file_from_reader-write}
use scala_gazelle.WildcardImport.Scanner.{scan, scan_into, not_found_line}
use scala_gazelle.WildcardImport.Fixer.{World, out_of_fuel, fix_file}
use scala_gazelle.WildcardImport.Fixer.Rounds.{In}
use scala_gazelle.WildcardImport.Fixer.Outcome.{Mentions, fix_file-ends}

abbrev import_all : Str
import_all = codes "import a._"

abbrev a_file : Str
a_file = unlines (codes "package p" ∷ import_all ∷ codes "class C" ∷ [])

abbrev split_file : TextFile
split_file = record {
  before_lines = codes "package p" ∷ [];
  target_line = import_all;
  after_lines = codes "class C" ∷ [] ∷ [];
}

read_a_file : new_text_file_from_reader a_file import_all ≡ some split_file
unfolding new_text_file_from_reader scan_lines add_lines
read_a_file = refl

new_text_file_from_reader-write_example :
    (new_text_file_from_reader (write_original split_file) import_all ≡ some split_file)
    × (new_text_file_from_reader (write_commented split_file) import_all ≡ some split_file)
new_text_file_from_reader-write_example =
    new_text_file_from_reader-write import_all a_file split_file refl (refl, refl, refl)
      (refl, refl, refl) refl read_a_file

abbrev missing_b : Str
missing_b = codes "C.scala:3: error: not found: type B" ++ 10 ∷ []

-- the build fails as long as the import is commented out
abbrev needs_b : World
needs_b = record {
  build =
      λ i content. if has_substring content (codes "// import") then (missing_b, 1) else ([], 0);
  can_write = λ i. true;
  range = λ i keys. keys;
}

abbrev fixed_file : Str
fixed_file = write (codes "import a.B") split_file

scan-missing_b : scan missing_b ≡ some (codes "B" ∷ [])
unfolding scan scan_into not_found_line scan_lines scan_fails trim_space
scan-missing_b = refl

scan_nothing : scan [] ≡ some []
unfolding scan scan_into scan_lines scan_fails
scan_nothing = refl

-- what the fixer can be told is missing
needs_b-Mentions : Mentions needs_b split_file (codes "a") (codes "B" ∷ [])
needs_b-Mentions i content symbols h =
    elim (Bool-cases (has_substring content (codes "// import"))) [
      | inl e ↦
          let same : codes "B" ∷ [] ≡ symbols = ground (arith, e, h, scan-missing_b) in
          subst (λ found. All (In (codes "B" ∷ [])) found) same (refl, tt)
      | inr e ↦
          let same : [] ≡ symbols = ground (arith, e, h, scan_nothing) in
          subst (λ found. All (In (codes "B" ∷ [])) found) same tt
    ]

fix_file-ends_example : fix_file needs_b split_file (codes "a") 3 a_file ≢ out_of_fuel
fix_file-ends_example =
    fix_file-ends needs_b split_file (codes "a") (codes "B" ∷ []) 3 a_file needs_b-Mentions
      (omega arith)
