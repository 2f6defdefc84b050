-- ===== src/Provider/Semanticdb/Doubled.antt =====
-- The semantic imports of the files that the source provider returns.
use scala_gazelle.Prelude.{
  Str, str_has_eq, str_eq_iff, true, none, List, [], ◌∷◌, map, All, contains, returned, Result, ok,
  join_path, ◌≡◌, refl, arith, ap, ap₂, sym, subst, All-map, inl, inr, Bool-cases,
}
use scala_gazelle.Prelude.Map
use scala_gazelle.Prelude.Map.{Assoc}
use scala_gazelle.Language.ScalaRule.{File}
use scala_gazelle.Provider.Source.{add_fileset, ParseResponse, parse_files}
use scala_gazelle.Provider.Source.Named.{IsNamed, parse_files-IsNamed}
use scala_gazelle.Provider.Semanticdb.{with_semantic_imports, visit_file, visit_files}

module _ (index : Assoc Str File) (pkg : Str) where
  -- there is nothing under the name with the package before it
  abbrev IsMissing : Str → Type 0
  IsMissing name = Map.get (join_path pkg name) index ≡ none

  IsMissing-filename :
      (f : File) (g : Str → Str) (srcs : List Str)
      → contains f.filename (map g srcs) ≡ true
      → All (λ src. IsMissing (g src)) srcs
      → IsMissing f.filename
  IsMissing-filename f g [] e h = ground arith
  IsMissing-filename f g (src ∷ srcs) e h = elim (Bool-cases (contains f.filename (map g srcs))) [
    | inl q ↦ IsMissing-filename f g srcs q h.1
    | inr q ↦
        let same : g src ≡ f.filename =
          sym ((str_eq_iff f.filename (g src)).0 (ground (arith, e, q))) in
        subst IsMissing same h.0
  ]

  visit_files_missing :
      (fs : List File) → All (λ f. IsMissing f.filename) fs → visit_files index pkg fs ≡ fs
  unfolding visit_files visit_file
  visit_files_missing [] h = refl
  visit_files_missing (f ∷ fs) h =
      ap₂ (λ x xs. x ∷ xs) (ap (with_semantic_imports f) h.0) (visit_files_missing fs h.1)

-- Let the parse of the sources of a rule return files, and let the index have nothing under the names
-- that have the package twice: the package before the path of a source, which begins with the package
-- already. Then the visit of the files gives none of them semantic imports: it returns them as they
-- are, whatever the index has under their own names.
pub visit_files-parse_files :
    (parse : List Str → Result Str ParseResponse) (fileset : List File) (dir pkg : Str)
    (srcs : List Str) (files : List File) (index : Assoc Str File)
    → parse_files parse (add_fileset fileset (record { scala_files = [] })) dir pkg srcs
      ≡ returned (ok files)
    → All (λ src. Map.get (join_path pkg (join_path pkg src)) index ≡ none) srcs
    → visit_files index pkg files ≡ files
visit_files-parse_files parse fileset dir pkg srcs files index e h =
    visit_files_missing index pkg files (
      All-map (IsNamed (map (join_path pkg) srcs)) (λ f. IsMissing index pkg f.filename) files
        (λ f n. IsMissing-filename index pkg f (join_path pkg) srcs n h)
        (parse_files-IsNamed parse fileset dir pkg srcs files e))
