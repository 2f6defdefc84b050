-- ===== src/Provider/Source/Named.antt =====
-- The names of the files that the source provider returns.
use scala_gazelle.Prelude.{
  Str, str_has_eq, str_eq_iff, true, Option, none, some, List, [], ◌∷◌, ◌++◌, ◌==◌, map, sort_by,
  All, All-append, contains, returned, panicked, Result, ok, failed, join_path, ◌≡◌, refl, arith,
  inl, inr, Bool-cases, Option-cases, sym, ap, ◌∙◌, subst,
}
use scala_gazelle.Prelude.Map
use scala_gazelle.Prelude.Map.{Assoc, get-put}
use scala_gazelle.Language.ScalaRule.{File}
use scala_gazelle.Provider.Source.{
  SourceProvider, add_fileset, Wanted, want_files, ParseResponse, Files, cons_file, rename_file,
  rename_files, behind, use_response, is_nil_map, parse_files,
}

-- each file stands under its own name
abbrev pub IsKeyed : SourceProvider → Type 0
IsKeyed r = (rel : Str) (file : File) → Map.get rel r.scala_files ≡ some file → file.filename ≡ rel

pub add_fileset-IsKeyed :
    (files : List File) (r : SourceProvider) → IsKeyed r → IsKeyed (add_fileset files r)
unfolding add_fileset
add_fileset-IsKeyed [] r k = k
add_fileset-IsKeyed (file ∷ files) r k =
    add_fileset-IsKeyed files (record { scala_files = Map.put file.filename file r.scala_files })
      (λ rel f e. ground (
        arith,
        e,
        k rel f,
        get-put file.filename rel file r.scala_files,
        str_eq_iff file.filename rel,
      ))

module _ (names : List Str) where
  -- the name of the file is one of the names
  abbrev pub IsNamed : File → Type 0
  IsNamed f = contains f.filename names ≡ true

  abbrev AreMapped : Assoc Str Str → Type 0
  AreMapped need = (abs rel : Str) → Map.get abs need ≡ some rel → contains rel names ≡ true

  abbrev Answers : Files → Type 0
  Answers o = (files : List File) → o ≡ returned (ok files) → All IsNamed files

  abbrev AreWanted : Wanted → Type 0
  AreWanted w = All IsNamed w.have_files × AreMapped w.need_filenames

  module _ (r : SourceProvider) (k : IsKeyed r) (dir pkg : Str) where
    abbrev next_wanted : Str → List Str → Wanted → Option File → Wanted
    next_wanted src srcs w none = want_files r dir pkg srcs (record w {
      need_filenames = Map.put (join_path dir src) (join_path pkg src) w.need_filenames;
    })
    next_wanted src srcs w (some file) =
        want_files r dir pkg srcs (record w { have_files = w.have_files ++ file ∷ [] })

    want_files-step :
        (src : Str) (srcs : List Str) (w : Wanted) (o : Option File)
        → Map.get (join_path pkg src) r.scala_files ≡ o
        → want_files r dir pkg (src ∷ srcs) w ≡ next_wanted src srcs w o
    unfolding want_files
    want_files-step src srcs w none e = rw (e, want_files) refl
    want_files-step src srcs w (some file) e = rw (e, want_files) refl

    want_files-AreWanted :
        (srcs : List Str) (w : Wanted)
        → All (λ src. contains (join_path pkg src) names ≡ true) srcs
        → AreWanted w
        → AreWanted (want_files r dir pkg srcs w)
    unfolding want_files
    want_files-AreWanted [] w n h = h
    want_files-AreWanted (src ∷ srcs) w n h =
        let rel = join_path pkg src in
        let abs = join_path dir src in
        elim (Option-cases (Map.get rel r.scala_files)) [
          | inl e ↦ subst AreWanted (sym (want_files-step src srcs w none e)) (
              want_files-AreWanted srcs
                (record w { need_filenames = Map.put abs rel w.need_filenames }) n.1
                (
                  h.0,
                  (λ a s q. ground (arith, q, n.0, h.1 a s, get-put abs a rel w.need_filenames)),
                ))
          | inr (file, e) ↦ subst AreWanted (sym (want_files-step src srcs w (some file) e)) (
              want_files-AreWanted srcs (record w { have_files = w.have_files ++ file ∷ [] }) n.1
                (
                  All-append IsNamed w.have_files (file ∷ []) h.0
                      (ap (λ s. contains s names) (k rel file e) ∙ n.0, tt),
                  h.1,
                ))
        ]

  cons_file-Answers :
      (file : File) (o : Files) → IsNamed file → Answers o → Answers (cons_file file o)
  cons_file-Answers file panicked n a fs e = ground arith
  cons_file-Answers file (returned (failed err)) n a fs e = ground arith
  cons_file-Answers file (returned (ok files)) n a fs e =
      let same : file ∷ files ≡ fs = ground (arith, e) in subst (All IsNamed) same (n, a files refl)

  rename_file-Answers :
      (file : File) (o : Option Str) (rest : Files)
      → ((rel : Str) → o ≡ some rel → contains rel names ≡ true)
      → Answers rest
      → Answers (rename_file file o rest)
  rename_file-Answers file none rest m a fs e = ground arith
  rename_file-Answers file (some rel) rest m a fs e =
      cons_file-Answers (record file { filename = rel }) rest (m rel refl) a fs e

  rename_files-Answers :
      (need : Assoc Str Str) (files : List (File × Str))
      → AreMapped need
      → Answers (rename_files need files)
  unfolding rename_files
  rename_files-Answers need [] m fs e =
      let same : [] ≡ fs = ground (arith, e) in subst (All IsNamed) same tt
  rename_files-Answers need ((file, error) ∷ files) m fs e =
      let rest = rename_files need files in
      elim (Bool-cases (error == [])) [
        | inl q ↦
            let same : rename_file file (Map.get file.filename need) rest ≡ returned (ok fs) =
              ground (arith, e, q) in
            rename_file-Answers file (Map.get file.filename need) rest (m file.filename)
              (rename_files-Answers need files m) fs same
        | inr q ↦ ground (arith, e, q)
      ]

  behind-Answers :
      (have : List File) (o : Files) → All IsNamed have → Answers o → Answers (behind have o)
  behind-Answers have panicked h a fs e = ground arith
  behind-Answers have (returned (failed err)) h a fs e = ground arith
  behind-Answers have (returned (ok files)) h a fs e =
      let same : have ++ files ≡ fs = ground (arith, e) in
      subst (All IsNamed) same (All-append IsNamed have files h (a files refl))

  use_response-Answers :
      (w : Wanted) (o : Result Str ParseResponse) → AreWanted w → Answers (use_response w o)
  use_response-Answers w (failed err) h fs e = ground arith
  use_response-Answers w (ok response) h fs e =
      let renamed = rename_files w.need_filenames response.files in
      elim (Bool-cases (response.error == [])) [
        | inl q ↦
            let same : behind w.have_files renamed ≡ returned (ok fs) = ground (arith, e, q) in
            behind-Answers w.have_files renamed h.0
              (rename_files-Answers w.need_filenames response.files h.1) fs same
        | inr q ↦ ground (arith, e, q)
      ]

contains-map :
    (g : Str → Str) (xs ys : List Str)
    → ((x : Str) → contains (g x) (map g xs) ≡ true → contains (g x) ys ≡ true)
    → All (λ x. contains (g x) ys ≡ true) xs
contains-map g [] ys h = tt
contains-map g (x ∷ xs) ys h = (
  h x (ground (arith, str_eq_iff (g x) (g x))),
  contains-map g xs ys (λ y e. h y (ground (arith, e))),
)

-- Let the provider have read a fileset, and let the parse of the sources of a rule return files. Then
-- each of them, from the fileset or from the parser, has as its name the path of one of the sources
-- below the package, relative to the workspace.
pub parse_files-IsNamed :
    (parse : List Str → Result Str ParseResponse) (fileset : List File) (dir pkg : Str)
    (srcs : List Str) (files : List File)
    → parse_files parse (add_fileset fileset (record { scala_files = [] })) dir pkg srcs
      ≡ returned (ok files)
    → All (IsNamed (map (join_path pkg) srcs)) files
unfolding parse_files
parse_files-IsNamed parse fileset dir pkg srcs files e =
    let r = add_fileset fileset (record { scala_files = [] }) in
    let names = map (join_path pkg) srcs in
    let w = want_files r dir pkg srcs (record { have_files = []; need_filenames = [] }) in
    let wanted : AreWanted names w =
      want_files-AreWanted names r
        (add_fileset-IsKeyed fileset (record { scala_files = [] }) (λ rel f q. ground arith)) dir
        pkg srcs (record { have_files = []; need_filenames = [] })
        (contains-map (join_path pkg) srcs names (λ x q. q)) (tt, (λ abs rel q. ground arith)) in
    elim (Bool-cases (is_nil_map w.need_filenames)) [
      | inl q ↦
          let same : w.have_files ≡ files = ground (arith, e, q) in
          subst (All (IsNamed names)) same wanted.0
      | inr q ↦
          let response = parse (sort_by (λ s. s) (Map.keys w.need_filenames)) in
          let same : use_response w response ≡ returned (ok files) = ground (arith, e, q) in
          use_response-Answers names w response wanted files same
    ]
