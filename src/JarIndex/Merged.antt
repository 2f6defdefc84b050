-- ===== src/JarIndex/Merged.antt =====
-- The merged index: one jar for each label, without the symbols that need no resolution.
use scala_gazelle.Prelude.{
  Str, str_has_eq, Bool, false, not, ◌&&◌, ◌||◌, List, [], ◌∷◌, ◌++◌, ◌==◌, codes, if◌then◌else◌,
  contains, contains-append, ◌≡◌, refl, arith, append-nil, append_assoc, Bool-cases, inl, inr, map,
}
use scala_gazelle.JarIndex.{
  ClassFile, JarFile, Merge, visit_jar_file, add_jar_file, add_jar_files, class_names, resolvable,
  strip_class_files, strip_jar_files, new_merge, merge_jar_files,
}

-- the first jar for each label that is not seen
unfoldable pub first_jars : List Str → List JarFile → List JarFile
first_jars seen [] = []
first_jars seen (jar ∷ jars) =
    let later = first_jars seen jars in
    if contains jar.label seen then later else jar ∷ first_jars (jar.label ∷ seen) jars

jar_file-visit :
    (predefined : List Str) (jar : JarFile) (m : Merge)
    → ((visit_jar_file predefined jar m).jar_file ≡ m.jar_file)
      × ((visit_jar_file predefined jar m).labels ≡ m.labels)
unfolding visit_jar_file
jar_file-visit predefined jar m = ground arith

jar_file-add_jar_files :
    (predefined : List Str) (jars : List JarFile) (m : Merge)
    → (add_jar_files predefined jars m).jar_file ≡ m.jar_file ++ first_jars m.labels jars
unfolding add_jar_files first_jars
jar_file-add_jar_files predefined [] m = rw (append-nil m.jar_file) refl
jar_file-add_jar_files predefined (jar ∷ jars) m = elim (Bool-cases (contains jar.label m.labels)) [
  | inl e ↦
      ground (arith, e, jar_file-add_jar_files predefined jars (add_jar_file predefined jar m))
  | inr e ↦ ground (
    arith,
    e,
    jar_file-add_jar_files predefined jars (add_jar_file predefined jar m),
    jar_file-visit predefined jar (record m { labels = jar.label ∷ m.labels }),
    append_assoc m.jar_file (jar ∷ []) (first_jars (jar.label ∷ m.labels) jars),
  )
]

-- the jar is read: it has a label and a file name
abbrev pub is_read : JarFile → Bool
is_read jar = not (jar.label == []) && not (jar.filename == [])

-- some jar whose label is predefined has the class
abbrev pub has_predefined : List Str → Str → List JarFile → Bool
has_predefined predefined sym [] = false
has_predefined predefined sym (jar ∷ jars) =
    (is_read jar && (contains jar.label predefined && contains sym (class_names jar.class_file)))
    || has_predefined predefined sym jars

symbols-visit :
    (predefined : List Str) (sym : Str) (jar : JarFile) (m : Merge)
    → contains sym (visit_jar_file predefined jar m).predefined_symbols ≡ (
        contains sym m.predefined_symbols
        || (is_read jar
            && (contains jar.label predefined && contains sym (class_names jar.class_file))))
unfolding visit_jar_file
symbols-visit predefined sym jar m =
    ground (arith, contains-append sym m.predefined_symbols (class_names jar.class_file))

symbols-add_jar_files :
    (predefined : List Str) (sym : Str) (jars : List JarFile) (m : Merge)
    → contains sym (add_jar_files predefined jars m).predefined_symbols ≡ (
        contains sym m.predefined_symbols
        || has_predefined predefined sym (first_jars m.labels jars))
unfolding add_jar_files first_jars
symbols-add_jar_files predefined sym [] m = ground arith
symbols-add_jar_files predefined sym (jar ∷ jars) m =
    elim (Bool-cases (contains jar.label m.labels)) [
      | inl e ↦
          ground
            (arith, e, symbols-add_jar_files predefined sym jars (add_jar_file predefined jar m))
      | inr e ↦ ground (
        arith,
        e,
        symbols-add_jar_files predefined sym jars (add_jar_file predefined jar m),
        jar_file-visit predefined jar (record m { labels = jar.label ∷ m.labels }),
        symbols-visit predefined sym jar (record m { labels = jar.label ∷ m.labels }),
      )
    ]

-- which symbols need no resolution
abbrev pub is_predefined : List Str → List JarFile → Str → Bool
is_predefined predefined jars sym =
    sym == codes "java.lang.Object" || has_predefined predefined sym (first_jars [] jars)

unfoldable pub remove_symbols : (Str → Bool) → List Str → List Str
remove_symbols p [] = []
remove_symbols p (sym ∷ symbols) =
    let rest = remove_symbols p symbols in if p sym then rest else sym ∷ rest

abbrev pub remove_from_class : (Str → Bool) → ClassFile → ClassFile
remove_from_class p file = record file { symbols = remove_symbols p file.symbols }

abbrev pub remove_from_jar : (Str → Bool) → JarFile → JarFile
remove_from_jar p jar = record jar { class_file = map (remove_from_class p) jar.class_file }

module _ (removed : List Str) (p : Str → Bool)
    (h : (sym : Str) → contains sym removed ≡ p sym) where
  resolvable_lem : (symbols : List Str) → resolvable removed symbols ≡ remove_symbols p symbols
  unfolding remove_symbols
  resolvable_lem [] = refl
  resolvable_lem (sym ∷ symbols) = ground (arith, h sym, resolvable_lem symbols)

  strip_class_files_lem :
      (files : List ClassFile) → strip_class_files removed files ≡ map (remove_from_class p) files
  strip_class_files_lem [] = refl
  strip_class_files_lem (file ∷ files) =
      rw (resolvable_lem file.symbols, strip_class_files_lem files) refl

  strip_jar_files_lem :
      (jars : List JarFile) → strip_jar_files removed jars ≡ map (remove_from_jar p) jars
  strip_jar_files_lem [] = refl
  strip_jar_files_lem (jar ∷ jars) =
      rw (strip_class_files_lem jar.class_file, strip_jar_files_lem jars) refl

-- The index has the first jar for each label, in the order of the input, and of the symbols that their
-- classes need it has those that are neither java.lang.Object nor a class of a jar in the index that
-- has a file name and one of the predefined labels.
pub merge_jar_files_lem :
    (predefined : List Str) (jars : List JarFile)
    → (merge_jar_files predefined jars).0
      ≡ map (remove_from_jar (is_predefined predefined jars)) (first_jars [] jars)
unfolding merge_jar_files
merge_jar_files_lem predefined jars = rw (jar_file-add_jar_files predefined jars new_merge) (
    strip_jar_files_lem (add_jar_files predefined jars new_merge).predefined_symbols
      (is_predefined predefined jars)
      (λ sym. ground (arith, symbols-add_jar_files predefined sym jars new_merge))
      (first_jars [] jars))
