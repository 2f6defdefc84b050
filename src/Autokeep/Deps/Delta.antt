-- ===== src/Autokeep/Deps/Delta.antt =====
-- Which deps a delta adds and removes, and which label a symbol has after a merge.
use scala_gazelle.Prelude.{
  Str, str_has_eq, str_eq_iff, Bool, false, ◌||◌, Option, none, some, List, [], ◌∷◌, ◌++◌, codes,
  if◌then◌else◌, contains, or_else, Option-cases, inl, inr, ◌≡◌, refl, arith, append_assoc,
  append-nil,
}
use scala_gazelle.Prelude.Map
use scala_gazelle.Prelude.Map.{Assoc, get-put}
use scala_gazelle.Autokeep.Diagnostics.{
  ErrorKind, missing_symbol, not_a_member_of_package, buildozer_unused_dep, ScalacError, RuleDeps,
  DeltaDeps,
}
use scala_gazelle.Autokeep.Deps.{
  DepsMap, rule_deps, add_error, add_all_errors, make_delta_deps, CachedFile, CachedRule,
  put_symbols, put_file, put_files, merge_deps_from_cache,
}

-- the symbol that an error misses
abbrev pub missing : Option ErrorKind → Option Str
missing none = none
missing (some (missing_symbol file sym)) = some sym
missing (some (not_a_member_of_package symbol pkg)) = some (pkg ++ (codes "." ++ symbol))
missing (some (buildozer_unused_dep dep label)) = none

abbrev pub provider : DepsMap → Option Str → Option Str
provider deps none = none
provider deps (some sym) = Map.get sym deps

abbrev pub rule_of : ScalacError → Option Str → List RuleDeps
rule_of e none = []
rule_of e (some dep) = rule_deps e dep ∷ []

-- one rule for each error that misses a symbol with a label
abbrev pub provided_rules : DepsMap → List ScalacError → List RuleDeps
provided_rules deps [] = []
provided_rules deps (e ∷ errors) =
    rule_of e (provider deps (missing e.error)) ++ provided_rules deps errors

abbrev pub unused : Option ErrorKind → Option Str
unused none = none
unused (some (missing_symbol file sym)) = none
unused (some (not_a_member_of_package symbol pkg)) = none
unused (some (buildozer_unused_dep dep label)) = some dep

-- one rule for each error that names an unused dep
abbrev pub unused_rules : List ScalacError → List RuleDeps
unused_rules [] = []
unused_rules (e ∷ errors) = rule_of e (unused e.error) ++ unused_rules errors

add-add_error :
    (deps : DepsMap) (e : ScalacError) (kind : Option ErrorKind) (delta : DeltaDeps)
    → ((add_error deps e kind delta).add ≡ delta.add ++ rule_of e (provider deps (missing kind)))
      × ((add_error deps e kind delta).remove ≡ delta.remove ++ rule_of e (unused kind))
add-add_error deps e none delta = ground (arith, append-nil delta.add, append-nil delta.remove)
add-add_error deps e (some (missing_symbol file sym)) delta =
    elim (Option-cases (Map.get sym deps)) [
      | inl n ↦ ground (arith, n, append-nil delta.add, append-nil delta.remove)
      | inr (l, n) ↦ ground (arith, n, append-nil delta.remove)
    ]
add-add_error deps e (some (not_a_member_of_package symbol pkg)) delta =
    elim (Option-cases (Map.get (pkg ++ (codes "." ++ symbol)) deps)) [
      | inl n ↦ ground (arith, n, append-nil delta.add, append-nil delta.remove)
      | inr (l, n) ↦ ground (arith, n, append-nil delta.remove)
    ]
add-add_error deps e (some (buildozer_unused_dep dep label)) delta =
    ground (arith, append-nil delta.add)

add_all_errors_lem :
    (deps : DepsMap) (errors : List ScalacError) (delta : DeltaDeps)
    → ((add_all_errors deps errors delta).add ≡ delta.add ++ provided_rules deps errors)
      × ((add_all_errors deps errors delta).remove ≡ delta.remove ++ unused_rules errors)
unfolding add_all_errors
add_all_errors_lem deps [] delta = ground (arith, append-nil delta.add, append-nil delta.remove)
add_all_errors_lem deps (e ∷ errors) delta =
    let next = add_error deps e e.error delta in
    let here = add-add_error deps e e.error delta in
    let rest = add_all_errors_lem deps errors next in
    (
      ground (
        arith,
        rest.0,
        here.0,
        append_assoc delta.add (rule_of e (provider deps (missing e.error)))
            (provided_rules deps errors),
      ),
      ground (
        arith,
        rest.1,
        here.1,
        append_assoc delta.remove (rule_of e (unused e.error)) (unused_rules errors),
      ),
    )

-- A delta adds one rule for each error whose missing symbol has a label, with this label, and removes
-- one for each error that names an unused dep, with this dep, both in the order of the errors.
pub make_delta_deps_lem :
    (deps : DepsMap) (errors : List ScalacError)
    → ((make_delta_deps deps errors).add ≡ provided_rules deps errors)
      × ((make_delta_deps deps errors).remove ≡ unused_rules errors)
unfolding make_delta_deps
make_delta_deps_lem deps errors = add_all_errors_lem deps errors (record { add = []; remove = [] })

get-put_symbols :
    (label s : Str) (symbols : List Str) (deps : DepsMap)
    → Map.get s (put_symbols label symbols deps)
      ≡ (if contains s symbols then some label else Map.get s deps)
unfolding put_symbols
get-put_symbols label s [] deps = refl
get-put_symbols label s (t ∷ symbols) deps = ground (
  arith,
  get-put_symbols label s symbols (Map.put t label deps),
  get-put t s label deps,
  str_eq_iff t s,
  str_eq_iff s t,
)

abbrev pub in_file : Str → CachedFile → Bool
in_file s file =
    contains s file.classes
    || (contains s file.objects || (contains s file.traits || contains s file.types))

abbrev pub in_files : Str → List CachedFile → Bool
in_files s [] = false
in_files s (file ∷ files) = in_file s file || in_files s files

get-put_file :
    (label s : Str) (file : CachedFile) (deps : DepsMap)
    → Map.get s (put_file label file deps) ≡ (if in_file s file then some label else Map.get s deps)
get-put_file label s file deps =
    rw
      (
        get-put_symbols label s file.types,
        get-put_symbols label s file.traits,
        get-put_symbols label s file.objects,
        get-put_symbols label s file.classes deps,
      )
      (ground arith)

get-put_files :
    (label s : Str) (files : List CachedFile) (deps : DepsMap)
    → Map.get s (put_files label files deps)
      ≡ (if in_files s files then some label else Map.get s deps)
unfolding put_files
get-put_files label s [] deps = refl
get-put_files label s (file ∷ files) deps =
    rw (get-put_files label s files (put_file label file deps), get-put_file label s file deps)
      (ground arith)

-- the label of the last rule that has the symbol
abbrev pub last_label : Str → List CachedRule → Option Str
last_label s [] = none
last_label s (rule ∷ rules) =
    or_else (last_label s rules) (if in_files s rule.files then some rule.label else none)

-- After a merge a symbol has the label of the last rule of the cache with a class, an object, a trait
-- or a type of that name, and the label that it had before where no rule has one.
pub get-merge_deps_from_cache :
    (s : Str) (rules : List CachedRule) (deps : DepsMap)
    → Map.get s (merge_deps_from_cache rules deps) ≡ or_else (last_label s rules) (Map.get s deps)
unfolding merge_deps_from_cache
get-merge_deps_from_cache s [] deps = refl
get-merge_deps_from_cache s (rule ∷ rules) deps =
    rw
      (
        get-merge_deps_from_cache s rules (put_files rule.label rule.files deps),
        get-put_files rule.label s rule.files deps,
      )
      (elim (Option-cases (last_label s rules)) [
        | inl e ↦ ground (arith, e)
        | inr (l, e) ↦ ground (arith, e)
      ])
