-- ===== src/Language/ScalaRule/Imports/Complete.antt =====
-- The imports of a rule: a consistent map that has the implicit imports of all its names.
use scala_gazelle.Prelude.{
  ℕ, Str, str_has_eq, true, ◌||◌, some, List, [], ◌∷◌, ◌++◌, codes, contains, contains-append, inl,
  inr, ◌≡◌, refl, arith, returned, Outcome-cases,
}
use scala_gazelle.Resolver.Symbol.{Store}
use scala_gazelle.Resolver.ImportMap.{OrderedImportMap, keys, empty}
use scala_gazelle.Resolver.ImportMap.Order.{IsConsistent}
use scala_gazelle.Language.ScalaRule.{File, FileContext, sort_files}
use scala_gazelle.Language.ScalaRule.Imports.{
  ImplicitImportSpec, get_implicit_imports, to_stack, put_main_class, all_file_imports,
  all_semantic_imports, imports,
}
use scala_gazelle.Language.ScalaRule.Imports.Closed.{gather-closed}
use scala_gazelle.Language.ScalaRule.Imports.Consistent.{
  all_semantic_imports-IsConsistent, all_file_imports-IsConsistent, put_main_class-IsConsistent,
}

contains-to_stack :
    (k : Str) (xs s : List Str) → contains k (to_stack xs s) ≡ (contains k xs || contains k s)
contains-to_stack k [] s = refl
contains-to_stack k (x ∷ xs) s = ground (arith, contains-to_stack k xs (x ∷ s))

-- Let `Imports` return, with its loop ended. For a name that is imported, or that the rule provides,
-- the map has each of the implicit imports of the name.
pub imports-closed :
    (ctx : FileContext) (specs : List ImplicitImportSpec) (main_class : Str) (files : List File)
    (provided : List Str) (store store' : Store) (next fuel : ℕ) (out : OrderedImportMap)
    (k d : Str)
    → imports ctx specs main_class files provided store next fuel ≡ returned (some out, store')
    → (contains k (keys out) || contains k provided) ≡ true
    → contains d (get_implicit_imports specs (codes "scala") k) ≡ true
    → contains d (keys out) ≡ true
unfolding imports
imports-closed ctx specs main_class files provided store store' next fuel out k d h hk hd =
    let begun = put_main_class main_class empty in
    elim (Outcome-cases (all_file_imports ctx (sort_files files) begun store next)) [
      | inl e ↦ ground (arith, e, h)
      | inr (p, e) ↦
          let all = all_semantic_imports ctx (sort_files files) p.1 p.0 in
          let c : IsConsistent all =
            all_semantic_imports-IsConsistent ctx (sort_files files) p.1 p.0 (
              all_file_imports-IsConsistent ctx (sort_files files) begun store next p
                (put_main_class-IsConsistent main_class) e) in
          let g =
            gather-closed (get_implicit_imports specs (codes "scala")) provided fuel
              (to_stack (keys all ++ provided) []) all out c
              (λ j i t. ground (
                arith,
                t,
                contains-to_stack j (keys all ++ provided) [],
                contains-append j (keys all) provided,
              ))
              (ground (arith, e, h)) in
          ground (arith, g k d, hk, hd)
    ]
