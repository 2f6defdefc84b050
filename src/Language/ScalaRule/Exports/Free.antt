-- ===== src/Language/ScalaRule/Exports/Free.antt =====
-- The exports of a rule have no conflicted symbols.
use scala_gazelle.Prelude.{
  ℕ, suc, Str, str_has_eq, ◌⊎◌, Option, none, some, List, [], ◌∷◌, index_byte, drop, returned, All,
  All-map, All-append, ◌≡◌, refl, arith, nat_beq, nat_beq_iff, Bool-cases, Option-cases, inl, inr,
  subst, ◌∙◌, Outcome-cases,
}
use scala_gazelle.Prelude.Map
use scala_gazelle.Label.{Label}
use scala_gazelle.Resolver.Symbol.{Ref, Store, require}
use scala_gazelle.Resolver.Scope
use scala_gazelle.Resolver.Scope.{Scope}
use scala_gazelle.Resolver.Import.{Import, is_self_import, new_extends_import}
use scala_gazelle.Resolver.ImportMap
use scala_gazelle.Resolver.ImportMap.{OrderedImportMap, is_set, put_import_if_not_self, empty}
use scala_gazelle.Language.ScalaRule.{File, FileContext, require_extended, sort_files}
use scala_gazelle.Language.ScalaRule.Exports.{
  Exported, export_symbol, export_class, export_classes, export_tokens, file_exports,
  all_file_exports, exports,
}

-- no symbol, or one without conflicts
abbrev pub IsFree : Store → Option Ref → Type 0
IsFree store none = Unit
IsFree store (some s) = (store.at s).conflicts ≡ []

abbrev pub AllFree : Exported → Type 0
AllFree (m, store) = All (λ imp. IsFree store imp.symbol) m.values

conflicts-require :
    (r s q : Ref) (store : Store) → ((require r s store).at q).conflicts ≡ (store.at q).conflicts
unfolding require
conflicts-require r s q store = ground (arith, nat_beq_iff r q)

AllFree-put :
    (store : Store) (from : Label) (imp : Import) (m : OrderedImportMap)
    → IsFree store imp.symbol
    → AllFree (m, store)
    → AllFree (put_import_if_not_self store from imp m, store)
unfolding put_import_if_not_self ImportMap.put
AllFree-put store from imp m f h =
    elim (Bool-cases (is_self_import store imp.symbol from.repo from.pkg from.name)) [
      | inl e ↦ rw e h
      | inr e ↦ elim (Bool-cases (is_set (Map.get imp.imp m.has))) [
        | inl g ↦ rw (e, g) h
        | inr g ↦ rw (e, g) (All-append (λ i. IsFree store i.symbol) m.values (imp ∷ []) h (f, tt))
      ]
    ]

conflicts-cases : (xs : List Ref) → (xs ≡ []) ⊎ ((x : Ref) × (rest : List Ref) × (xs ≡ x ∷ rest))
conflicts-cases [] = inl refl
conflicts-cases (x ∷ xs) = inr (x, xs, refl)

module _ (ctx : FileContext) where
  IsFree-require_extended :
      (r : Option Ref) (s : Ref) (store : Store) (o : Option Ref)
      → IsFree store o
      → IsFree (require_extended ctx r s store) o
  IsFree-require_extended none s store o h = h
  IsFree-require_extended (some r) s store none h = tt
  IsFree-require_extended (some r) s store (some q) h = elim (Bool-cases (nat_beq r s)) [
    | inl e ↦ rw e h
    | inr e ↦ rw e (conflicts-require r s q store ∙ h)
  ]

  AllFree-require_extended :
      (r : Option Ref) (s : Ref) (store : Store) (m : OrderedImportMap)
      → AllFree (m, store)
      → AllFree (m, require_extended ctx r s store)
  AllFree-require_extended r s store m h =
      All-map (λ i. IsFree store i.symbol) (λ i. IsFree (require_extended ctx r s store) i.symbol)
        m.values (λ i f. IsFree-require_extended r s store i.symbol f) h

  AllFree-export_symbol :
      (file : File) (name : Str) (r : Option Ref) (s : Ref) (m : OrderedImportMap) (store : Store)
      → AllFree (m, store)
      → AllFree (export_symbol ctx file name r s (store.at s).conflicts (m, store))
  unfolding new_extends_import
  AllFree-export_symbol file name r s m store h = elim (conflicts-cases (store.at s).conflicts) [
    | inl e ↦
        let imp = new_extends_import (store.at s).name file.filename name (some s) in
        rw e (
          AllFree-require_extended r s store (put_import_if_not_self store ctx.from imp m)
            (AllFree-put store ctx.from imp m e h))
    | inr (c, rest, e) ↦ rw e h
  ]

  AllFree-export_class :
      (file : File) (scope : Scope) (name : Str) (r : Option Ref) (imp : Str) (e : Exported)
      → AllFree e
      → AllFree (export_class ctx file scope name r imp e)
  unfolding new_extends_import
  AllFree-export_class file scope name r imp (m, store) h =
      elim (Option-cases (Scope.get_symbol store scope imp)) [
        | inl e ↦
            rw (export_class, e)
              (AllFree-put store ctx.from (new_extends_import imp file.filename name none) m tt h)
        | inr (s, e) ↦ rw (export_class, e) (AllFree-export_symbol file name r s m store h)
      ]

  AllFree-export_classes :
      (file : File) (scope : Scope) (name : Str) (r : Option Ref) (classes : List Str)
      (e : Exported)
      → AllFree e
      → AllFree (export_classes ctx file scope name r classes e)
  unfolding export_classes
  AllFree-export_classes file scope name r [] e h = h
  AllFree-export_classes file scope name r (imp ∷ classes) e h =
      AllFree-export_classes file scope name r classes (export_class ctx file scope name r imp e)
        (AllFree-export_class file scope name r imp e h)

  AllFree-export_tokens :
      (file : File) (scope : Scope) (tokens : List (Str × List Str)) (e out : Exported)
      → AllFree e
      → export_tokens ctx file scope tokens e ≡ returned out
      → AllFree out
  unfolding export_tokens
  AllFree-export_tokens file scope [] e out h q =
      let same : e ≡ out = ground (arith, q) in subst AllFree same h
  AllFree-export_tokens file scope ((token, classes) ∷ tokens) e out h q =
      elim (Option-cases (index_byte 32 token)) [
        | inl n ↦ ground (arith, n, q)
        | inr (i, n) ↦
            let name = drop (suc i) token in
            let r = Scope.get_symbol e.1 ctx.scope name in
            AllFree-export_tokens file scope tokens (export_classes ctx file scope name r classes e)
              out (AllFree-export_classes file scope name r classes e h) (ground (arith, n, q))
      ]

  AllFree-all_file_exports :
      (files : List File) (next : ℕ) (e out : Exported)
      → AllFree e
      → all_file_exports ctx files next e ≡ returned out
      → AllFree out
  unfolding all_file_exports file_exports
  AllFree-all_file_exports [] next e out h q =
      let same : e ≡ out = ground (arith, q) in subst AllFree same h
  AllFree-all_file_exports (file ∷ files) next e out h q =
      elim (Outcome-cases (file_exports ctx file next e)) [
        | inl n ↦ ground (arith, n, q)
        | inr (e', n) ↦
            AllFree-all_file_exports files (suc next) e' out
              (AllFree-export_tokens file _ _ e e' h n) (ground (arith, n, q))
      ]

-- Where `Exports` returns, every export has no symbol or one without conflicts.
pub exports-AllFree :
    (ctx : FileContext) (files : List File) (store : Store) (next : ℕ) (out : Exported)
    → exports ctx files store next ≡ returned out
    → AllFree out
unfolding exports
exports-AllFree ctx files store next out h =
    AllFree-all_file_exports ctx (sort_files files) next (empty, store) out tt h
