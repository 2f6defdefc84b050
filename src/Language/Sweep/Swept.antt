-- ===== src/Language/Sweep/Swept.antt =====
-- How a sweep ends.
use scala_gazelle.Prelude.{
  ℕ, zero, suc, ◌≤◌, Str, str_has_eq, Bool, true, false, Option, none, some, List, [], ◌∷◌, ◌++◌,
  if◌then◌else◌, length, length-append, returned, ok, ◌≡◌, refl, arith, inl, inr, Bool-cases,
  Option-cases, sym, ap, subst,
}
use mathlib.Core.List.Perm
use scala_gazelle.Collections.Slice.{at, slice_remove_index}
use scala_gazelle.ScalaConfig.MergeDeps.{Expr}
use scala_gazelle.Language.Sweep.{
  transitive_value, has_transitive_deps, list_expr, Swept, try_without, sweep_loop,
  sweep_transitive,
}
use scala_gazelle.Language.Sweep.Needed.{
  around, AreNeeded, AreNeeded-removed, AreNeeded-kept, IsMonotone,
}
use scala_gazelle.Language.Sweep.Moved.{IsSwept, IsSwept-removed, transitive_values}

at-below : (i : ℕ) (xs : List Expr) → suc i ≤ length xs → (x : Expr) × (at i xs ≡ some x)
unfolding at
at-below i [] h = ground arith
at-below zero (x ∷ xs) h = (x, refl)
at-below (suc i) (x ∷ xs) h = at-below i xs (ground arith)

module _ (builds : List Expr → Bool) where
  abbrev Ends : List Expr → List Str → Swept → Type 0
  Ends deps junk o =
      (deps' : List Expr) × ((junk' : List Str) × ((o ≡ returned (ok (deps', junk')))
          × IsSwept builds deps junk deps' junk'))

  module _ (save : List Expr → Option Str) (saves : (deps : List Expr) → save deps ≡ none)
      (mono : IsMonotone builds) where
    tried :
        (shorter : List Expr) (c : Bool) (next : List Expr → Swept) (keep : Swept)
        → builds shorter ≡ c
        → try_without builds save (returned shorter) next keep ≡ (if c then next shorter else keep)
    tried shorter c next keep e = rw (saves shorter, e) refl

    skip-step :
        (i : ℕ) (deps : List Expr) (junk : List Str) (e : Expr)
        → at i deps ≡ some e
        → transitive_value e ≡ none
        → sweep_loop builds save (suc i) deps junk ≡ sweep_loop builds save i deps junk
    unfolding sweep_loop
    skip-step i deps junk e a t = rw (a, t, sweep_loop) refl

    try-step :
        (i : ℕ) (deps : List Expr) (junk : List Str) (e : Expr) (value : Str) (shorter : List Expr)
        (c : Bool)
        → at i deps ≡ some e
        → transitive_value e ≡ some value
        → slice_remove_index deps i ≡ returned shorter
        → builds shorter ≡ c
        → sweep_loop builds save (suc i) deps junk ≡ (
            if c
            then sweep_loop builds save i shorter (junk ++ value ∷ [])
            else sweep_loop builds save i deps junk)
    unfolding sweep_loop
    try-step i deps junk e value shorter c a t d b =
        rw (a, t, d, sweep_loop)
          (tried shorter c (λ l. sweep_loop builds save i l (junk ++ value ∷ []))
            (sweep_loop builds save i deps junk) b)

    ends :
        (i : ℕ) (deps : List Expr) (junk : List Str)
        → i ≤ length deps
        → builds deps ≡ true
        → AreNeeded builds i deps
        → Ends deps junk (sweep_loop builds save i deps junk)
    unfolding sweep_loop
    ends zero deps junk h b needed =
        let swept : IsSwept builds deps junk deps junk = record {
          still_builds = b;
          all_needed = needed;
          same_others = refl;
          moved = Perm.refl (transitive_values deps ++ junk);
        } in
        (deps, (junk, (rw (saves deps) refl, swept)))
    ends (suc i) deps junk h b needed =
        let found = at-below i deps h in
        let e = found.0 in
        let r = around i deps e found.1 in
        let low : i ≤ length deps = ground (arith, h) in
        elim (Option-cases (transitive_value e)) [
          | inl t ↦ subst (Ends deps junk) (sym (skip-step i deps junk e found.1 t)) (
              ends i deps junk low b
                (AreNeeded-kept builds i deps e r (λ value q. ground (arith, t, q)) needed))
          | inr (value, t) ↦
              let shorter = r.before ++ r.behind in
              let room : i ≤ length shorter =
                ground (arith, r.place, length-append r.before r.behind) in
              elim (Bool-cases (builds shorter)) [
                | inl c ↦
                    let res =
                      ends i shorter (junk ++ value ∷ []) room c
                        (AreNeeded-removed builds i deps e r mono needed) in
                    subst (Ends deps junk)
                      (sym (try-step i deps junk e value shorter true found.1 t r.removed c))
                      (
                        res.0,
                        (
                          res.1.0,
                          (
                            res.1.1.0,
                            IsSwept-removed builds i deps e value r junk res.0 res.1.0 t res.1.1.1,
                          ),
                        ),
                      )
                | inr c ↦
                    subst (Ends deps junk)
                      (sym (try-step i deps junk e value shorter false found.1 t r.removed c))
                      (ends i deps junk low b (AreNeeded-kept builds i deps e r (λ v q. c) needed))
              ]
        ]

has_transitive_deps-middle :
    (b k : List Expr) (x : Expr) (value : Str)
    → transitive_value x ≡ some value
    → has_transitive_deps (b ++ x ∷ k) ≡ true
unfolding has_transitive_deps
has_transitive_deps-middle [] k x value t = ground (arith, t)
has_transitive_deps-middle (y ∷ b) k x value t =
    ground (arith, has_transitive_deps-middle b k x value t)

-- Let more deps never break a build, let saving the file not fail, and let the rule build with its
-- deps. Then the sweep ends with a list with which the rule builds, and without any one of the deps
-- in it that have the comment for transitive deps it does not build; the other items are as they
-- were; and the deps that are left with the comment, and those returned as junk, are those that had
-- the comment before, each as often.
pub sweep_transitive_lem :
    (builds : List Expr → Bool) (save : List Expr → Option Str)
    → ((deps : List Expr) → save deps ≡ none)
    → IsMonotone builds
    → (deps : List Expr) → builds deps ≡ true
    → (deps' : List Expr) × ((junk : List Str) × ((sweep_transitive builds save
              (some (list_expr deps))
            ≡ returned (ok (deps', junk)))
          × IsSwept builds deps [] deps' junk))
unfolding sweep_transitive
sweep_transitive_lem builds save saves mono deps b = elim (Bool-cases (has_transitive_deps deps)) [
  | inl h ↦ subst (Ends builds deps []) (sym (ground (arith, h, b))) (
      ends builds save saves mono (length deps) deps [] (ground arith) b
        (λ c k x value split low t. ground (arith, low, ap length split, length-append c (x ∷ k))))
  | inr h ↦ (
    deps,
    (
      [],
      (
        ground (arith, h),
        record {
          still_builds = b;
          all_needed = λ c k x value split low t.
              ground
                (arith, ap has_transitive_deps split, has_transitive_deps-middle c k x value t, h);
          same_others = refl;
          moved = Perm.refl (transitive_values deps ++ []);
        },
      ),
    ),
  )
]
