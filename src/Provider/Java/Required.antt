-- ===== src/Provider/Java/Required.antt =====
-- What the symbols of classes require after `OnResolve`.
use scala_gazelle.Prelude.{
  nat_beq_iff, nat_has_eq, Str, str_has_eq, str_eq_iff, true, some, List, [], ◌∷◌, ◌++◌, ◌==◌,
  contains, contains-append, All, sort_by, All-sort_by_inverse, ◌≡◌, refl, arith, inl, inr,
  Bool-cases, Option-cases, sym, ap, ◌∙◌, subst,
}
use scala_gazelle.Resolver.Symbol.{Ref, require}
use scala_gazelle.Resolver.TrieScope.{TrieScope, get_symbol}
use scala_gazelle.Provider.{GlobalScope}
use scala_gazelle.Provider.Java.{
  IndexedClass, JavaProvider, require_all, require_classes, on_resolve,
}

-- the symbol requires the other
abbrev pub Requires : GlobalScope → Ref → Ref → Type 0
Requires g symbol resolved = contains resolved (g.store.at symbol).requires ≡ true

abbrev required : Ref → Ref → GlobalScope → GlobalScope
required s r g = record g { store = require s r g.store }

Requires-required :
    (g : GlobalScope) (symbol resolved s r : Ref)
    → Requires g symbol resolved
    → Requires (required s r g) symbol resolved
unfolding require
Requires-required g symbol resolved s r h =
    ground (
      arith,
      h,
      nat_beq_iff s symbol,
      contains-append resolved (g.store.at symbol).requires (r ∷ []),
    )

Requires-new : (g : GlobalScope) (s r : Ref) → Requires (required s r g) s r
unfolding require
Requires-new g s r =
    ground
      (arith, nat_beq_iff s s, nat_beq_iff r r, contains-append r (g.store.at s).requires (r ∷ []))

-- a loop keeps the scope and what is required
record Grows (g g' : GlobalScope) : Type 0 where
  same_scope : g'.scope ≡ g.scope
  kept : (symbol resolved : Ref) → Requires g symbol resolved → Requires g' symbol resolved

Grows-require_all : (names : List Str) (s : Ref) (g : GlobalScope) → Grows g (require_all names s g)
unfolding require_all
Grows-require_all [] s g = record { same_scope = refl; kept = λ symbol resolved h. h }
Grows-require_all (name ∷ names) s g = elim (Option-cases (get_symbol g.scope name)) [
  | inl e ↦ rw (e, require_all) (Grows-require_all names s g)
  | inr (r, e) ↦
      let rest = Grows-require_all names s (required s r g) in
      rw (e, require_all)
        (record {
          same_scope = rest.same_scope;
          kept = λ symbol resolved h.
              rest.kept symbol resolved (Requires-required g symbol resolved s r h);
        })
]

Grows-require_classes :
    (files : List (IndexedClass × Ref)) (g : GlobalScope) → Grows g (require_classes files g)
unfolding require_classes
Grows-require_classes [] g = record { same_scope = refl; kept = λ symbol resolved h. h }
Grows-require_classes ((file, s) ∷ files) g =
    let names = file.superclasses ++ file.interfaces in
    let first = Grows-require_all names s g in
    let rest = Grows-require_classes files (require_all names s g) in
    record {
      same_scope = rest.same_scope ∙ first.same_scope;
      kept = λ symbol resolved h. rest.kept symbol resolved (first.kept symbol resolved h);
    }

Requires-require_all :
    (names : List Str) (s : Ref) (g : GlobalScope) (name : Str) (r : Ref)
    → contains name names ≡ true
    → get_symbol g.scope name ≡ some r
    → Requires (require_all names s g) s r
unfolding require_all
Requires-require_all [] s g name r h e = ground arith
Requires-require_all (n ∷ names) s g name r h e = elim (Bool-cases (name == n)) [
  | inl q ↦
      let own : get_symbol g.scope n ≡ some r =
        ap (get_symbol g.scope) (sym ((str_eq_iff name n).0 q)) ∙ e in
      rw (own, require_all)
        ((Grows-require_all names s (required s r g)).kept s r (Requires-new g s r))
  | inr q ↦
      let other : contains name names ≡ true = ground (arith, h, q) in
      elim (Option-cases (get_symbol g.scope n)) [
        | inl t ↦ rw (t, require_all) (Requires-require_all names s g name r other e)
        | inr (r', t) ↦
            rw (t, require_all) (Requires-require_all names s (required s r' g) name r other e)
      ]
]

-- the symbol of the class requires what a scope has under the names that the class extends
abbrev pub RequiresAll : TrieScope → GlobalScope → IndexedClass × Ref → Type 0
RequiresAll scope g c =
    (name : Str) (r : Ref)
    → contains name (c.0.superclasses ++ c.0.interfaces) ≡ true
    → get_symbol scope name ≡ some r
    → Requires g c.1 r

RequiresAll-require_classes :
    (files : List (IndexedClass × Ref)) (g : GlobalScope)
    → All (RequiresAll g.scope (require_classes files g)) files
unfolding require_classes
RequiresAll-require_classes [] g = tt
RequiresAll-require_classes ((file, s) ∷ files) g =
    let names = file.superclasses ++ file.interfaces in
    let g1 = require_all names s g in
    (
      (λ name r h e.
          (Grows-require_classes files g1).kept s r (Requires-require_all names s g name r h e)),
      subst (λ scope. All (RequiresAll scope (require_classes files g1)) files)
          (Grows-require_all names s g).same_scope (RequiresAll-require_classes files g1),
    )

-- After `OnResolve` the symbol of each class that was read requires every symbol that the scope has
-- under the name of a superclass or of an interface of the class; and what a symbol required before
-- it requires still.
pub on_resolve-RequiresAll :
    (p : JavaProvider) (g : GlobalScope)
    → All (RequiresAll g.scope (on_resolve p g)) p.class_symbols
      × ((symbol resolved : Ref)
          → Requires g symbol resolved
          → Requires (on_resolve p g) symbol resolved)
unfolding on_resolve
on_resolve-RequiresAll p g = (
  All-sort_by_inverse (RequiresAll g.scope (on_resolve p g)) (λ c. c.0.name) p.class_symbols
      (RequiresAll-require_classes (sort_by (λ c. c.0.name) p.class_symbols) g),
  (Grows-require_classes (sort_by (λ c. c.0.name) p.class_symbols) g).kept,
)
