-- ===== src/Language/Sweep/Moved.antt =====
-- What a round of a sweep moves from the list to the junk.
use scala_gazelle.Prelude.{
  ℕ, Str, str_has_eq, Bool, true, some, List, [], ◌∷◌, ◌++◌, append_assoc, append-nil, to_list, ◌≡◌,
  refl, arith, sym, ap, ◌∙◌, subst,
}
use mathlib.Core.List.{Perm}
use mathlib.Core.List.Perm
use scala_gazelle.ScalaConfig.MergeDeps.{Expr}
use scala_gazelle.Language.Sweep.{transitive_value}
use scala_gazelle.Language.Sweep.Needed.{Around, other_items, other_items-append, AreNeeded}

-- the values of the items with the comment
unfoldable pub transitive_values : List Expr → List Str
transitive_values [] = []
transitive_values (e ∷ es) = to_list (transitive_value e) ++ transitive_values es

transitive_values-append :
    (xs ys : List Expr)
    → transitive_values (xs ++ ys) ≡ transitive_values xs ++ transitive_values ys
unfolding transitive_values
transitive_values-append [] ys = refl
transitive_values-append (e ∷ xs) ys =
    ap (◌++◌ (to_list (transitive_value e))) (transitive_values-append xs ys)
    ∙ sym
        (append_assoc (to_list (transitive_value e)) (transitive_values xs) (transitive_values ys))

Perm-middle : {A : Type 0} (a : A) (xs ys : List A) → Perm (xs ++ a ∷ ys) (a ∷ (xs ++ ys))
Perm-middle a [] ys = Perm.refl (a ∷ ys)
Perm-middle a (x ∷ xs) ys =
    Perm.trans (Perm.cons x (Perm-middle a xs ys)) (Perm.swap a x (xs ++ ys))

module _ (builds : List Expr → Bool) where
  -- from some deps and some junk to others
  pub record IsSwept (deps : List Expr) (junk : List Str) (deps' : List Expr) (junk' : List Str)
      : Type 0 where
    pub still_builds : builds deps' ≡ true
    pub all_needed : AreNeeded builds 0 deps'
    pub same_others : other_items deps' ≡ other_items deps
    pub moved : Perm (transitive_values deps' ++ junk') (transitive_values deps ++ junk)

  removed_others :
      (b k : List Expr) (e : Expr) (value : Str)
      → transitive_value e ≡ some value
      → other_items (b ++ k) ≡ other_items (b ++ e ∷ k)
  unfolding other_items
  removed_others b k e value t =
      let skipped : other_items (e ∷ k) ≡ other_items k = ground (arith, t) in
      other_items-append b k
      ∙ (ap (◌++◌ (other_items b)) (sym skipped) ∙ sym (other_items-append b (e ∷ k)))

  moved_value :
      (b k : List Expr) (e : Expr) (value : Str) (junk : List Str)
      → transitive_value e ≡ some value
      → Perm
          (transitive_values (b ++ k) ++ (junk ++ value ∷ []))
          (transitive_values (b ++ e ∷ k) ++ junk)
  unfolding transitive_values
  moved_value b k e value junk t =
      let own : transitive_values (e ∷ k) ≡ value ∷ transitive_values k =
        ap (λ o. to_list o ++ transitive_values k) t in
      let all = transitive_values b ++ transitive_values k in
      let left : transitive_values (b ++ k) ++ (junk ++ value ∷ []) ≡ (all ++ junk) ++ value ∷ [] =
        ap (λ l. l ++ (junk ++ value ∷ [])) (transitive_values-append b k)
        ∙ sym (append_assoc all junk (value ∷ [])) in
      let right : transitive_values (b ++ e ∷ k) ++ junk
          ≡ (transitive_values b ++ value ∷ transitive_values k) ++ junk =
        ap (λ l. l ++ junk)
          (transitive_values-append b (e ∷ k) ∙ ap (◌++◌ (transitive_values b)) own) in
      let last : Perm ((all ++ junk) ++ value ∷ []) (value ∷ (all ++ junk)) =
        subst (λ l. Perm ((all ++ junk) ++ value ∷ []) (value ∷ l)) (append-nil (all ++ junk))
          (Perm-middle value (all ++ junk) []) in
      let first : Perm ((transitive_values b ++ value ∷ transitive_values k) ++ junk)
          (value ∷ (all ++ junk)) =
        Perm.append_right junk (Perm-middle value (transitive_values b) (transitive_values k)) in
      subst (λ l. Perm l (transitive_values (b ++ e ∷ k) ++ junk)) (sym left)
        (subst (Perm ((all ++ junk) ++ value ∷ [])) (sym right) (Perm.trans last (Perm.symm first)))

  -- a round that takes the item out
  pub IsSwept-removed :
      (i : ℕ) (deps : List Expr) (e : Expr) (value : Str) (r : Around i deps e) (junk : List Str)
      (deps' : List Expr) (junk' : List Str)
      → transitive_value e ≡ some value
      → IsSwept (r.before ++ r.behind) (junk ++ value ∷ []) deps' junk'
      → IsSwept deps junk deps' junk'
  IsSwept-removed i deps e value r junk deps' junk' t s = record {
    still_builds = s.still_builds;
    all_needed = s.all_needed;
    same_others =
        s.same_others ∙ (removed_others r.before r.behind e value t ∙ ap other_items (sym r.whole));
    moved = Perm.trans s.moved (
        subst
          (λ l.
            Perm (transitive_values (r.before ++ r.behind) ++ (junk ++ value ∷ []))
              (transitive_values l ++ junk))
          (sym r.whole) (moved_value r.before r.behind e value junk t));
  }
