-- ===== src/Language/Sweep/Needed.antt =====
-- What a sweep leaves in the list.
use scala_gazelle.Prelude.{
  ℕ, zero, suc, ◌≤◌, Str, str_has_eq, Bool, true, false, some, List, [], ◌∷◌, ◌++◌, if◌then◌else◌,
  length, returned, ◌≡◌, refl, arith, is_nil, inl, inr, Bool-cases, sym, ap, ap₂, ◌∙◌, append_assoc,
  append-nil, length-append,
}
use scala_gazelle.Collections.Slice.{at, slice_remove_index}
use scala_gazelle.ScalaConfig.MergeDeps.{Expr}
use scala_gazelle.Language.Sweep.{transitive_value}

-- the list around the item at an index
pub record Around (i : ℕ) (xs : List Expr) (x : Expr) : Type 0 where
  pub before : List Expr
  pub behind : List Expr
  pub place : length before ≡ i
  pub whole : xs ≡ before ++ x ∷ behind
  pub removed : slice_remove_index xs i ≡ returned (before ++ behind)

pub around : (i : ℕ) (xs : List Expr) (x : Expr) → at i xs ≡ some x → Around i xs x
unfolding at slice_remove_index
around i [] x e = ground arith
around zero (y ∷ xs) x e = record {
  before = [];
  behind = xs;
  place = refl;
  whole = ground (arith, e);
  removed = ground arith;
}
around (suc i) (y ∷ xs) x e =
    let r = around i xs x e in
    record {
      before = y ∷ r.before;
      behind = r.behind;
      place = ap suc r.place;
      whole = ap (◌∷◌ y) r.whole;
      removed = ground (arith, r.removed);
    }

-- an item behind a list stands in the rest
pub record Behind (before behind b : List Expr) (x : Expr) (k : List Expr) : Type 0 where
  rest : List Expr
  front : b ≡ before ++ rest
  back : behind ≡ rest ++ x ∷ k

rest_of_split :
    (before behind b : List Expr) (x : Expr) (k : List Expr)
    → before ++ behind ≡ b ++ x ∷ k
    → length before ≤ length b
    → Behind before behind b x k
rest_of_split [] behind b x k e h = record { rest = b; front = refl; back = e }
rest_of_split (y ∷ before) behind [] x k e h = ground arith
rest_of_split (y ∷ before) behind (z ∷ b) x k e h =
    let r = rest_of_split before behind b x k (ground (arith, e)) (ground (arith, h)) in
    record { rest = r.rest; front = ground (arith, e, r.front); back = r.back }

-- what a list of deps and the values that were taken out have in them
unfoldable pub other_items : List Expr → List Expr
other_items [] = []
other_items (e ∷ es) =
    let rest = other_items es in if is_nil (transitive_value e) then e ∷ rest else rest

pub other_items-append :
    (xs ys : List Expr) → other_items (xs ++ ys) ≡ other_items xs ++ other_items ys
unfolding other_items
other_items-append [] ys = refl
other_items-append (e ∷ xs) ys = ground (arith, other_items-append xs ys)

module _ (builds : List Expr → Bool) where
  -- each item with the comment, from an index on, is needed: the rule does not build without it
  abbrev pub AreNeeded : ℕ → List Expr → Type 0
  AreNeeded i deps =
      (b k : List Expr) (x : Expr) (value : Str)
      → deps ≡ b ++ x ∷ k
      → i ≤ length b
      → transitive_value x ≡ some value
      → builds (b ++ k) ≡ false

  -- more deps do not break a build
  abbrev pub IsMonotone : Type 0
  IsMonotone = (b k : List Expr) (x : Expr) → builds (b ++ k) ≡ true → builds (b ++ x ∷ k) ≡ true

  pub AreNeeded-removed :
      (i : ℕ) (deps : List Expr) (e : Expr) (r : Around i deps e)
      → IsMonotone
      → AreNeeded (suc i) deps
      → AreNeeded i (r.before ++ r.behind)
  AreNeeded-removed i deps e r mono needed b k x value split h t =
      let s = rest_of_split r.before r.behind b x k split (ground (arith, h, r.place)) in
      let far : builds ((r.before ++ e ∷ s.rest) ++ k) ≡ false =
        needed (r.before ++ e ∷ s.rest) k x value
          (r.whole
            ∙ (ap (λ l. r.before ++ e ∷ l) s.back
                ∙ sym (append_assoc r.before (e ∷ s.rest) (x ∷ k))))
          (ground (arith, r.place, length-append r.before (e ∷ s.rest))) t in
      elim (Bool-cases (builds (r.before ++ (s.rest ++ k)))) [
        | inl q ↦
            let near : builds ((r.before ++ e ∷ s.rest) ++ k) ≡ true =
              ap builds (append_assoc r.before (e ∷ s.rest) k) ∙ mono r.before (s.rest ++ k) e q in
            ground (arith, far, near)
        | inr q ↦ ap builds (ap (λ l. l ++ k) s.front ∙ append_assoc r.before s.rest k) ∙ q
      ]

  kept_at :
      (i : ℕ) (deps : List Expr) (e : Expr) (r : Around i deps e) (b k : List Expr) (x : Expr)
      (value : Str) (rest : List Expr)
      → (transitive_value e ≡ some value → builds (r.before ++ r.behind) ≡ false)
      → AreNeeded (suc i) deps
      → deps ≡ b ++ x ∷ k
      → transitive_value x ≡ some value
      → b ≡ r.before ++ rest
      → e ∷ r.behind ≡ rest ++ x ∷ k
      → builds (b ++ k) ≡ false
  kept_at i deps e r b k x value [] stops needed split t front back =
      let same : x ≡ e = ground (arith, back) in
      let behind : r.behind ≡ k = ground (arith, back) in
      ap₂ (λ c d. builds (c ++ d)) (front ∙ append-nil r.before) (sym behind)
      ∙ stops (ap transitive_value (sym same) ∙ t)
  kept_at i deps e r b k x value (y ∷ rest) stops needed split t front back =
      needed b k x value split
        (ground (arith, r.place, ap length front, length-append r.before (y ∷ rest))) t

  pub AreNeeded-kept :
      (i : ℕ) (deps : List Expr) (e : Expr) (r : Around i deps e)
      → ((value : Str) → transitive_value e ≡ some value → builds (r.before ++ r.behind) ≡ false)
      → AreNeeded (suc i) deps
      → AreNeeded i deps
  AreNeeded-kept i deps e r stops needed b k x value split h t =
      let s =
        rest_of_split r.before (e ∷ r.behind) b x k (sym r.whole ∙ split)
          (ground (arith, h, r.place)) in
      kept_at i deps e r b k x value s.rest (stops value) needed split t s.front s.back
