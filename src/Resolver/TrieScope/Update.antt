-- ===== src/Resolver/TrieScope/Update.antt =====
-- What `Put` changes: the symbol at its name, or the conflicts of the symbol that is there.
pub mod Known
use scala_gazelle.Prelude.{
  ◌≡◌, refl, ◌∙◌, ap, Str, str_has_eq, strs_has_eq, true, false, not, ◌&&◌, Option, some, List, [],
  ◌∷◌, map, arith, longest_first, first_some, first_some-append, first_some-map, inl, inr, ◌⊎◌,
  ◌==◌, ==_refl, ◌≢◌, IsNotEmpty, Eq, ◌↔◌, contains, Option-cases, Bool-cases, returned, panicked,
  str_eq_iff, if◌then◌else◌,
}
use scala_gazelle.Label.{label_has_eq}
use scala_gazelle.Collections.PathTrie.{parts_of}
use scala_gazelle.Collections.PathTrie.Put.{value_at, value_at-put_at}
use scala_gazelle.Collections.PathTrie.Named.{IsNamed, put_at-IsNamed}
use scala_gazelle.Collections.PathTrie.Pruned.{IsPruned, put_at-IsPruned}
use scala_gazelle.Resolver.ImportSegmenter.{import_segmenter}
use scala_gazelle.Resolver.ImportSegmenter.Split.{split_parts, parts_of-import_segmenter}
use scala_gazelle.Resolver.ImportSegmenter.Rejoin.{All-split_parts, split_from_view}
use scala_gazelle.Resolver.Symbol.{Ref, Store, conflict, conflict_labels, contains-conflict_labels}
use scala_gazelle.Resolver.TrieScope.{TrieScope, get_symbol, put, assign}
use scala_gazelle.Resolver.TrieScope.Lookup.{get_symbol-longest_match}

-- the longest prefix of a path is the path
first_some-whole {ℓ κ} :
    {A : Type ℓ} {B : Type κ} (f : List A → Option B) (x : A) (xs : List A) (v : B)
    → f (x ∷ xs) ≡ some v
    → first_some f (longest_first (x ∷ xs)) ≡ some v
first_some-whole f x [] v h = ground arith
first_some-whole f x (y ∷ ys) v h =
    let longer = map (◌∷◌ x) (longest_first (y ∷ ys)) in
    ground (
      arith,
      first_some-append f longer ((x ∷ []) ∷ []),
      first_some-map f (◌∷◌ x) (longest_first (y ∷ ys)),
      first_some-whole (λ q. f (x ∷ q)) y ys v h,
    )

-- the value at each path after the assignment
value_at-assign :
    (name : Str) (sym : Ref) (t : TrieScope) (q : List Str)
    → value_at q (assign name sym t).root
      ≡ (if split_parts name == q then some sym else value_at q t.root)
value_at-assign name sym t q =
    rw (parts_of-import_segmenter name) (value_at-put_at (split_parts name) q (some sym) t.root)

assign-IsNamed :
    (name : Str) (sym : Ref) (t : TrieScope) → IsNamed t.root → IsNamed (assign name sym t).root
assign-IsNamed name sym t h =
    rw (parts_of-import_segmenter name)
      (put_at-IsNamed (split_parts name) (some sym) t.root (All-split_parts name) h)

-- a name that is not empty has a part
split_parts_view :
    (name : Str) → IsNotEmpty name → (x : Str) × (xs : List Str) × (split_parts name ≡ x ∷ xs)
unfolding split_parts
split_parts_view [] h = ground arith
split_parts_view (c ∷ s) h = split_from_view (c ∷ []) s

get_symbol-assign :
    (name : Str) (sym : Ref) (t : TrieScope)
    → IsNamed t.root
    → IsNotEmpty name
    → get_symbol (assign name sym t) name ≡ some sym
get_symbol-assign name sym t h e =
    let (x, xs, at) = split_parts_view name e in
    let whole : value_at (split_parts name) (assign name sym t).root ≡ some sym =
      rw (value_at-assign name sym t (split_parts name), ==_refl (split_parts name)) in
    rw (get_symbol-longest_match (assign name sym t) name (assign-IsNamed name sym t h), at)
      (first_some-whole (λ q. value_at q (assign name sym t).root) x xs sym (rw at at whole))

-- the symbol that a name leads to after a `Put`: the new one, or one that has the new one's label
-- among its conflicts
pub record Keeps (name : Str) (symbol found : Ref) (t t' : TrieScope) (store store' : Store)
    : Type 0 where
  pub same_scope : t' ≡ t
  pub same_name : (store.at found).name ≡ name
  pub other_label : ((store.at found).label == (store.at symbol).label) ≡ false
  pub listed : contains (store.at symbol).label (conflict_labels store' found) ≡ true

-- the two ways in which a `Put` returns
put_view :
    (name : Str) (symbol : Ref) (t t' : TrieScope) (store store' : Store)
    → put name symbol t store ≡ returned (t', store')
    → ((t' ≡ assign name symbol t) × (store' ≡ store))
      ⊎ ((current : Ref) × (get_symbol t name ≡ some current)
          × (((store.at current).name == name) ≡ true)
          × (((store.at current).label == (store.at symbol).label) ≡ false)
          × (t' ≡ t)
          × (store' ≡ conflict current symbol store))
unfolding put
put_view name symbol t t' store store' p = elim (Option-cases (get_symbol t name)) [
  | inl e ↦ inl (ground arith, ground arith)
  | inr (current, e) ↦
      elim (Bool-cases (
        (store.at current).name == name
        && not ((store.at current).label == (store.at symbol).label))) [
          | inl k ↦ inr (current, e, ground arith, ground arith, ground arith, ground arith)
          | inr k ↦ inl (ground arith, ground arith)
        ]
]

pub get_symbol-put :
    (name : Str) (symbol : Ref) (t t' : TrieScope) (store store' : Store)
    → IsNamed t.root
    → IsNotEmpty name
    → put name symbol t store ≡ returned (t', store')
    → (found : Ref) × (get_symbol t' name ≡ some found)
      × (((found ≡ symbol) × (store' ≡ store)) ⊎ Keeps name symbol found t t' store store')
get_symbol-put name symbol t t' store store' h e p =
    elim (put_view name symbol t t' store store' p) [
      | inl (moved, same) ↦
          (symbol, rw moved (get_symbol-assign name symbol t h e), inl (refl, same))
      | inr (current, there, named, other, stays, written) ↦ (
        current,
        rw stays there,
        inr (record {
          same_scope = stays;
          same_name = (str_eq_iff _ _).0 named;
          other_label = other;
          listed = rw written (
              ground (
                arith,
                contains-conflict_labels current symbol store (store.at symbol).label,
                ==_refl (store.at symbol).label,
              ));
        }),
      )
    ]

-- The shape that lookups and deletions rely on.
pub record IsWellFormed (t : TrieScope) : Type 0 where
  pub named : IsNamed t.root
  pub pruned : IsPruned t.root

assign-IsWellFormed :
    (name : Str) (symbol : Ref) (t : TrieScope)
    → IsWellFormed t
    → IsWellFormed (assign name symbol t)
assign-IsWellFormed name symbol t w = record {
  named = assign-IsNamed name symbol t w.named;
  pruned = put_at-IsPruned (parts_of import_segmenter name) symbol t.root w.pruned;
}

-- `Put` keeps a scope well formed, on each of its branches.
pub put-IsWellFormed :
    (name : Str) (symbol : Ref) (t t' : TrieScope) (store store' : Store)
    → IsWellFormed t
    → put name symbol t store ≡ returned (t', store')
    → IsWellFormed t'
put-IsWellFormed name symbol t t' store store' w p =
    elim (put_view name symbol t t' store store' p) [
      | inl (moved, same) ↦ rw moved (assign-IsWellFormed name symbol t w)
      | inr (current, there, named, other, stays, written) ↦ rw stays w
    ]

put_returns :
    (name : Str) (symbol : Ref) (t : TrieScope) (store : Store)
    → ((store.at symbol).provider == []) ≡ false
    → put name symbol t store ≢ panicked
unfolding put
put_returns name symbol t store e p = elim (Option-cases (get_symbol t name)) [
  | inl none_there ↦ ground arith
  | inr (current, there) ↦
      elim (Bool-cases (
        (store.at current).name == name
        && not ((store.at current).label == (store.at symbol).label))) [
          | inl k ↦ ground arith
          | inr k ↦ ground arith
        ]
]

-- `Put` panics exactly on a symbol without a provider.
pub put_panics :
    (name : Str) (symbol : Ref) (t : TrieScope) (store : Store)
    → (put name symbol t store ≡ panicked) ↔ ((store.at symbol).provider ≡ [])
unfolding put
put_panics name symbol t store = (
  λ p. elim (Bool-cases ((store.at symbol).provider == [])) [
    | inl e ↦ (str_eq_iff _ _).0 e
    | inr e ↦ absurd (put_returns name symbol t store e p)
  ],
  λ e. ground (arith, str_eq_iff (store.at symbol).provider []),
)

first_some-frame {ℓ κ} :
    {A : Type ℓ} {B : Type κ} ⦃e : Eq A⦄ (f g : A → Option B) (a : A) (xs : List A)
    → contains a xs ≡ false
    → ((x : A) → (a == x) ≡ false → f x ≡ g x)
    → first_some f xs ≡ first_some g xs
first_some-frame f g a [] h k = refl
first_some-frame ⦃e⦄ f g a (x ∷ xs) h k =
    ground (arith, k x (ground arith), first_some-frame f g a xs (ground arith) k)

-- A `Put` leaves every name as it was of whose parts the parts of the name put are no prefix.
pub get_symbol-put_other :
    (name other : Str) (symbol : Ref) (t t' : TrieScope) (store store' : Store)
    → IsNamed t.root
    → put name symbol t store ≡ returned (t', store')
    → contains (split_parts name) (longest_first (split_parts other)) ≡ false
    → get_symbol t' other ≡ get_symbol t other
get_symbol-put_other name other symbol t t' store store' h p apart =
    elim (put_view name symbol t t' store store' p) [
      | inl (moved, same) ↦
          rw
            (
              moved,
              get_symbol-longest_match (assign name symbol t) other
                  (assign-IsNamed name symbol t h),
              get_symbol-longest_match t other h,
            )
            (first_some-frame (λ q. value_at q (assign name symbol t).root) (λ q. value_at q t.root)
              (split_parts name) (longest_first (split_parts other)) apart
              (λ q k. value_at-assign name symbol t q ∙ ground arith))
      | inr (current, there, named, label, stays, written) ↦ ap (λ s. get_symbol s other) stays
    ]
