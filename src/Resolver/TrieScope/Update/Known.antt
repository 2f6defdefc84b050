-- ===== src/Resolver/TrieScope/Update/Known.antt =====
-- The names that lead to a symbol, and what `Put` does with them.
use scala_gazelle.Prelude.{
  Str, str_has_eq, strs_has_eq, false, Option, List, [], ◌∷◌, is_nil, first_some, longest_first,
  IsNotEmpty, returned, ◌≡◌, arith, inl, inr, sym, ap, ◌∙◌,
}
use scala_gazelle.Collections.PathTrie.Put.{value_at}
use scala_gazelle.Collections.PathTrie.Named.{IsNamed}
use scala_gazelle.Resolver.ImportSegmenter.Split.{split_parts}
use scala_gazelle.Resolver.Symbol.{Ref, Store}
use scala_gazelle.Resolver.TrieScope.{TrieScope, get_symbol, put, assign}
use scala_gazelle.Resolver.TrieScope.Lookup.{get_symbol-longest_match}
use scala_gazelle.Resolver.TrieScope.Update.{
  put_view, value_at-assign, assign-IsNamed, get_symbol-put,
}

-- the name leads to a symbol
abbrev pub IsKnown : TrieScope → Str → Type 0
IsKnown t name = is_nil (get_symbol t name) ≡ false

first_some-grows :
    {A B : Type 0} (f g : A → Option B) (xs : List A)
    → ((x : A) → is_nil (f x) ≡ false → is_nil (g x) ≡ false)
    → is_nil (first_some f xs) ≡ false
    → is_nil (first_some g xs) ≡ false
first_some-grows f g [] h e = ground arith
first_some-grows f g (x ∷ xs) h e = ground (arith, e, h x, first_some-grows f g xs h)

IsKnown-assign :
    (name other : Str) (symbol : Ref) (t : TrieScope)
    → IsNamed t.root
    → IsKnown t other
    → IsKnown (assign name symbol t) other
IsKnown-assign name other symbol t h k =
    ap is_nil
      (get_symbol-longest_match (assign name symbol t) other (assign-IsNamed name symbol t h))
    ∙ first_some-grows (λ q. value_at q t.root) (λ q. value_at q (assign name symbol t).root)
        (longest_first (split_parts other))
        (λ q e. ap is_nil (value_at-assign name symbol t q) ∙ ground (arith, e))
        (ap is_nil (sym (get_symbol-longest_match t other h)) ∙ k)

-- what a `Put` keeps
pub record Grows (t t' : TrieScope) : Type 0 where
  pub named : IsNamed t'.root
  pub known : (other : Str) → IsKnown t other → IsKnown t' other

pub Grows-put :
    (name : Str) (symbol : Ref) (t t' : TrieScope) (store store' : Store)
    → IsNamed t.root
    → put name symbol t store ≡ returned (t', store')
    → Grows t t'
Grows-put name symbol t t' store store' h p = elim (put_view name symbol t t' store store' p) [
  | inl (moved, same) ↦ rw moved (record {
    named = assign-IsNamed name symbol t h;
    known = λ other k. IsKnown-assign name other symbol t h k;
  })
  | inr (current, there, named, label, stays, written) ↦
      rw stays (record { named = h; known = λ other k. k })
]

pub IsKnown-put :
    (name : Str) (symbol : Ref) (t t' : TrieScope) (store store' : Store)
    → IsNamed t.root
    → IsNotEmpty name
    → put name symbol t store ≡ returned (t', store')
    → IsKnown t' name
IsKnown-put name symbol t t' store store' h e p =
    ap is_nil (get_symbol-put name symbol t t' store store' h e p).1
