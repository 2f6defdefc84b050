-- ===== src/Resolver/Scope/Guard.antt =====
-- The comparison in `ScalaScope.GetScope`: every scope that `GetScope` returns is new, so that it is
-- never the one that was stored when the `ScalaScope` was made.
use scala_gazelle.Prelude.{
  ℕ, ◌≤◌, ◌<◌, Str, Bool, true, false, ◌||◌, Option, none, some, ◌≡◌, refl, arith, if◌then◌else◌,
  subst, trim_prefix, ◌∙◌, codes,
}
use scala_gazelle.Resolver.TrieScope
use scala_gazelle.Resolver.TrieScope.{TrieScope}
use scala_gazelle.Resolver.Scope.{
  Scope, Scopes, trie_scope, chain_scope, trim_prefix_scope, scala_scope, nil, cons, same_scope,
  Found, allocate, or_search, unless_same, get_scope, chain_get_scope, root_prefix, new_scala_scope,
  make_scala_scope, created,
}

-- a trie allocated at an address from `n` on
abbrev pub IsNew : ℕ → Scope → Type 0
IsNew n (trie_scope id t) = n ≤ id
IsNew n (chain_scope c) = ⊥
IsNew n (trim_prefix_scope p s) = ⊥
IsNew n (scala_scope p s j) = ⊥

-- a scope whose address, if it is a trie, is below `n`
abbrev pub IsOld : ℕ → Scope → Type 0
IsOld n (trie_scope id t) = id < n
IsOld n _ = Unit

abbrev pub IsFresh : ℕ → Found → Type 0
IsFresh n (none, next) = n ≤ next
IsFresh n (some s, next) = IsNew n s × IsOld next s × (n ≤ next)

allocate-IsFresh : (o : Option TrieScope) (n : ℕ) → IsFresh n (allocate o n)
allocate-IsFresh none n = omega arith
allocate-IsFresh (some t) n = omega arith

IsNew-le : (m n : ℕ) (s : Scope) → m ≤ n → IsNew n s → IsNew m s
IsNew-le m n (trie_scope id t) le h = omega arith
IsNew-le m n (chain_scope c) le h = h
IsNew-le m n (trim_prefix_scope p s) le h = h
IsNew-le m n (scala_scope p s j) le h = h

IsFresh-le : (m n : ℕ) (f : Found) → m ≤ n → IsFresh n f → IsFresh m f
IsFresh-le m n (none, next) le h = omega arith
IsFresh-le m n (some s, next) le h = (IsNew-le m n s le h.0, h.1, omega arith)

or_search-IsFresh :
    (n : ℕ) (f : Found) (rest : ℕ → Found)
    → IsFresh n f
    → ((m : ℕ) → IsFresh m (rest m))
    → IsFresh n (or_search f rest)
or_search-IsFresh n (none, next) rest h k = IsFresh-le n next (rest next) h (k next)
or_search-IsFresh n (some s, next) rest h k = h

unless_same-IsFresh :
    (scala java_lang : Scope) (n : ℕ) (f : Found) (rest : ℕ → Found)
    → IsFresh n f
    → ((m : ℕ) → IsFresh m (rest m))
    → IsFresh n (unless_same scala java_lang f rest)
unless_same-IsFresh scala java_lang n (none, next) rest h k =
    IsFresh-le n next (rest next) h (k next)
unless_same-IsFresh scala java_lang n (some s, next) rest h k =
    choose (same_scope s scala || same_scope s java_lang)
  where
    choose : (b : Bool) → IsFresh n (if b then rest next else (some s, next))
    choose true = IsFresh-le n next (rest next) h.2 (k next)
    choose false = h

mutual
  unfolding get_scope

  get_scope-IsFresh : (s : Scope) (name : Str) (n : ℕ) → IsFresh n (get_scope s name n)
  get_scope-IsFresh (trie_scope id t) name n = allocate-IsFresh (TrieScope.get_scope t name) n
  get_scope-IsFresh (chain_scope chain) name n = chain_get_scope-IsFresh chain name n
  get_scope-IsFresh (trim_prefix_scope p s) name n = get_scope-IsFresh s (trim_prefix name p) n
  get_scope-IsFresh (scala_scope parent scala java_lang) name n =
      unless_same-IsFresh scala java_lang n (get_scope parent name n) _
        (get_scope-IsFresh parent name n)
        λ n1.
          unless_same-IsFresh scala java_lang n1 (get_scope scala name n1) _
            (get_scope-IsFresh scala name n1)
            λ n2.
              unless_same-IsFresh scala java_lang n2 (get_scope java_lang name n2) _
                (get_scope-IsFresh java_lang name n2)
                λ n3.
                  unless_same-IsFresh scala java_lang n3
                    (get_scope parent (trim_prefix name root_prefix) n3) _
                    (get_scope-IsFresh parent (trim_prefix name root_prefix) n3) λ n4. omega arith

  chain_get_scope-IsFresh :
      (chain : Scopes) (name : Str) (n : ℕ) → IsFresh n (chain_get_scope chain name n)
  chain_get_scope-IsFresh nil name n = omega arith
  chain_get_scope-IsFresh (cons s chain) name n =
      or_search-IsFresh n (get_scope s name n) (chain_get_scope chain name)
        (get_scope-IsFresh s name n) (chain_get_scope-IsFresh chain name)

same_scope_new_old : (n : ℕ) (s t : Scope) → IsNew n s → IsOld n t → same_scope s t ≡ false
same_scope_new_old n (trie_scope i s) (trie_scope j t) h k = ground arith
same_scope_new_old n (trie_scope i s) (chain_scope c) h k = refl
same_scope_new_old n (trie_scope i s) (trim_prefix_scope p t) h k = refl
same_scope_new_old n (trie_scope i s) (scala_scope p t j) h k = refl
same_scope_new_old n (chain_scope c) t h k = absurd h
same_scope_new_old n (trim_prefix_scope p s) t h k = absurd h
same_scope_new_old n (scala_scope p s j) t h k = absurd h

unless_same_of_old :
    (scala java_lang : Scope) (n : ℕ) (f : Found) (rest : ℕ → Found)
    → IsOld n scala
    → IsOld n java_lang
    → IsFresh n f
    → unless_same scala java_lang f rest ≡ or_search f rest
unless_same_of_old scala java_lang n (none, next) rest a b h = refl
unless_same_of_old scala java_lang n (some s, next) rest a b h =
    rw (same_scope_new_old n s scala h.0 a, same_scope_new_old n s java_lang h.0 b)

IsOld-le : (m n : ℕ) (s : Scope) → m ≤ n → IsOld m s → IsOld n s
IsOld-le m n (trie_scope id t) le h = omega arith
IsOld-le m n (chain_scope c) le h = tt
IsOld-le m n (trim_prefix_scope p s) le h = tt
IsOld-le m n (scala_scope p s j) le h = tt

-- two continuations that agree from `n` on
or_search-cong :
    (n : ℕ) (f : Found) (r r' : ℕ → Found)
    → IsFresh n f
    → ((m : ℕ) → n ≤ m → r m ≡ r' m)
    → or_search f r ≡ or_search f r'
or_search-cong n (none, next) r r' h k = k next h
or_search-cong n (some s, next) r r' h k = refl

-- the chain of a `ScalaScope`, with no comparison
abbrev pub layers : Scope → Scope → Scope → Scopes
layers parent scala java_lang =
    cons parent (cons scala (cons java_lang (cons (trim_prefix_scope root_prefix parent) nil)))

module _ (parent scala java_lang : Scope) (imp : Str) where
  -- one layer of the guarded chain
  layer :
      (s : Scope) (name : Str) (n : ℕ) (r r' : ℕ → Found)
      → IsOld n scala
      → IsOld n java_lang
      → ((m : ℕ) → n ≤ m → r m ≡ r' m)
      → unless_same scala java_lang (get_scope s name n) r ≡ or_search (get_scope s name n) r'
  layer s name n r r' a b k =
      unless_same_of_old scala java_lang n (get_scope s name n) r a b (get_scope-IsFresh s name n)
      ∙ or_search-cong n (get_scope s name n) r r' (get_scope-IsFresh s name n) k

  get_scope-layers :
      (n : ℕ)
      → IsOld n scala
      → IsOld n java_lang
      → get_scope (scala_scope parent scala java_lang) imp n
        ≡ chain_get_scope (layers parent scala java_lang) imp n
  unfolding get_scope
  get_scope-layers n a b = layer parent imp n _ _ a b λ n1 l1.
      layer scala imp n1 _ _ (IsOld-le n n1 scala l1 a) (IsOld-le n n1 java_lang l1 b) λ n2 l2.
        layer java_lang imp n2 _ _ (IsOld-le n n2 scala (omega arith) a)
          (IsOld-le n n2 java_lang (omega arith) b)
          λ n3 l3.
            layer parent (trim_prefix imp root_prefix) n3 _ _ (IsOld-le n n3 scala (omega arith) a)
              (IsOld-le n n3 java_lang (omega arith) b) λ n4 l4. refl

made_view :
    (parent p s j : Scope) (a b : Option Scope) (next m : ℕ)
    → make_scala_scope parent a b next ≡ created (scala_scope p s j) m
    → (a ≡ some s) × (b ≡ some j) × (next ≡ m)
made_view parent p s j none b next m h = ground arith
made_view parent p s j (some a) none next m h = ground arith
made_view parent p s j (some a) (some b) next m h = ground arith

IsFresh-some : (n : ℕ) (s : Scope) (f : Found) → IsFresh n f → f.0 ≡ some s → IsOld f.1 s
IsFresh-some n s (none, next) h e = cc
IsFresh-some n s (some t, next) h e = let same : t ≡ s = cc in subst (λ x. IsOld next x) same h.1

IsFresh-le_next : (n : ℕ) (f : Found) → IsFresh n f → n ≤ f.1
IsFresh-le_next n (none, next) h = h
IsFresh-le_next n (some t, next) h = h.2

new_scala_scope-IsOld :
    (parent p s j : Scope) (n m : ℕ)
    → new_scala_scope parent n ≡ created (scala_scope p s j) m
    → IsOld m s × IsOld m j
unfolding new_scala_scope
new_scala_scope-IsOld parent p s j n m h =
    let f = get_scope parent (codes "scala") n in
    let g = get_scope parent (codes "java.lang") f.1 in
    let f_fresh = get_scope-IsFresh parent (codes "scala") n in
    let g_fresh = get_scope-IsFresh parent (codes "java.lang") f.1 in
    let (found_s, found_j, end) = made_view parent p s j f.0 g.0 g.1 m h in
    rw (← end) (
      IsOld-le f.1 g.1 s (IsFresh-le_next f.1 g g_fresh) (IsFresh-some n s f f_fresh found_s),
      IsFresh-some f.1 j g g_fresh found_j,
    )

-- In a scope that `NewScalaScope` has made, the comparison with the stored scopes never skips a result:
-- `GetScope` returns what the plain chain of the four layers returns.
pub get_scope-scala_scope :
    (parent p s j : Scope) (imp : Str) (n m later : ℕ)
    → new_scala_scope parent n ≡ created (scala_scope p s j) m
    → m ≤ later
    → get_scope (scala_scope p s j) imp later ≡ chain_get_scope (layers p s j) imp later
get_scope-scala_scope parent p s j imp n m later made le =
    let old = new_scala_scope-IsOld parent p s j n m made in
    get_scope-layers p s j imp later (IsOld-le m later s le old.0) (IsOld-le m later j le old.1)
