-- ===== src/Resolver/SymbolResolver/Memo.antt =====
-- The memo answers by the import alone: as long as the answers of the resolver behind it do not
-- change, this is that resolver; where they depend on the configuration, the first answer stays.
use scala_gazelle.Prelude.{
  Str, str_has_eq, str_eq_iff, none, some, ◌≡◌, arith, Option-cases, inl, inr,
}
use scala_gazelle.Prelude.Map
use scala_gazelle.Prelude.Map.{Assoc, get-put}
use scala_gazelle.Resolver.Symbol.{Ref, Store}
use scala_gazelle.Resolver.Scope
use scala_gazelle.Resolver.Scope.{Scope}
use scala_gazelle.Resolver.SymbolResolver.{
  Gazelle, SymbolResolver, scope_resolver, memo_resolver, resolve_symbol, remember, Resolved,
}

abbrev pub answered : Ref → SymbolResolver → Store → Resolved SymbolResolver
answered sym resolver store = record { symbol = some sym; resolver = resolver; store = store }

memo-hit :
    (g : Gazelle) (lang imp : Str) (cache : Assoc Str Ref) (next : SymbolResolver) (store : Store)
    (sym : Ref)
    → Map.get imp cache ≡ some sym
    → resolve_symbol g lang (memo_resolver cache next) imp store
      ≡ answered sym (memo_resolver cache next) store
unfolding resolve_symbol
memo-hit g lang imp cache next store sym h = ground arith

memo-miss :
    (g : Gazelle) (lang imp : Str) (cache : Assoc Str Ref) (next : SymbolResolver) (store : Store)
    → Map.get imp cache ≡ none
    → ((resolve_symbol g lang (memo_resolver cache next) imp store).symbol
        ≡ (resolve_symbol g lang next imp store).symbol)
      × ((resolve_symbol g lang (memo_resolver cache next) imp store).resolver
          ≡ memo_resolver
              (remember imp (resolve_symbol g lang next imp store).symbol cache)
              (resolve_symbol g lang next imp store).resolver)
unfolding resolve_symbol
memo-miss g lang imp cache next store h = (ground arith, ground arith)

-- After a memo has answered an import, it gives that answer again: for every configuration, index and
-- language, whatever these say of the import, and without a change to the store or the memo.
pub resolve_symbol-memo_again :
    (g g' : Gazelle) (lang lang' : Str) (cache : Assoc Str Ref) (next : SymbolResolver) (imp : Str)
    (store store' : Store) (sym : Ref) (memo : SymbolResolver)
    → (resolve_symbol g lang (memo_resolver cache next) imp store).symbol ≡ some sym
    → (resolve_symbol g lang (memo_resolver cache next) imp store).resolver ≡ memo
    → resolve_symbol g' lang' memo imp store' ≡ answered sym memo store'
resolve_symbol-memo_again g g' lang lang' cache next imp store store' sym memo h e =
    elim (Option-cases (Map.get imp cache)) [
      | inl miss ↦
          let (answer, after) = memo-miss g lang imp cache next store miss in
          let found : (resolve_symbol g lang next imp store).symbol ≡ some sym = cc in
          rw (← e, after, found)
            (memo-hit g' lang' imp (Map.put imp sym cache)
              (resolve_symbol g lang next imp store).resolver store' sym
              (ground (arith, get-put imp imp sym cache, str_eq_iff imp imp)))
      | inr (s, hit) ↦
          let first = memo-hit g lang imp cache next store s hit in
          let same : s ≡ sym = ground (arith, first) in
          rw (← e, first) (rw same at (memo-hit g' lang' imp cache next store' s hit))
    ]

-- The cache holds nothing but answers of the scope.
abbrev pub IsAnswered : Store → Scope → Assoc Str Ref → Type 0
IsAnswered store scope cache =
    (imp : Str) (sym : Ref)
    → Map.get imp cache ≡ some sym
    → Scope.get_symbol store scope imp ≡ some sym

-- A memo over a scope answers as the scope does, from any cache of the scope's answers.
pub resolve_symbol-memo_scope :
    (g : Gazelle) (lang : Str) (scope : Scope) (cache : Assoc Str Ref) (imp : Str) (store : Store)
    → IsAnswered store scope cache
    → (resolve_symbol g lang (memo_resolver cache (scope_resolver scope)) imp store).symbol
      ≡ Scope.get_symbol store scope imp
unfolding resolve_symbol
resolve_symbol-memo_scope g lang scope cache imp store h = elim (Option-cases (Map.get imp cache)) [
  | inl miss ↦ ground arith
  | inr (s, hit) ↦ ground (arith, h imp s hit)
]

-- What a memo over a scope remembers next is again an answer of the scope.
pub remember-IsAnswered :
    (scope : Scope) (cache : Assoc Str Ref) (imp : Str) (store : Store)
    → IsAnswered store scope cache
    → IsAnswered store scope (remember imp (Scope.get_symbol store scope imp) cache)
remember-IsAnswered scope cache imp store h =
    elim (Option-cases (Scope.get_symbol store scope imp)) [
      | inl e ↦ rw e h
      | inr (s, e) ↦
          rw e (λ j sym k. ground (arith, get-put imp j s cache, str_eq_iff imp j, h j sym))
    ]
