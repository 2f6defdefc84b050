-- ===== src/Language/UniverseResolver.antt =====
-- `newUniverseResolver` of language/scala/symbol_resolver.go, and the order in which it asks.
use scala_gazelle.Prelude.{Str, Option, none, some, [], codes, or_else, ◌≡◌, refl, arith, ◌∙◌, ap}
use scala_gazelle.Resolver.Symbol.{Store}
use scala_gazelle.Resolver.Scope
use scala_gazelle.Resolver.Scope.{Scope}
use scala_gazelle.Resolver.SymbolResolver.{
  Gazelle, SymbolResolver, override_resolver, cross_resolver, scope_resolver, scala_resolver,
  memo_resolver, chain_resolver, Chain, cons, nil, resolve_symbol, resolve_chain, resolve_override,
  resolve_cross, strip,
}

abbrev pub scala_lang_name : Str
scala_lang_name = codes "scala"

-- `chain`
abbrev sources : Scope → Scope → Chain
sources scope packages = cons (memo_resolver [] (override_resolver scala_lang_name)) (
    cons (scope_resolver scope)
      (cons (cross_resolver scala_lang_name) (cons (scala_resolver (scope_resolver packages)) nil)))

unfoldable pub new_universe_resolver : Scope → Scope → SymbolResolver
new_universe_resolver scope packages =
    memo_resolver [] (scala_resolver (chain_resolver (sources scope packages)))

-- resolvers that find nothing leave the store alone
resolve_override-store :
    (g : Gazelle) (own lang imp : Str) (store : Store)
    → (resolve_override g own lang imp store).0 ≡ none
    → (resolve_override g own lang imp store).1 ≡ store
unfolding resolve_override
resolve_override-store g own lang imp store h = ground arith

resolve_cross-store :
    (g : Gazelle) (own lang imp : Str) (store : Store)
    → (resolve_cross g own lang imp store).0 ≡ none
    → (resolve_cross g own lang imp store).1 ≡ store
unfolding resolve_cross
resolve_cross-store g own lang imp store h = ground arith

module _ (g : Gazelle) (lang imp : Str) (store : Store) where
  symbol-chain :
      (next : SymbolResolver) (chain : Chain)
      → (resolve_chain g lang (cons next chain) imp store).symbol
        ≡ or_else
            (resolve_symbol g lang next imp store).symbol
            (resolve_chain g lang chain imp (resolve_symbol g lang next imp store).store).symbol
  unfolding resolve_symbol
  symbol-chain next chain = ground arith

  -- what an empty memo over the override directives answers
  symbol-override :
      (own : Str)
      → ((resolve_symbol g lang (memo_resolver [] (override_resolver own)) imp store).symbol
          ≡ (resolve_override g own lang imp store).0)
        × ((resolve_symbol g lang (memo_resolver [] (override_resolver own)) imp store).store
            ≡ (resolve_override g own lang imp store).1)
  unfolding resolve_symbol
  symbol-override own = (refl, refl)

  symbol-scope :
      (scope : Scope)
      → ((resolve_symbol g lang (scope_resolver scope) imp store).symbol
          ≡ Scope.get_symbol store scope imp)
        × ((resolve_symbol g lang (scope_resolver scope) imp store).store ≡ store)
  unfolding resolve_symbol
  symbol-scope scope = (refl, refl)

  symbol-cross :
      (own : Str)
      → ((resolve_symbol g lang (cross_resolver own) imp store).symbol
          ≡ (resolve_cross g own lang imp store).0)
        × ((resolve_symbol g lang (cross_resolver own) imp store).store
            ≡ (resolve_cross g own lang imp store).1)
  unfolding resolve_symbol
  symbol-cross own = (refl, refl)

  symbol-packages :
      (packages : Scope)
      → (resolve_chain g lang
          (cons (scala_resolver (scope_resolver packages)) nil)
          imp
          store).symbol
        ≡ Scope.get_symbol store packages (strip imp)
  unfolding resolve_symbol
  symbol-packages packages = ground arith

  symbol-universe :
      (scope packages : Scope)
      → (resolve_symbol g lang (new_universe_resolver scope packages) imp store).symbol
        ≡ (resolve_chain g lang (sources scope packages) (strip imp) store).symbol
  unfolding new_universe_resolver resolve_symbol
  symbol-universe scope packages = refl

or_else-none {ℓ} : {A : Type ℓ} (o a b : Option A) → (o ≡ none → a ≡ b) → or_else o a ≡ or_else o b
or_else-none none a b h = h refl
or_else-none (some x) a b h = refl

symbol-sources :
    (g : Gazelle) (lang : Str) (scope packages : Scope) (imp : Str) (store : Store)
    → (resolve_chain g lang (sources scope packages) imp store).symbol
      ≡ or_else (resolve_override g scala_lang_name lang imp store).0 (
          or_else (Scope.get_symbol store scope imp) (
            or_else
              (resolve_cross g scala_lang_name lang imp store).0
              (Scope.get_symbol store packages (strip imp))))
symbol-sources g lang scope packages imp store =
    rw
      (
        symbol-chain g lang imp store,
        (symbol-override g lang imp store scala_lang_name).0,
        (symbol-override g lang imp store scala_lang_name).1,
      )
      (or_else-none (resolve_override g scala_lang_name lang imp store).0 _ _ λ none_found.
        rw (resolve_override-store g scala_lang_name lang imp store none_found) (
          rw
            (
              symbol-chain g lang imp store (scope_resolver scope),
              (symbol-scope g lang imp store scope).0,
              (symbol-scope g lang imp store scope).1,
            )
            (ap (or_else (Scope.get_symbol store scope imp)) (
              rw
                (
                  symbol-chain g lang imp store (cross_resolver scala_lang_name),
                  (symbol-cross g lang imp store scala_lang_name).0,
                  (symbol-cross g lang imp store scala_lang_name).1,
                )
                (or_else-none (resolve_cross g scala_lang_name lang imp store).0 _ _ λ no_match.
                  rw (resolve_cross-store g scala_lang_name lang imp store no_match)
                    (symbol-packages g lang imp store packages))))))

-- A new universe resolver strips the name, and then answers from the first of these that knows it: the
-- override directives, the scope, the rule index, and the packages under the name stripped once more.
pub resolve_symbol-new_universe_resolver :
    (g : Gazelle) (lang : Str) (scope packages : Scope) (imp : Str) (store : Store)
    → (resolve_symbol g lang (new_universe_resolver scope packages) imp store).symbol
      ≡ or_else (resolve_override g scala_lang_name lang (strip imp) store).0 (
          or_else (Scope.get_symbol store scope (strip imp)) (
            or_else
              (resolve_cross g scala_lang_name lang (strip imp) store).0
              (Scope.get_symbol store packages (strip (strip imp)))))
resolve_symbol-new_universe_resolver g lang scope packages imp store =
    symbol-universe g lang imp store scope packages
    ∙ symbol-sources g lang scope packages (strip imp) store
