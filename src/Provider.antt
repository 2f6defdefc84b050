-- ===== src/Provider.antt =====
-- pkg/provider: the symbols that the providers put into the scope, and which labels they manage.
pub mod Source
pub mod Protobuf
pub mod Semanticdb
pub mod Java
use scala_gazelle.Prelude.{Str, str_has_eq, List, [], ◌∷◌, Outcome, returned, panicked}
use scala_gazelle.Label.{Label}
use scala_gazelle.Resolver.Symbol.{ImportType, package_type, Ref, Store, new_symbol}
use scala_gazelle.Resolver.TrieScope
use scala_gazelle.Resolver.TrieScope.{TrieScope}

-- The scope that the language gives to the providers (language/scala/scope.go): package symbols stand
-- apart. The store has the symbols.
pub record GlobalScope : Type 0 where
  pub scope : TrieScope
  pub packages : TrieScope
  pub store : Store

abbrev pub put_in_scope : GlobalScope → Outcome (TrieScope × Store) → Outcome GlobalScope
put_in_scope g panicked = panicked
put_in_scope g (returned p) = returned (record g { scope = p.0; store = p.1 })

abbrev pub put_in_packages : GlobalScope → Outcome (TrieScope × Store) → Outcome GlobalScope
put_in_packages g panicked = panicked
put_in_packages g (returned p) = returned (record g { packages = p.0; store = p.1 })

abbrev pub put_package_again : Ref → Outcome GlobalScope → Outcome GlobalScope
put_package_again symbol panicked = panicked
put_package_again symbol (returned g) =
    put_in_packages g (TrieScope.put_symbol symbol g.packages g.store)

abbrev pub put_of_type : ImportType → Ref → GlobalScope → Outcome GlobalScope
put_of_type package_type symbol g =
    put_package_again symbol (put_in_packages g (TrieScope.put_symbol symbol g.packages g.store))
put_of_type _ symbol g = put_in_scope g (TrieScope.put_symbol symbol g.scope g.store)

-- `scalaLang.PutSymbol`: a package symbol is put twice
unfoldable pub put_symbol : Ref → GlobalScope → Outcome GlobalScope
put_symbol symbol g = put_of_type (g.store.at symbol).kind symbol g

-- `putSymbol` of the providers, and the symbol
unfoldable pub put_new_symbol : ImportType → Str → Str → Label → GlobalScope → Outcome GlobalScope
unfolding put_symbol
put_new_symbol kind name provider label g =
    let made = new_symbol kind name provider label g.store in
    put_symbol made.0 (record g { store = made.1 })

-- a loop of `putSymbol` over names
unfoldable pub put_names : ImportType → Str → Label → List Str → GlobalScope → Outcome GlobalScope
put_names kind provider label [] g = returned g
put_names kind provider label (name ∷ names) g = elim (put_new_symbol kind name provider label g) [
  | panicked ↦ panicked
  | returned g' ↦ put_names kind provider label names g'
]
