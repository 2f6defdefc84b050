-- ===== src/Language/ScalaRule/Resolve/Answers.antt =====
-- What `ResolveImports` leaves in each import.
use scala_gazelle.Prelude.{true, false, some, List, [], ◌∷◌, codes, is_nil, ◌≡◌, ◌⊎◌}
use scala_gazelle.Label.{LabelApi}
use scala_gazelle.Resolver.Symbol.{Ref, Store}
use scala_gazelle.Resolver.Import.{Import}
use scala_gazelle.Resolver.SymbolResolver.{Gazelle, SymbolResolver, resolve_symbol}
use scala_gazelle.Resolver.ConflictResolver.{ConflictResolver}
use scala_gazelle.Resolver.ConflictResolver.Choice.{is_candidate}
use scala_gazelle.Language.ScalaRule.Resolve.{err_symbol_not_found}

abbrev pub Pairwise {ℓ} : {A : Type ℓ} → (A → A → Type 0) → List A → List A → Type 0
Pairwise R [] [] = Unit
Pairwise R [] (y ∷ ys) = ⊥
Pairwise R (x ∷ xs) [] = ⊥
Pairwise R (x ∷ xs) (y ∷ ys) = R x y × Pairwise R xs ys

module _ (api : LabelApi) (g : Gazelle) (resolvers : List ConflictResolver) where
  -- An import as it was and as it is left: it had an error, and is as it was; or its name is unknown to
  -- the resolver, and it has this error; or it has the symbol that the resolver gave, or a conflict of
  -- that symbol.
  abbrev pub IsVisited : Import → Import → Type 0
  IsVisited old new =
      ((is_nil old.error ≡ false) × (new ≡ old))
      ⊎ ((is_nil old.error ≡ true) × (new ≡ record old { error = some err_symbol_not_found }))
      ⊎ ((r : SymbolResolver) × (store : Store) × (sym : Ref) × (chosen : Ref) × (is_nil old.error
            ≡ true)
          × ((resolve_symbol g (codes "scala") r old.imp store).symbol ≡ some sym)
          × (is_candidate (resolve_symbol g (codes "scala") r old.imp store).store sym chosen
              ≡ true)
          × (new ≡ record old { symbol = some chosen }))
