-- ===== src/Samples/Sweeps.antt =====
-- The sweep of transitive deps at a concrete list.
use scala_gazelle.Prelude.{
  Str, str_has_eq, Bool, true, false, Option, none, some, List, [], ◌∷◌, ◌==◌, codes, returned, ok,
  if◌then◌else◌, ◌≡◌, refl, arith,
}
use scala_gazelle.Collections.Slice.{at, slice_remove_index}
use scala_gazelle.ScalaConfig.MergeDeps.{string_expr, Expr}
use scala_gazelle.Language.Sweep.{
  list_expr, has_transitive_deps, sweep_loop, sweep_transitive, value_of,
}
use scala_gazelle.Language.Sweep.Needed.{IsMonotone}
use scala_gazelle.Language.Sweep.Moved.{IsSwept}
use scala_gazelle.Language.Sweep.Swept.{sweep_transitive_lem}

abbrev marked : Str → Expr
marked name = record { syntax = string_expr name; suffix = codes "# TRANSITIVE" ∷ [] }

abbrev three_deps : List Expr
three_deps =
    marked (codes "x")
    ∷ marked (codes "y")
    ∷ record { syntax = string_expr (codes "z"); suffix = [] }
    ∷ []

-- a rule that needs x
abbrev is_x : Option Str → Bool
is_x none = false
is_x (some name) = name == codes "x"

abbrev builds_with_x : List Expr → Bool
builds_with_x [] = false
builds_with_x (e ∷ es) =
    let rest = builds_with_x es in if is_x (value_of e.syntax) then true else rest

abbrev always_saved : List Expr → Option Str
always_saved deps = none

builds_with_x-IsMonotone : IsMonotone builds_with_x
builds_with_x-IsMonotone [] k x h = ground (arith, h)
builds_with_x-IsMonotone (e ∷ b) k x h = ground (arith, h, builds_with_x-IsMonotone b k x)

sweep_transitive_lem_example :
    (deps' : List Expr) × ((junk : List Str) × ((sweep_transitive builds_with_x always_saved
            (some (list_expr three_deps))
          ≡ returned (ok (deps', junk)))
        × IsSwept builds_with_x three_deps [] deps' junk))
sweep_transitive_lem_example =
    sweep_transitive_lem builds_with_x always_saved (λ deps. refl) builds_with_x-IsMonotone
      three_deps refl

y_is_junk :
    sweep_transitive builds_with_x always_saved (some (list_expr three_deps))
    ≡ returned (
        ok (
          marked (codes "x") ∷ record { syntax = string_expr (codes "z"); suffix = [] } ∷ [],
          codes "y" ∷ [],
        ))
unfolding sweep_transitive has_transitive_deps sweep_loop at slice_remove_index
y_is_junk = refl
