-- ===== src/Language/Sweep.antt =====
-- `sweepTransitive` of language/scala/existing_scala_rule.go: the deps that have the comment for
-- transitive deps are taken out one by one, from the back, where the rule still builds without them.
pub mod Needed
pub mod Moved
pub mod Swept
use scala_gazelle.Prelude.{
  ℕ, zero, suc, Str, str_has_eq, Bool, true, false, not, Option, none, some, List, [], ◌∷◌, ◌++◌,
  ◌==◌, codes, contains, if◌then◌else◌, length, Outcome, returned, panicked, Result, ok, failed,
  is_nil,
}
use scala_gazelle.Collections.Slice.{at, slice_remove_index}
use scala_gazelle.ScalaConfig.MergeDeps.{Syntax, string_expr, call_expr, other_expr, Expr}

abbrev pub transitive_comment_token : Str
transitive_comment_token = codes "# TRANSITIVE"

-- The value of a string with the comment, which no other item has. The token is compared as it is.
abbrev pub value_of : Syntax → Option Str
value_of (string_expr s) = some s
value_of (call_expr name items) = none
value_of (other_expr s) = none

abbrev pub transitive_value : Expr → Option Str
transitive_value e = if contains transitive_comment_token e.suffix then value_of e.syntax else none

-- the test for at least one
unfoldable pub has_transitive_deps : List Expr → Bool
has_transitive_deps [] = false
has_transitive_deps (e ∷ es) =
    let rest = has_transitive_deps es in if is_nil (transitive_value e) then rest else true

-- what an attribute can be
pub data AttrExpr : Type 0 where
  list_expr : List Expr → AttrExpr
  no_list : AttrExpr

-- the error of saving the file, with the list as it is by then
pub record SaveFailed : Type 0 where
  pub error : Str
  pub deps : List Expr

abbrev pub Swept : Type 0
Swept = Outcome (Result SaveFailed (List Expr × List Str))

-- Whether the rule builds with these deps, and what saving the file with them answers: an error or
-- `none`.
module _ (builds : List Expr → Bool) (save : List Expr → Option Str) where
  abbrev pub saved : Option Str → List Expr → Swept → Swept
  saved none deps next = next
  saved (some error) deps next = returned (failed (record { error = error; deps = deps }))

  -- one round: the items, the item's value, the list without it, and the two ways to go on
  abbrev pub try_without : Outcome (List Expr) → (List Expr → Swept) → Swept → Swept
  try_without panicked junk keep = panicked
  try_without (returned shorter) junk keep =
      saved (save shorter) shorter (if builds shorter then junk shorter else keep)

  abbrev pub final_save : List Expr → List Str → Swept
  final_save deps junk = saved (save deps) deps (returned (ok (deps, junk)))

  -- the loop over the indexes below the first argument, from the last
  unfoldable pub sweep_loop : ℕ → List Expr → List Str → Swept
  sweep_loop zero deps junk = final_save deps junk
  sweep_loop (suc i) deps junk = elim (at i deps) [
    | none ↦ panicked
    | some e ↦ elim (transitive_value e) [
      | none ↦ sweep_loop i deps junk
      | some value ↦
          try_without (slice_remove_index deps i)
            (λ shorter. sweep_loop i shorter (junk ++ value ∷ [])) (sweep_loop i deps junk)
    ]
  ]

  abbrev pub sweep_list : List Expr → Swept
  sweep_list deps =
      if not (has_transitive_deps deps)
      then returned (ok (deps, []))
      else if not (builds deps)
      then panicked
      else sweep_loop (length deps) deps []

  -- `sweepTransitive`, of the attribute; without a list there is none to return
  unfoldable pub sweep_transitive : Option AttrExpr → Swept
  sweep_transitive none = returned (ok ([], []))
  sweep_transitive (some no_list) = returned (ok ([], []))
  sweep_transitive (some (list_expr deps)) = sweep_list deps
