-- ===== src/ScalaConfig/Named.antt =====
-- The lists of conflict resolvers and of deps cleaners in a configuration, and the directives that
-- change them. A clone of a configuration shares the arrays of its lists.
pub mod Removal
pub mod Shared
pub mod Appended
use scala_gazelle.Prelude.{
  ℕ, zero, suc, ◌+◌, Str, str_has_eq, Bool, true, false, Option, none, some, List, [], ◌∷◌, ◌++◌,
  ◌==◌, if◌then◌else◌, take, drop, Outcome, returned, panicked, fields,
}
use scala_gazelle.Collections.Intent.{Intent, parse_intent}
use scala_gazelle.Collections.Slice.{Slice, at, cut}

-- append(s, x): x stands behind the items, in the array of the slice where that has room, or else in a
-- new one. What stands further behind in the array stays.
unfoldable pub append_item : {A : Type 0} → A → Slice A → Slice A
append_item x s = record {
  array = take s.len s.array ++ x ∷ drop (suc s.len) s.array;
  len = suc s.len;
}

module _ {A : Type 0} (name : A → Str) (known : Str → Option A) where
  abbrev pub is_named : Str → Option A → Bool
  is_named want none = false
  is_named want (some x) = name x == want

  -- the loop over `i`, which reads the array, `n` rounds from the end
  unfoldable pub remove_named : Str → ℕ → ℕ → Slice A → Outcome (Slice A)
  remove_named want zero i s = returned s
  remove_named want (suc n) i s = elim (is_named want (at i s.array)) [
    | false ↦ remove_named want n (suc i) s
    | true ↦ elim (cut i s) [ panicked ↦ panicked | returned s' ↦ remove_named want n (suc i) s' ]
  ]

  -- the loop body for one intent; `none` is the error for an unknown name
  unfoldable pub apply_intent : Intent → Slice A → Outcome (Option (Slice A))
  apply_intent intent s = elim intent.want [
    | true ↦ elim (known intent.value) [
      | none ↦ returned none
      | some x ↦ returned (some (append_item x s))
    ]
    | false ↦ elim (remove_named intent.value s.len 0 s) [
      | panicked ↦ panicked
      | returned s' ↦ returned (some s')
    ]
  ]

  unfoldable pub apply_keys : List Str → Slice A → Outcome (Option (Slice A))
  apply_keys [] s = returned (some s)
  apply_keys (key ∷ keys) s = elim (apply_intent (parse_intent key) s) [
    | panicked ↦ panicked
    | returned o ↦ elim o [ none ↦ returned none | some s' ↦ apply_keys keys s' ]
  ]

  -- `parseResolveConflictsDirective` and `parseScalaDepsCleanerDirective`
  unfoldable pub parse_directive : Str → Slice A → Outcome (Option (Slice A))
  parse_directive value s = apply_keys (fields value) s
