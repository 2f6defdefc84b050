-- ===== src/ScalaConfig/Named/Removal.antt =====
-- What a removal leaves in the list, and in the list of the configuration that was cloned.
use scala_gazelle.Prelude.{
  ℕ, zero, suc, ◌+◌, ◌-◌, ◌<◌, Str, str_has_eq, true, false, Option, some, List, [], ◌∷◌, ◌++◌,
  ◌==◌, length, All, returned, panicked, ◌≡◌, refl, arith, leb, subst, ◌∙◌, append-nil,
}
use native.Mathlib.Nat.{zero-add, add-zero, suc-add}
use scala_gazelle.Collections.Slice.{Slice, take-past, drop-past, at, cut}
use scala_gazelle.ScalaConfig.Named.{is_named, remove_named}

module _ {A : Type 0} (name : A → Str) (known : Str → Option A) (want : Str) where
  abbrev pub IsOther : A → Type 0
  IsOther x = (name x == want) ≡ false

  at-past : (xs ys : List A) (i : ℕ) → at (length xs + i) (xs ++ ys) ≡ at i ys
  unfolding at
  at-past [] ys i = ground arith
  at-past (x ∷ xs) ys i = ground (arith, at-past xs ys i)

  at-within :
      (xs ys : List A) (i : ℕ)
      → All IsOther xs
      → i < length xs
      → is_named name known want (at i (xs ++ ys)) ≡ false
  unfolding at
  at-within [] ys i h l = ground arith
  at-within (x ∷ xs) ys zero h l = h.0
  at-within (x ∷ xs) ys (suc i) h l = at-within xs ys i h.1 (omega arith)

  -- rounds over other items change nothing
  remove_named-skip :
      (k n i : ℕ) (s : Slice A)
      → ((j : ℕ) → j < k → is_named name known want (at (i + j) s.array) ≡ false)
      → remove_named name known want (k + n) i s ≡ remove_named name known want n (i + k) s
  unfolding remove_named
  remove_named-skip zero n i s h = rw (zero-add, add-zero) refl
  remove_named-skip (suc k) n i s h =
      let here : is_named name known want (at i s.array) ≡ false =
        subst (λ j. is_named name known want (at j s.array) ≡ false) (add-zero i)
          (h 0 (omega arith)) in
      let step : suc i + k ≡ i + suc k = omega arith in
      rw (suc-add k n, remove_named, here)
        (subst
          (λ j. remove_named name known want (k + n) (suc i) s ≡ remove_named name known want n j s)
          step
          (remove_named-skip k n (suc i) s λ j l.
            let moved : i + suc j ≡ suc i + j = omega arith in
            subst (λ q. is_named name known want (at q s.array) ≡ false) moved
              (h (suc j) (omega arith))))

  -- others, and two more items
  abbrev pub doubled : List A → A → A → Slice A
  doubled xs a b = record { array = xs ++ a ∷ b ∷ []; len = length xs + 2 }

  cut-doubled :
      (xs : List A) (a b : A)
      → cut (length xs + 0) (doubled xs a b)
        ≡ returned (record { array = xs ++ b ∷ b ∷ []; len = length xs + 1 })
  unfolding cut
  cut-doubled xs a b =
      let in_range : leb (suc (length xs + 0)) (length xs + 2) ≡ true = ground arith in
      let one : length xs + 2 - suc (length xs + 0) ≡ 1 = omega arith in
      let next : suc (length xs + 0) ≡ length xs + 1 = omega arith in
      let last : length xs + 2 - 1 ≡ length xs + 1 = omega arith in
      rw
        (
          in_range,
          one,
          next,
          last,
          take-past xs (a ∷ b ∷ []) 0,
          drop-past xs (a ∷ b ∷ []) 1,
          append-nil xs,
        )
        refl

  cut-past :
      (xs : List A) (b c : A)
      → cut (length xs + 1) (record { array = xs ++ b ∷ c ∷ []; len = length xs + 1 }) ≡ panicked
  unfolding cut
  cut-past xs b c =
      let past : leb (suc (length xs + 1)) (length xs + 1) ≡ false = ground arith in rw past refl

  at-doubled :
      (xs : List A) (a b : A)
      → (at (length xs + 0) (xs ++ a ∷ b ∷ []) ≡ some a)
        × (at (length xs + 1) (xs ++ a ∷ b ∷ []) ≡ some b)
  unfolding at
  at-doubled xs a b = (at-past xs (a ∷ b ∷ []) 0, at-past xs (a ∷ b ∷ []) 1)

  remove_named-last_two :
      (xs : List A) (a b : A)
      → (name a == want) ≡ true
      → (name b == want) ≡ true
      → remove_named name known want 2 (length xs + 0) (doubled xs a b) ≡ panicked
  unfolding remove_named
  remove_named-last_two xs a b ha hb =
      let next : suc (length xs + 0) ≡ length xs + 1 = omega arith in
      rw
        (
          remove_named,
          (at-doubled xs a b).0,
          ha,
          cut-doubled xs a b,
          next,
          (at-doubled xs b b).1,
          hb,
          next,
          cut-past xs b b,
        )
        refl

-- Let a list end with two items of one name, and let no other item have it. Removing the name panics:
-- the first of the two is cut, and the loop then cuts behind the end of the shorter list.
pub remove_named-doubled :
    {A : Type 0} (name : A → Str) (known : Str → Option A) (want : Str) (xs : List A) (a b : A)
    → All (IsOther name known want) xs
    → (name a == want) ≡ true
    → (name b == want) ≡ true
    → remove_named name known want (length xs + 2) 0 (doubled name known want xs a b) ≡ panicked
remove_named-doubled name known want xs a b h ha hb =
    remove_named-skip name known want (length xs) 2 0 (doubled name known want xs a b)
      (λ j l. rw zero-add (at-within name known want xs (a ∷ b ∷ []) j h l))
    ∙ rw (zero-add) (
        subst (λ i. remove_named name known want 2 i (doubled name known want xs a b) ≡ panicked)
          (add-zero (length xs)) (remove_named-last_two name known want xs a b ha hb))
