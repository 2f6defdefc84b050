-- ===== src/ScalaConfig/Named/Appended.antt =====
-- Appends to the list of a configuration, and the clones that share its array.
use scala_gazelle.Prelude.{
  ℕ, zero, suc, ◌≤◌, List, [], ◌∷◌, ◌++◌, take, drop, length, ◌≡◌, refl, arith, ap, length-append,
}
use scala_gazelle.Collections.Slice.{Slice, items}
use scala_gazelle.ScalaConfig.Named.{append_item}

module _ {A : Type 0} where
  -- the length is in range
  abbrev pub IsSlice : Slice A → Type 0
  IsSlice s = s.len ≤ length s.array

  length-take : (n : ℕ) (xs : List A) → n ≤ length xs → length (take n xs) ≡ n
  length-take zero xs h = refl
  length-take (suc n) [] h = omega arith
  length-take (suc n) (x ∷ xs) h = ap suc (length-take n xs (omega arith))

  take_appended :
      (n : ℕ) (xs : List A) (x : A)
      → n ≤ length xs
      → take (suc n) (take n xs ++ x ∷ drop (suc n) xs) ≡ take n xs ++ x ∷ []
  take_appended zero xs x h = refl
  take_appended (suc n) [] x h = ground arith
  take_appended (suc n) (y ∷ xs) x h = ap (◌∷◌ y) (take_appended n xs x (omega arith))

  pub items-append_item :
      (x : A) (s : Slice A) → IsSlice s → items (append_item x s) ≡ items s ++ x ∷ []
  unfolding items append_item
  items-append_item x s h = take_appended s.len s.array x h

  pub append_item-IsSlice : (x : A) (s : Slice A) → IsSlice s → IsSlice (append_item x s)
  unfolding append_item
  append_item-IsSlice x s h = omega (
    arith,
    length-append (take s.len s.array) (x ∷ drop (suc s.len) s.array),
    length-take s.len s.array h,
  )
