-- ===== src/Collections/Slice.antt =====
-- Go slices that share an array, and pkg/collections/slice.go.
use scala_gazelle.Prelude.{
  ℕ, zero, suc, ◌-◌, ◌≤◌, Option, none, some, List, [], ◌∷◌, ◌++◌, length, take, drop, leb,
  if◌then◌else◌, Outcome, returned, panicked, ◌≡◌, refl, arith, Bool-cases, inl, inr, sym, ap, ◌+◌,
}
use native.Mathlib.Nat.{zero-add, suc-add}

-- a slice from the front of its array
pub record Slice (A : Type 0) : Type 0 where
  pub array : List A
  pub len : ℕ

module _ {A : Type 0} where
  unfoldable pub items : Slice A → List A
  items s = take s.len s.array

  -- array[i], as `range` reads it
  unfoldable pub at : ℕ → List A → Option A
  at i [] = none
  at zero (x ∷ xs) = some x
  at (suc i) (x ∷ xs) = at i xs

  -- append(s[:i], s[i+1:]...): the items behind i move down in the array, where the last stays
  unfoldable pub cut : ℕ → Slice A → Outcome (Slice A)
  cut i s =
      if leb (suc i) s.len
      then returned (record {
        array =
            take i s.array
            ++ (take (s.len - suc i) (drop (suc i) s.array) ++ drop (s.len - 1) s.array);
        len = s.len - 1;
      })
      else panicked

  -- `SliceRemoveIndex`: a new slice without the item, and a panic out of range
  unfoldable pub slice_remove_index : List A → ℕ → Outcome (List A)
  slice_remove_index slice i =
      if leb (suc i) (length slice) then returned (take i slice ++ drop (suc i) slice) else panicked

  -- `SliceInsertAt`
  unfoldable pub slice_insert_at : List A → ℕ → A → Outcome (List A)
  slice_insert_at slice i value =
      if leb i (length slice) then returned (take i slice ++ value ∷ drop i slice) else panicked

  pub take-past : (xs ys : List A) (i : ℕ) → take (length xs + i) (xs ++ ys) ≡ xs ++ take i ys
  take-past [] ys i = rw zero-add refl
  take-past (x ∷ xs) ys i = rw suc-add (ap (◌∷◌ x) (take-past xs ys i))

  pub drop-past : (xs ys : List A) (i : ℕ) → drop (length xs + i) (xs ++ ys) ≡ drop i ys
  drop-past [] ys i = rw zero-add refl
  drop-past (x ∷ xs) ys i = rw suc-add (drop-past xs ys i)

  pub take-length : (xs : List A) → take (length xs) xs ≡ xs
  take-length [] = refl
  take-length (x ∷ xs) = ap (◌∷◌ x) (take-length xs)

  inserted :
      (i : ℕ) (value : A) (xs : List A)
      → i ≤ length xs
      → slice_remove_index (take i xs ++ value ∷ drop i xs) i ≡ returned xs
  unfolding slice_remove_index
  inserted zero value [] h = refl
  inserted zero value (x ∷ xs) h = ground arith
  inserted (suc i) value [] h = ground arith
  inserted (suc i) value (x ∷ xs) h = ground (arith, inserted i value xs)

  -- What is inserted at an index in range is removed at this index again.
  pub slice_remove_index-slice_insert_at :
      (xs ys : List A) (i : ℕ) (value : A)
      → slice_insert_at xs i value ≡ returned ys
      → slice_remove_index ys i ≡ returned xs
  unfolding slice_insert_at
  slice_remove_index-slice_insert_at xs ys i value h = elim (Bool-cases (leb i (length xs))) [
    | inl e ↦
        let same : take i xs ++ value ∷ drop i xs ≡ ys = ground (arith, e, h) in
        rw (sym same) (inserted i value xs (ground (arith, e)))
    | inr e ↦ ground (arith, e, h)
  ]
