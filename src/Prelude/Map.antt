-- ===== src/Prelude/Map.antt =====
-- Go maps as association lists. Their order is never observed: where the program ranges over a
-- map, it sorts what it collects, or the model says so.
use mathlib.Core.Path.{◌≡◌, refl, subst, ◌∙◌}
use mathlib.Core.List.{List, [], ◌∷◌, ◌++◌, append-nil, append_assoc}
use mathlib.Core.Logic.{inl, inr}
use mathlib.Core.Option.{Option, none, some}
use native.Mathlib.Omega.{arith}
use mathlib.Core.Bool.{false, ◌||◌}
use scala_gazelle.Prelude.Lists.{contains, contains-middle, Distinct}
use scala_gazelle.Prelude.Tests.{Eq, ◌==◌, if◌then◌else◌, Bool-cases}

abbrev pub Assoc {ℓ κ} : Type ℓ → Type κ → Type (ℓ ⊔ κ)
Assoc K V = List (K × V)

module _ {ℓ κ} {K : Type ℓ} {V : Type κ} ⦃e : Eq K⦄ where
  -- m[k]
  abbrev pub get : K → Assoc K V → Option V
  get k [] = none
  get k ((j, v) ∷ m) = if j == k then some v else get k m

  -- m[k] = v
  abbrev pub put : K → V → Assoc K V → Assoc K V
  put k v [] = (k, v) ∷ []
  put k v ((j, w) ∷ m) = if j == k then (k, v) ∷ m else (j, w) ∷ put k v m

  -- delete(m, k)
  abbrev pub remove : K → Assoc K V → Assoc K V
  remove k [] = []
  remove k ((j, v) ∷ m) = let rest = remove k m in if j == k then rest else (j, v) ∷ rest

  abbrev pub keys : Assoc K V → List K
  keys [] = []
  keys ((j, v) ∷ m) = j ∷ keys m

  pub get-put :
      (k j : K) (v : V) (m : Assoc K V) → get j (put k v m) ≡ (if k == j then some v else get j m)
  get-put k j v [] = refl
  get-put k j v ((i, w) ∷ m) =
      ground (arith, e.same_iff k j, e.same_iff i k, e.same_iff i j, get-put k j v m)

  pub get-remove :
      (k j : K) (m : Assoc K V) → get j (remove k m) ≡ (if k == j then none else get j m)
  get-remove k j [] = ground arith
  get-remove k j ((i, v) ∷ m) =
      ground (arith, e.same_iff k j, e.same_iff i k, e.same_iff i j, get-remove k j m)

  -- for k, v := range from { to[k] = v }
  abbrev pub copy_into : Assoc K V → Assoc K V → Assoc K V
  copy_into [] to = to
  copy_into ((k, v) ∷ from) to = copy_into from (put k v to)

  -- every key once
  abbrev pub IsMap : Assoc K V → Type 0
  IsMap m = Distinct (keys m)

  pub put-put : (k : K) (v w : V) (m : Assoc K V) → put k v (put k w m) ≡ put k v m
  put-put k v w [] = ground (arith, e.same_iff k k)
  put-put k v w ((i, u) ∷ m) = ground (arith, e.same_iff k k, e.same_iff i k, put-put k v w m)

  pub put_same : (k : K) (v : V) (m : Assoc K V) → get k m ≡ some v → put k v m ≡ m
  put_same k v [] h = ground arith
  put_same k v ((i, u) ∷ m) h = ground (arith, e.same_iff i k, put_same k v m)

  pub get-missing : (k : K) (m : Assoc K V) → contains k (keys m) ≡ false → get k m ≡ none
  get-missing k [] h = refl
  get-missing k ((i, w) ∷ m) h = ground (arith, e.same_iff i k, e.same_iff k i, get-missing k m)

  contains_key-put :
      (k j : K) (v : V) (m : Assoc K V)
      → contains j (keys (put k v m)) ≡ (j == k || contains j (keys m))
  contains_key-put k j v [] = refl
  contains_key-put k j v ((i, w) ∷ m) =
      ground (arith, e.same_iff j k, e.same_iff i k, e.same_iff j i, contains_key-put k j v m)

  pub put-IsMap : (k : K) (v : V) (m : Assoc K V) → IsMap m → IsMap (put k v m)
  put-IsMap k v [] h = (refl, tt)
  put-IsMap k v ((i, w) ∷ m) h = elim (Bool-cases (i == k)) [
    | inl t ↦ rw t (ground (arith, e.same_iff i k, h.0), h.1)
    | inr t ↦ rw t (ground (arith, contains_key-put k i v m, h.0), put-IsMap k v m h.1)
  ]

  contains_key-remove :
      (k j : K) (m : Assoc K V)
      → contains j (keys m) ≡ false
      → contains j (keys (remove k m)) ≡ false
  contains_key-remove k j [] h = refl
  contains_key-remove k j ((i, w) ∷ m) h = ground (arith, contains_key-remove k j m)

  pub remove-IsMap : (k : K) (m : Assoc K V) → IsMap m → IsMap (remove k m)
  remove-IsMap k [] h = tt
  remove-IsMap k ((i, w) ∷ m) h = elim (Bool-cases (i == k)) [
    | inl t ↦ rw t (remove-IsMap k m h.1)
    | inr t ↦ rw t (contains_key-remove k i m h.0, remove-IsMap k m h.1)
  ]

  pub keys-append : (m n : Assoc K V) → keys (m ++ n) ≡ keys m ++ keys n
  keys-append [] n = refl
  keys-append ((i, w) ∷ m) n = rw (keys-append m n) refl

  pub put_new :
      (k : K) (v : V) (m : Assoc K V) → contains k (keys m) ≡ false → put k v m ≡ m ++ (k, v) ∷ []
  put_new k v [] h = refl
  put_new k v ((i, w) ∷ m) h = ground (arith, e.same_iff i k, e.same_iff k i, put_new k v m)

  copy_into_behind : (from to : Assoc K V) → IsMap (to ++ from) → copy_into from to ≡ to ++ from
  copy_into_behind [] to h = rw (append-nil to) refl
  copy_into_behind ((k, v) ∷ from) to h =
      let separate : Distinct (keys to ++ k ∷ keys from) =
        subst Distinct (keys-append to ((k, v) ∷ from)) h in
      rw (put_new k v to (contains-middle k (keys to) (keys from) separate)) (
        copy_into_behind from (to ++ (k, v) ∷ []) (rw (append_assoc to ((k, v) ∷ []) from) h)
        ∙ append_assoc to ((k, v) ∷ []) from)

  -- a copy of a map into a new one has the same entries
  pub copy_into_new : (m : Assoc K V) → IsMap m → copy_into m [] ≡ m
  copy_into_new m h = copy_into_behind m [] h

pub ruleset map_laws = (get-put, get-remove)
