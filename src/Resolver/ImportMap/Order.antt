-- ===== src/Resolver/ImportMap/Order.antt =====
-- The invariant of the ordered map, and what `Get` finds after a `Put`.
use scala_gazelle.Prelude.{
  Str, str_has_eq, str_eq_iff, Bool, true, not, ◌&&◌, none, some, List, [], ◌∷◌, ◌++◌, map, ◌==◌,
  if◌then◌else◌, find, ◌≡◌, refl, arith, contains, Distinct, Distinct-snoc, contains-append,
  Bool-cases, inl, inr, is_nil,
}
use mathlib.Core.List.{map-append}
use scala_gazelle.Prelude.Map
use scala_gazelle.Prelude.Map.{Assoc, get-put}
use scala_gazelle.Resolver.Import.{Import}
use scala_gazelle.Resolver.ImportMap.{
  OrderedImportMap, is_set, put, put_all, empty, new_import_map, keys, get,
}

-- `has` knows exactly the keys, and no key stands twice.
pub record IsConsistent (m : OrderedImportMap) : Type 0 where
  pub known : (k : Str) → is_set (Map.get k m.has) ≡ contains k (keys m)
  pub distinct : Distinct (keys m)

pub IsConsistent-empty : IsConsistent empty
IsConsistent-empty = record { known = λ k. refl; distinct = tt }

pub keys-put :
    (imp : Import) (m : OrderedImportMap)
    → keys (put imp m) ≡ (if is_set (Map.get imp.imp m.has) then keys m else keys m ++ imp.imp ∷ [])
unfolding put
keys-put imp m = elim (Bool-cases (is_set (Map.get imp.imp m.has))) [
  | inl old ↦ rw old
  | inr new ↦ rw new (map-append (λ (i : Import). i.imp) m.values (imp ∷ []))
]

-- `Put` keeps the map consistent, whether or not the name is there.
pub put-IsConsistent :
    (imp : Import) (m : OrderedImportMap) → IsConsistent m → IsConsistent (put imp m)
put-IsConsistent imp m c = elim (Bool-cases (is_set (Map.get imp.imp m.has))) [
  | inl old ↦ unfold put in rw old c
  | inr new ↦ record {
    known = λ k.
        rw (keys-put imp m, new)
          (unfold put in
            ground (
              arith,
              new,
              c.known k,
              get-put imp.imp k true m.has,
              contains-append k (keys m) (imp.imp ∷ []),
              str_eq_iff imp.imp k,
              str_eq_iff k imp.imp,
            ));
    distinct =
        rw (keys-put imp m, new)
          (Distinct-snoc imp.imp (keys m) c.distinct (ground (arith, c.known imp.imp)));
  }
]

put_all-IsConsistent :
    (imports : List Import) (m : OrderedImportMap)
    → IsConsistent m
    → IsConsistent (put_all imports m)
put_all-IsConsistent [] m c = c
put_all-IsConsistent (imp ∷ imports) m c =
    put_all-IsConsistent imports (put imp m) (put-IsConsistent imp m c)

-- `NewImportMap` of any imports is consistent.
pub new_import_map-IsConsistent : (imports : List Import) → IsConsistent (new_import_map imports)
unfolding new_import_map
new_import_map-IsConsistent imports = put_all-IsConsistent imports empty IsConsistent-empty

find-append :
    (p : Import → Bool) (xs ys : List Import)
    → find p (xs ++ ys) ≡ elim (find p xs) [ none ↦ find p ys | some x ↦ some x ]
find-append p [] ys = refl
find-append p (x ∷ xs) ys = ground (arith, find-append p xs ys)

is_nil-find :
    (key : Str) (values : List Import)
    → is_nil (find (λ imp. imp.imp == key) values)
      ≡ not (contains key (map (λ imp. imp.imp) values))
is_nil-find key [] = refl
is_nil-find key (imp ∷ values) =
    ground (arith, is_nil-find key values, str_eq_iff imp.imp key, str_eq_iff key imp.imp)

-- The first import of a name stays: after a `Put`, `Get` finds the new import under its name where
-- the map had none, and every other answer is as before.
pub get-put_first :
    (key : Str) (imp : Import) (m : OrderedImportMap)
    → IsConsistent m
    → get key (put imp m)
      ≡ (if imp.imp == key && not (contains key (keys m)) then some imp else get key m)
unfolding get put
get-put_first key imp m c = ground (
  arith,
  c.known imp.imp,
  str_eq_iff imp.imp key,
  find-append (λ i. i.imp == key) m.values (imp ∷ []),
  is_nil-find key m.values,
)
