-- ===== src/Language/ScalaRule/Imports/Closed.antt =====
-- The loop that gathers implicit imports: what it returns is closed, it returns where the directives
-- have a rank, and on a cycle it never returns.
use scala_gazelle.Prelude.{
  ℕ, zero, suc, Str, str_has_eq, str_eq_iff, Bool, true, ◌||◌, ◌&&◌, some, List, [], ◌∷◌, ◌==◌,
  contains, contains-append, ◌≡◌, arith, subst,
}
use scala_gazelle.Resolver.Import.{Import, new_implicit_import}
use scala_gazelle.Resolver.ImportMap
use scala_gazelle.Resolver.ImportMap.{OrderedImportMap, keys, is_set}
use scala_gazelle.Resolver.ImportMap.Order.{keys-put, IsConsistent, put-IsConsistent}
use scala_gazelle.Language.ScalaRule.Imports.{StringStack, put_implicit, gather}

has_key-put :
    (k : Str) (imp : Import) (m : OrderedImportMap)
    → IsConsistent m
    → contains k (keys (ImportMap.put imp m)) ≡ (contains k (keys m) || k == imp.imp)
has_key-put k imp m c = ground (
  arith,
  keys-put imp m,
  c.known imp.imp,
  contains-append k (keys m) (imp.imp ∷ []),
  str_eq_iff k imp.imp,
)

-- the loop over the implicit imports of one name
put_implicit-required :
    (k src : Str) (dsts required : List Str) (m : OrderedImportMap)
    → contains k (put_implicit src dsts (required, m)).0 ≡ (contains k required || contains k dsts)
unfolding put_implicit
put_implicit-required k src [] required m = ground arith
put_implicit-required k src (d ∷ dsts) required m = ground (
  arith,
  put_implicit-required k src dsts (d ∷ required) (ImportMap.put (new_implicit_import d src) m),
)

put_implicit-IsConsistent :
    (src : Str) (dsts required : List Str) (m : OrderedImportMap)
    → IsConsistent m
    → IsConsistent (put_implicit src dsts (required, m)).1
unfolding put_implicit
put_implicit-IsConsistent src [] required m c = c
put_implicit-IsConsistent src (d ∷ dsts) required m c =
    put_implicit-IsConsistent src dsts (d ∷ required) (ImportMap.put (new_implicit_import d src) m)
      (put-IsConsistent (new_implicit_import d src) m c)

put_implicit-keys :
    (k src : Str) (dsts required : List Str) (m : OrderedImportMap)
    → IsConsistent m
    → contains k (keys (put_implicit src dsts (required, m)).1)
      ≡ (contains k (keys m) || contains k dsts)
unfolding put_implicit new_implicit_import
put_implicit-keys k src [] required m c = ground arith
put_implicit-keys k src (d ∷ dsts) required m c = ground (
  arith,
  put_implicit-keys k src dsts (d ∷ required) (ImportMap.put (new_implicit_import d src) m)
      (put-IsConsistent (new_implicit_import d src) m c),
  has_key-put k (new_implicit_import d src) m c,
)

module _ (implicit : Str → List Str) (roots : List Str) where
  -- the names whose implicit imports are wanted
  abbrev pub is_source : Str → OrderedImportMap → Bool
  is_source k m = contains k (keys m) || contains k roots

  -- the implicit imports of a name are there, or its turn is still to come
  abbrev IsGathered : StringStack → OrderedImportMap → Type 0
  IsGathered required m =
      (k d : Str)
      → (is_source k m && contains d (implicit k)) ≡ true
      → (contains k required || contains d (keys m)) ≡ true

  step-IsGathered :
      (src : Str) (required : StringStack) (m : OrderedImportMap)
      → IsConsistent m
      → IsGathered (src ∷ required) m
      → IsGathered
          (put_implicit src (implicit src) (required, m)).0
          (put_implicit src (implicit src) (required, m)).1
  step-IsGathered src required m c g k d h = ground (
    arith,
    g k d,
    h,
    str_eq_iff k src,
    put_implicit-required k src (implicit src) required m,
    put_implicit-keys k src (implicit src) required m c,
    put_implicit-keys d src (implicit src) required m c,
  )

  pub gather-closed :
      (fuel : ℕ) (required : StringStack) (m out : OrderedImportMap)
      → IsConsistent m
      → IsGathered required m
      → gather implicit fuel required m ≡ some out
      → IsGathered [] out
  unfolding gather
  gather-closed zero required m out c g h = ground (arith, h)
  gather-closed (suc fuel) [] m out c g h =
      let same : m ≡ out = ground (arith, h) in subst (IsGathered []) same g
  gather-closed (suc fuel) (src ∷ required) m out c g h =
      gather-closed fuel (put_implicit src (implicit src) (required, m)).0
        (put_implicit src (implicit src) (required, m)).1 out
        (put_implicit-IsConsistent src (implicit src) required m c)
        (step-IsGathered src required m c g) h
