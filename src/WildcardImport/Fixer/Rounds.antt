-- ===== src/WildcardImport/Fixer/Rounds.antt =====
-- The rounds of the fixer: there are not more than symbols, and the last one built what is left.
use scala_gazelle.Prelude.{
  suc, ◌<◌, ◌≤◌, Str, str_has_eq, str_eq_iff, true, false, List, [], ◌∷◌, ◌++◌, ◌==◌, contains,
  Distinct, Distinct-snoc, length, All, All-append, Bool-cases, inl, inr, ◌≡◌, refl, arith,
  if◌then◌else◌,
}
use scala_gazelle.WildcardImport.Fixer.{add_symbol, add_symbols}

abbrev pub In : List Str → Str → Type 0
In known s = contains s known ≡ true

length-snoc {ℓ} : {A : Type ℓ} (xs : List A) (x : A) → length (xs ++ x ∷ []) ≡ suc (length xs)
length-snoc [] x = refl
length-snoc (y ∷ xs) x = ground (arith, length-snoc xs x)

-- without the first occurrence of s
unfoldable without : Str → List Str → List Str
without s [] = []
without s (x ∷ xs) = let rest = without s xs in if s == x then xs else x ∷ rest

length-without : (s : Str) (xs : List Str) → In xs s → suc (length (without s xs)) ≡ length xs
unfolding without
length-without s [] h = ground arith
length-without s (x ∷ xs) h = ground (arith, length-without s xs)

contains-without : (s t : Str) (xs : List Str) → (s == t) ≡ false → In xs t → In (without s xs) t
unfolding without
contains-without s t [] n h = ground arith
contains-without s t (x ∷ xs) n h =
    ground (arith, contains-without s t xs, str_eq_iff s x, str_eq_iff s t, str_eq_iff t x)

All-without :
    (s : Str) (ys known : List Str)
    → contains s ys ≡ false
    → All (In known) ys
    → All (In (without s known)) ys
All-without s [] known n h = h
All-without s (y ∷ ys) known n h =
    (contains-without s y known (ground arith) h.0, All-without s ys known (ground arith) h.1)

-- distinct items of a list are not more than the list has
length-Distinct : (xs known : List Str) → Distinct xs → All (In known) xs → length xs ≤ length known
length-Distinct [] known d h = ground arith
length-Distinct (x ∷ xs) known d h = ground (
  arith,
  length-Distinct xs (without x known) d.1 (All-without x xs known d.0 h.1),
  length-without x known h.0,
)

-- the set of the symbols found so far
pub IsKnown : List Str → List Str → Type 0
IsKnown known completion = Distinct completion × All (In known) completion

add_symbol-IsKnown :
    (known : List Str) (sym : Str) (completion : List Str)
    → In known sym
    → IsKnown known completion
    → IsKnown known (add_symbol sym completion)
unfolding IsKnown
add_symbol-IsKnown known sym completion h (d, k) = elim (Bool-cases (contains sym completion)) [
  | inl e ↦ rw e (d, k)
  | inr e ↦
      rw e (Distinct-snoc sym completion d e, All-append (In known) completion (sym ∷ []) k (h, tt))
]

pub add_symbols-IsKnown :
    (known symbols completion : List Str)
    → All (In known) symbols
    → IsKnown known completion
    → IsKnown known (add_symbols symbols completion).0
unfolding add_symbols
add_symbols-IsKnown known [] completion h k = k
add_symbols-IsKnown known (s ∷ symbols) completion h k =
    add_symbols-IsKnown known symbols (add_symbol s completion) h.1
      (add_symbol-IsKnown known s completion h.0 k)

length-add_symbols :
    (symbols completion : List Str) → length completion ≤ length (add_symbols symbols completion).0
unfolding add_symbols
length-add_symbols [] completion = ground arith
length-add_symbols (s ∷ symbols) completion =
    ground (arith, length-add_symbols symbols (add_symbol s completion), length-snoc completion s)

pub length-add_symbols_new :
    (symbols completion : List Str)
    → (add_symbols symbols completion).1 ≡ true
    → length completion < length (add_symbols symbols completion).0
unfolding add_symbols
length-add_symbols_new [] completion h = ground arith
length-add_symbols_new (s ∷ symbols) completion h = ground (
  arith,
  length-add_symbols symbols (add_symbol s completion),
  length-add_symbols_new symbols (add_symbol s completion),
  length-snoc completion s,
)

pub IsKnown-nil : (known : List Str) → IsKnown known []
unfolding IsKnown
IsKnown-nil known = (tt, tt)

pub length-IsKnown :
    (known completion : List Str) → IsKnown known completion → length completion ≤ length known
unfolding IsKnown
length-IsKnown known completion (d, k) = length-Distinct completion known d k
