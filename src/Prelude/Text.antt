-- ===== src/Prelude/Text.antt =====
-- Go strings as byte sequences, with the functions of package `strings` that the program calls.
use Prim.Native.Nat.{ℕ, suc, ◌-◌}
use Prim.Native.Char.{code}
use Prim.Native.String.{String}
use mathlib.Core.Path.{◌≡◌, refl, ap₂}
use mathlib.Core.Bool.{Bool, true, false, ◌&&◌, ◌||◌}
use mathlib.Core.Logic.{◌↔◌}
use mathlib.Core.List.{List, [], ◌∷◌, ◌++◌}
use mathlib.Core.Option.{Option, none, some}
use native.Mathlib.Omega.{arith}
use scala_gazelle.Prelude.Tests.{Eq, nat_beq, leb, ltb, if◌then◌else◌}
use scala_gazelle.Prelude.Lists.{length, take, drop, drop-append}

abbrev pub Str : Type 0
Str = List ℕ

-- The bytes of an ASCII literal.
abbrev pub codes : String → Str
codes String.[] = []
codes (String.◌∷◌ c s) = code c ∷ codes s

abbrev pub str_eq : Str → Str → Bool
str_eq [] [] = true
str_eq [] (b ∷ t) = false
str_eq (a ∷ s) [] = false
str_eq (a ∷ s) (b ∷ t) = nat_beq a b && str_eq s t

str_eq-eq : (s t : Str) → str_eq s t ≡ true → s ≡ t
str_eq-eq [] [] h = refl
str_eq-eq [] (b ∷ t) h = ground arith
str_eq-eq (a ∷ s) [] h = ground arith
str_eq-eq (a ∷ s) (b ∷ t) h = ap₂ ◌∷◌ (ground arith) (str_eq-eq s t (ground arith))

pub str_eq_refl : (s : Str) → str_eq s s ≡ true
str_eq_refl [] = refl
str_eq_refl (a ∷ s) = ground (arith, str_eq_refl s)

str_eq-of_eq : (s t : Str) → s ≡ t → str_eq s t ≡ true
str_eq-of_eq s t h = ground (arith, str_eq_refl s)

pub str_eq_iff : (s t : Str) → (str_eq s t ≡ true) ↔ (s ≡ t)
str_eq_iff s t = (str_eq-eq s t, str_eq-of_eq s t)

instance abbrev pub str_has_eq : Eq Str
str_has_eq = record { same = str_eq; same_iff = str_eq_iff }

abbrev pub IsNotEmpty : Str → Type 0
IsNotEmpty s = str_eq s [] ≡ false

-- strings.HasPrefix
abbrev pub has_prefix : Str → Str → Bool
has_prefix s [] = true
has_prefix [] (c ∷ p) = false
has_prefix (a ∷ s) (c ∷ p) = nat_beq a c && has_prefix s p

-- strings.HasSuffix
abbrev pub has_suffix : Str → Str → Bool
has_suffix s p = leb (length p) (length s) && str_eq (drop (length s - length p) s) p

-- strings.TrimPrefix
abbrev pub trim_prefix : Str → Str → Str
trim_prefix s p = if has_prefix s p then drop (length p) s else s

-- strings.TrimSuffix
abbrev pub trim_suffix : Str → Str → Str
trim_suffix s p = if has_suffix s p then take (length s - length p) s else s

pub has_prefix-append : (p s : Str) → has_prefix (p ++ s) p ≡ true
has_prefix-append [] s = refl
has_prefix-append (c ∷ p) s = ground (arith, has_prefix-append p s)

pub trim_prefix-append : (p s : Str) → trim_prefix (p ++ s) p ≡ s
trim_prefix-append p s = rw has_prefix-append (drop-append p s)

-- strings.IndexRune at an ASCII rune: the offset of the first occurrence.
abbrev pub index_byte : ℕ → Str → Option ℕ
index_byte b [] = none
index_byte b (c ∷ s) =
    if nat_beq c b then some 0 else elim (index_byte b s) [ none ↦ none | some i ↦ some (suc i) ]

-- strings.LastIndex at a one-byte text: the offset of the last occurrence.
abbrev pub last_index : ℕ → Str → Option ℕ
last_index b [] = none
last_index b (c ∷ s) = elim (last_index b s) [
  | none ↦ if nat_beq c b then some 0 else none
  | some i ↦ some (suc i)
]

-- strings.Join
abbrev pub join : Str → List Str → Str
join sep [] = []
join sep (s ∷ []) = s
join sep (s ∷ t ∷ rest) = s ++ (sep ++ join sep (t ∷ rest))

-- strings.Contains
abbrev pub has_substring : Str → Str → Bool
has_substring [] p = has_prefix [] p
has_substring (c ∷ s) p = has_prefix (c ∷ s) p || has_substring s p

-- `<` on Go strings: byte order, a proper prefix first.
abbrev pub str_lt : Str → Str → Bool
str_lt [] [] = false
str_lt [] (b ∷ t) = true
str_lt (a ∷ s) [] = false
str_lt (a ∷ s) (b ∷ t) = ltb a b || nat_beq a b && str_lt s t

abbrev pub strs_eq : List Str → List Str → Bool
strs_eq [] [] = true
strs_eq [] (b ∷ t) = false
strs_eq (a ∷ s) [] = false
strs_eq (a ∷ s) (b ∷ t) = str_eq a b && strs_eq s t

strs_eq-eq : (s t : List Str) → strs_eq s t ≡ true → s ≡ t
strs_eq-eq [] [] h = refl
strs_eq-eq [] (b ∷ t) h = ground arith
strs_eq-eq (a ∷ s) [] h = ground arith
strs_eq-eq (a ∷ s) (b ∷ t) h =
    ap₂ ◌∷◌ (str_eq-eq a b (ground arith)) (strs_eq-eq s t (ground arith))

strs_eq_refl : (s : List Str) → strs_eq s s ≡ true
strs_eq_refl [] = refl
strs_eq_refl (a ∷ s) = ground (arith, str_eq_refl a, strs_eq_refl s)

pub strs_eq_iff : (s t : List Str) → (strs_eq s t ≡ true) ↔ (s ≡ t)
strs_eq_iff s t = (strs_eq-eq s t, λ h. ground (arith, strs_eq_refl s))

instance abbrev pub strs_has_eq : Eq (List Str)
strs_has_eq = record { same = strs_eq; same_iff = strs_eq_iff }
