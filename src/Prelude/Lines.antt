-- ===== src/Prelude/Lines.antt =====
-- bufio.Scanner with its default split function, as the program reads texts.
use Prim.Native.Nat.{ℕ}
use mathlib.Core.Path.{◌≡◌, refl, ap}
use mathlib.Core.Bool.{Bool, true, false, ◌||◌}
use mathlib.Core.List.{List, [], ◌∷◌, ◌++◌}
use native.Mathlib.Omega.{arith}
use scala_gazelle.Prelude.Tests.{nat_beq, ltb, if◌then◌else◌, Bool-cases}
use mathlib.Core.Logic.{inl, inr}
use scala_gazelle.Prelude.Lists.{length, All}
use scala_gazelle.Prelude.Text.{Str, join}

-- c in front of the first piece
abbrev onto_first : ℕ → List Str → List Str
onto_first c [] = (c ∷ []) ∷ []
onto_first c (l ∷ ls) = (c ∷ l) ∷ ls

-- the pieces between line feeds, without an empty last one
abbrev pub raw_lines : Str → List Str
raw_lines [] = []
raw_lines (c ∷ s) = let rest = raw_lines s in if nat_beq c 10 then [] ∷ rest else onto_first c rest

-- a line without its last carriage return
abbrev pub drop_cr : Str → Str
drop_cr [] = []
drop_cr (c ∷ []) = if nat_beq c 13 then [] else c ∷ []
drop_cr (c ∷ d ∷ s) = c ∷ drop_cr (d ∷ s)

-- A line of this many bytes does not fit the scanner's buffer: the scan stops there with an error.
abbrev pub max_scan_token_size : ℕ
max_scan_token_size = 65536

abbrev pub scanned : List Str → List Str
scanned [] = []
scanned (l ∷ ls) =
    let rest = scanned ls in if ltb (length l) max_scan_token_size then drop_cr l ∷ rest else []

-- the texts of all rounds of `for scanner.Scan()`
unfoldable pub scan_lines : Str → List Str
scan_lines s = scanned (raw_lines s)

-- Every line with a line feed behind it.
abbrev pub unlines : List Str → Str
unlines [] = []
unlines (l ∷ ls) = l ++ 10 ∷ unlines ls

abbrev pub has_byte : ℕ → Str → Bool
has_byte b [] = false
has_byte b (c ∷ s) = if nat_beq c b then true else has_byte b s

-- A line that is read as it was written.
abbrev pub IsLine : Str → Type 0
IsLine l = (has_byte 10 l ≡ false) × (drop_cr l ≡ l) × (ltb (length l) max_scan_token_size ≡ true)

raw_lines-unline : (l s : Str) → has_byte 10 l ≡ false → raw_lines (l ++ 10 ∷ s) ≡ l ∷ raw_lines s
raw_lines-unline [] s h = refl
raw_lines-unline (c ∷ l) s h = ground (arith, raw_lines-unline l s)

raw_lines-unlines : (ls : List Str) → All IsLine ls → raw_lines (unlines ls) ≡ ls
raw_lines-unlines [] h = refl
raw_lines-unlines (l ∷ ls) h =
    rw (raw_lines-unline l (unlines ls) h.0.0, raw_lines-unlines ls h.1) refl

scanned-lines : (ls : List Str) → All IsLine ls → scanned ls ≡ ls
scanned-lines [] h = refl
scanned-lines (l ∷ ls) h = rw (h.0.2, h.0.1, scanned-lines ls h.1) refl

pub scan_lines-unlines : (ls : List Str) → All IsLine ls → scan_lines (unlines ls) ≡ ls
unfolding scan_lines
scan_lines-unlines ls h = rw (raw_lines-unlines ls h) (scanned-lines ls h)

-- `strings.Join(lines, "\n")` with an empty last line
pub join-unlines : (ls : List Str) → join (10 ∷ []) (ls ++ [] ∷ []) ≡ unlines ls
join-unlines [] = refl
join-unlines (l ∷ []) = refl
join-unlines (l ∷ m ∷ ls) = rw (join-unlines (m ∷ ls)) refl

All-onto_first {κ} :
    (P : Str → Type κ) (c : ℕ) (ls : List Str)
    → P (c ∷ [])
    → ((l : Str) → P l → P (c ∷ l))
    → All P ls
    → All P (onto_first c ls)
All-onto_first P c [] one more h = (one, h)
All-onto_first P c (l ∷ ls) one more h = (more l h.0, h.1)

-- the pieces have no line feed, and no other byte that the text has not
raw_lines-has_byte :
    (b : ℕ) (s : Str)
    → has_byte b s ≡ false
    → All (λ l. (has_byte 10 l || has_byte b l) ≡ false) (raw_lines s)
raw_lines-has_byte b [] h = tt
raw_lines-has_byte b (c ∷ s) h = elim (Bool-cases (nat_beq c 10)) [
  | inl e ↦ rw e (refl, raw_lines-has_byte b s (ground arith))
  | inr e ↦ rw e (
      All-onto_first (λ l. (has_byte 10 l || has_byte b l) ≡ false) c (raw_lines s) (ground arith)
        (λ l k. ground arith) (raw_lines-has_byte b s (ground arith)))
]

drop_cr-no_return : (l : Str) → has_byte 13 l ≡ false → drop_cr l ≡ l
drop_cr-no_return [] h = refl
drop_cr-no_return (c ∷ []) h = ground arith
drop_cr-no_return (c ∷ d ∷ l) h = ap (◌∷◌ c) (drop_cr-no_return (d ∷ l) (ground arith))

scanned-IsLine :
    (ls : List Str)
    → All (λ l. (has_byte 10 l || has_byte 13 l) ≡ false) ls
    → All IsLine (scanned ls)
scanned-IsLine [] h = tt
scanned-IsLine (l ∷ ls) h = elim (Bool-cases (ltb (length l) max_scan_token_size)) [
  | inl e ↦
      rw (e, drop_cr-no_return l (ground (arith, h.0)))
        ((ground (arith, h.0), drop_cr-no_return l (ground (arith, h.0)), e), scanned-IsLine ls h.1)
  | inr e ↦ rw e tt
]

-- a text without carriage returns is read as lines that read as themselves
pub scan_lines-IsLine : (s : Str) → has_byte 13 s ≡ false → All IsLine (scan_lines s)
unfolding scan_lines
scan_lines-IsLine s h = scanned-IsLine (raw_lines s) (raw_lines-has_byte 13 s h)
