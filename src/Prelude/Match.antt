-- ===== src/Prelude/Match.antt =====
-- Texts of the standard library that the scanners use: strings.TrimSpace, and the pieces of which
-- their regular expressions consist. A line has no line feed, so `.` is any byte.
use Prim.Native.Nat.{ℕ, zero, suc, ◌-◌}
use mathlib.Core.Bool.{Bool, true, false, ◌&&◌}
use mathlib.Core.List.{List, [], ◌∷◌}
use mathlib.Core.Option.{Option, none}
use scala_gazelle.Prelude.Tests.{nat_beq, leb, if◌then◌else◌}
use scala_gazelle.Prelude.Lists.{length, drop, or_else}
use scala_gazelle.Prelude.Text.{Str, has_prefix}
use scala_gazelle.Prelude.Lines.{raw_lines, max_scan_token_size}

-- the UTF-8 texts of the runes with unicode.IsSpace
abbrev pub space_runes : List Str
space_runes =
    (9 ∷ [])
    ∷ (10 ∷ [])
    ∷ (11 ∷ [])
    ∷ (12 ∷ [])
    ∷ (13 ∷ [])
    ∷ (32 ∷ [])
    ∷ (194 ∷ 133 ∷ [])
    ∷ (194 ∷ 160 ∷ [])
    ∷ (225 ∷ 154 ∷ 128 ∷ [])
    ∷ (226 ∷ 128 ∷ 128 ∷ [])
    ∷ (226 ∷ 128 ∷ 129 ∷ [])
    ∷ (226 ∷ 128 ∷ 130 ∷ [])
    ∷ (226 ∷ 128 ∷ 131 ∷ [])
    ∷ (226 ∷ 128 ∷ 132 ∷ [])
    ∷ (226 ∷ 128 ∷ 133 ∷ [])
    ∷ (226 ∷ 128 ∷ 134 ∷ [])
    ∷ (226 ∷ 128 ∷ 135 ∷ [])
    ∷ (226 ∷ 128 ∷ 136 ∷ [])
    ∷ (226 ∷ 128 ∷ 137 ∷ [])
    ∷ (226 ∷ 128 ∷ 138 ∷ [])
    ∷ (226 ∷ 128 ∷ 168 ∷ [])
    ∷ (226 ∷ 128 ∷ 169 ∷ [])
    ∷ (226 ∷ 128 ∷ 175 ∷ [])
    ∷ (226 ∷ 129 ∷ 159 ∷ [])
    ∷ (227 ∷ 128 ∷ 128 ∷ [])
    ∷ []

-- the bytes of the space at the front, 0 where there is none
abbrev pub space_width : List Str → Str → ℕ
space_width [] s = 0
space_width (r ∷ rs) s = if has_prefix s r then length r else space_width rs s

-- without the rest of a space that is begun, and without further spaces
abbrev skip_spaces : ℕ → Str → Str
skip_spaces n [] = []
skip_spaces (suc n) (c ∷ s) = skip_spaces n s
skip_spaces zero (c ∷ s) =
    let w = space_width space_runes (c ∷ s) in
    let rest = skip_spaces (w - 1) s in if nat_beq w 0 then c ∷ s else rest

abbrev is_blank : Str → Bool
is_blank s = nat_beq (length (skip_spaces 0 s)) 0

abbrev trim_right : Str → Str
trim_right [] = []
trim_right (c ∷ s) = let rest = trim_right s in if is_blank (c ∷ s) then [] else c ∷ rest

-- strings.TrimSpace
unfoldable pub trim_space : Str → Str
trim_space s = trim_right (skip_spaces 0 s)

-- the error of the scanner at the end of the loop: a line that did not fit
abbrev has_long : List Str → Bool
has_long [] = false
has_long (l ∷ ls) = if leb max_scan_token_size (length l) then true else has_long ls

unfoldable pub scan_fails : Str → Bool
scan_fails s = has_long (raw_lines s)

-- `.*` and what stands behind it: the last place at which that matches
abbrev pub after_any {ℓ} : {A : Type ℓ} → (Str → Option A) → Str → Option A
after_any f [] = f []
after_any f (c ∷ s) = or_else (after_any f s) (f (c ∷ s))

-- a literal
abbrev pub after {ℓ} : {A : Type ℓ} → Str → (Str → Option A) → Str → Option A
after p f s = if has_prefix s p then f (drop (length p) s) else none

abbrev pub is_digit : ℕ → Bool
is_digit c = leb 48 c && leb c 57

abbrev skip_digits : Str → Str
skip_digits [] = []
skip_digits (c ∷ s) = let rest = skip_digits s in if is_digit c then rest else c ∷ s

-- `\d+`, in front of what is no digit
abbrev pub after_digits {ℓ} : {A : Type ℓ} → (Str → Option A) → Str → Option A
after_digits f [] = none
after_digits f (c ∷ s) = if is_digit c then f (skip_digits s) else none
