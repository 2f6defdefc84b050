-- ===== src/Prelude/Fields.antt =====
-- strings.Split and strings.Fields.
use Prim.Native.Nat.{ℕ, zero, suc, ◌-◌}
use mathlib.Core.Bool.{true, false}
use mathlib.Core.List.{List, [], ◌∷◌, ◌++◌}
use mathlib.Core.Path.{◌≡◌, refl}
use native.Mathlib.Omega.{arith}
use scala_gazelle.Prelude.Lists.{All}
use scala_gazelle.Prelude.Lines.{has_byte}
use scala_gazelle.Prelude.Tests.{nat_beq, nat_beq_iff, if◌then◌else◌}
use scala_gazelle.Prelude.Text.{Str, join}
use scala_gazelle.Prelude.Match.{space_width, space_runes}

abbrev extend_first : ℕ → List Str → List Str
extend_first c [] = (c ∷ []) ∷ []
extend_first c (l ∷ ls) = (c ∷ l) ∷ ls

-- strings.Split at one ASCII byte
unfoldable pub split_byte : ℕ → Str → List Str
split_byte b [] = [] ∷ []
split_byte b (c ∷ s) =
    let rest = split_byte b s in if nat_beq c b then [] ∷ rest else extend_first c rest

abbrev add_word : Str → List Str → List Str
add_word [] words = words
add_word (c ∷ word) words = (c ∷ word) ∷ words

-- The words behind the rest of a space, with the begin of a word.
abbrev words_from : ℕ → Str → Str → List Str
words_from n word [] = add_word word []
words_from (suc n) word (c ∷ s) = words_from n word s
words_from zero word (c ∷ s) =
    let w = space_width space_runes (c ∷ s) in
    elim (nat_beq w 0) [
      | true ↦ words_from zero (word ++ c ∷ []) s
      | false ↦ add_word word (words_from (w - 1) [] s)
    ]

-- strings.Fields
unfoldable pub fields : Str → List Str
fields s = words_from 0 [] s

split_byte-end : (b : ℕ) (s : Str) → has_byte b s ≡ false → split_byte b s ≡ s ∷ []
unfolding split_byte
split_byte-end b [] h = refl
split_byte-end b (c ∷ s) h = ground (arith, split_byte-end b s)

split_byte-part :
    (b : ℕ) (s rest : Str)
    → has_byte b s ≡ false
    → split_byte b (s ++ b ∷ rest) ≡ s ∷ split_byte b rest
unfolding split_byte
split_byte-part b [] rest h = ground (arith, nat_beq_iff b b)
split_byte-part b (c ∷ s) rest h = ground (arith, split_byte-part b s rest)

-- joined parts without the byte split as they were joined
pub split_byte-join :
    (b : ℕ) (s : Str) (rest : List Str)
    → All (λ p. has_byte b p ≡ false) (s ∷ rest)
    → split_byte b (join (b ∷ []) (s ∷ rest)) ≡ s ∷ rest
split_byte-join b s [] h = split_byte-end b s h.0
split_byte-join b s (t ∷ rest) h =
    rw (split_byte-part b s (join (b ∷ []) (t ∷ rest)) h.0, split_byte-join b t rest h.1) refl
