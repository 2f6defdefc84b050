-- ===== src/Resolver/ImportSegmenter/Rejoin.antt =====
-- The separator "." of `scopePathTrieConfig` and `importSegmenter` fit together: joining the parts
-- of a name gives the name back, but for one dot at its end, and no part is empty.
use scala_gazelle.Prelude.{
  ℕ, ◌≡◌, refl, Str, true, false, List, [], ◌∷◌, ◌++◌, nat_beq, arith, join, ◌⊎◌, inl, inr,
  append_assoc, append-nil, Bool-cases, ap, All, IsNotEmpty, ◌∙◌,
}
use scala_gazelle.Resolver.ImportSegmenter.{dot}
use scala_gazelle.Resolver.ImportSegmenter.Split.{split_from, split_parts}

abbrev pub dot_text : Str
dot_text = dot ∷ []

module _ (part s : Str) (c d : ℕ) where
  split_from-dot : nat_beq c dot ≡ true → split_from part (c ∷ d ∷ s) ≡ part ∷ split_from (d ∷ []) s
  unfolding split_from
  split_from-dot h = ground arith

  split_from-other :
      nat_beq c dot ≡ false → split_from part (c ∷ d ∷ s) ≡ split_from (part ++ c ∷ []) (d ∷ s)
  unfolding split_from
  split_from-other h = ground arith

pub split_from_view : (part s : Str) → (x : Str) × (xs : List Str) × (split_from part s ≡ x ∷ xs)
unfolding split_from
split_from_view part [] = (part, [], refl)
split_from_view part (c ∷ []) = elim (Bool-cases (nat_beq c dot)) [
  | inl e ↦ (part, [], rw e)
  | inr e ↦ (part ++ c ∷ [], [], rw e)
]
split_from_view part (c ∷ d ∷ s) = elim (Bool-cases (nat_beq c dot)) [
  | inl e ↦ (part, split_from (d ∷ []) s, split_from-dot part s c d e)
  | inr e ↦ rw (split_from-other part s c d e) (split_from_view (part ++ c ∷ []) (d ∷ s))
]

join-cons :
    (part p s : Str)
    → join dot_text (part ∷ split_from p s) ≡ part ++ dot ∷ join dot_text (split_from p s)
join-cons part p s = let (x, xs, e) = split_from_view p s in rw e refl

abbrev Rejoins : Str → List Str → Type 0
Rejoins name ps = (join dot_text ps ≡ name) ⊎ (join dot_text ps ++ dot_text ≡ name)

Rejoins-cons :
    (part p s name : Str)
    → Rejoins name (split_from p s)
    → Rejoins (part ++ dot ∷ name) (part ∷ split_from p s)
Rejoins-cons part p s name (inl e) = inl (join-cons part p s ∙ ap (λ t. part ++ dot ∷ t) e)
Rejoins-cons part p s name (inr e) = inr (
    rw join-cons (
      append_assoc part (dot ∷ join dot_text (split_from p s)) dot_text
      ∙ ap (λ t. part ++ dot ∷ t) e))

split_from-Rejoins : (part s : Str) → Rejoins (part ++ s) (split_from part s)
unfolding split_from
split_from-Rejoins part [] = inl (rw append-nil)
split_from-Rejoins part (c ∷ []) = elim (Bool-cases (nat_beq c dot)) [
  | inl e ↦ rw e (inr (ground arith))
  | inr e ↦ rw e (inl refl)
]
split_from-Rejoins part (c ∷ d ∷ s) = elim (Bool-cases (nat_beq c dot)) [
  | inl e ↦
      let at_dot : c ≡ dot = ground arith in
      rw (split_from-dot part s c d e, at_dot)
        (Rejoins-cons part (d ∷ []) s (d ∷ s) (split_from-Rejoins (d ∷ []) s))
  | inr e ↦
      let longer = split_from-Rejoins (part ++ c ∷ []) (d ∷ s) in
      rw (split_from-other part s c d e) (rw (append_assoc part (c ∷ []) (d ∷ s)) at longer)
]

-- Joined with dots, the parts of a name are the name, or the name without a dot at its end.
pub join-split_parts :
    (name : Str)
    → (join dot_text (split_parts name) ≡ name)
      ⊎ (join dot_text (split_parts name) ++ dot_text ≡ name)
unfolding split_parts
join-split_parts [] = inl refl
join-split_parts (c ∷ s) = split_from-Rejoins (c ∷ []) s

IsNotEmpty-append : (part : Str) (c : ℕ) → IsNotEmpty (part ++ c ∷ [])
IsNotEmpty-append [] c = refl
IsNotEmpty-append (b ∷ part) c = refl

All-split_from : (part s : Str) → IsNotEmpty part → All IsNotEmpty (split_from part s)
unfolding split_from
All-split_from part [] h = (h, tt)
All-split_from part (c ∷ []) h = elim (Bool-cases (nat_beq c dot)) [
  | inl e ↦ rw e (h, tt)
  | inr e ↦ rw e (IsNotEmpty-append part c, tt)
]
All-split_from part (c ∷ d ∷ s) h = elim (Bool-cases (nat_beq c dot)) [
  | inl e ↦ rw (split_from-dot part s c d e) (h, All-split_from (d ∷ []) s refl)
  | inr e ↦
      rw (split_from-other part s c d e)
        (All-split_from (part ++ c ∷ []) (d ∷ s) (IsNotEmpty-append part c))
]

-- No part is empty.
pub All-split_parts : (name : Str) → All IsNotEmpty (split_parts name)
unfolding split_parts
All-split_parts [] = tt
All-split_parts (c ∷ s) = All-split_from (c ∷ []) s refl
