-- ===== src/Resolver/ImportSegmenter/Split.antt =====
-- The parts of an import name: a part takes its first byte as it is, and ends before the next dot.
use scala_gazelle.Prelude.{
  ℕ, zero, suc, ◌+◌, ◌<◌, ◌≤◌, ◌≡◌, refl, Str, str_has_eq, true, false, none, some, List, [], ◌∷◌,
  ◌++◌, nat_beq, if◌then◌else◌, length, take, drop, index_byte, arith, inl, inr, append_assoc,
  drop_view, drop-add, append-nil, Option-cases, Bool-cases,
}
use native.Mathlib.Numerals.{add-one}
use scala_gazelle.Collections.PathTrie.{parts, parts_of}
use scala_gazelle.Resolver.ImportSegmenter.{dot, import_segmenter}

-- the parts, by recursion on the text; `part` is what has been read of the current one
unfoldable pub split_from : Str → Str → List Str
split_from part [] = part ∷ []
split_from part (c ∷ []) = if nat_beq c dot then part ∷ [] else (part ++ c ∷ []) ∷ []
split_from part (c ∷ d ∷ s) = elim (nat_beq c dot) [
  | true ↦ part ∷ split_from (d ∷ []) s
  | false ↦ split_from (part ++ c ∷ []) (d ∷ s)
]

unfoldable pub split_parts : Str → List Str
unfolding split_from
split_parts [] = []
split_parts (c ∷ s) = split_from (c ∷ []) s

-- one part, by the offset of the next dot
pub split_from_lem :
    (part s : Str)
    → split_from part s ≡ elim (index_byte dot s) [
      | none ↦ (part ++ s) ∷ []
      | some i ↦ (part ++ take i s) ∷ split_parts (drop (suc i) s)
    ]
unfolding split_parts
split_from_lem part [] = simp append-nil
split_from_lem part (c ∷ []) = ground (arith, append-nil part)
split_from_lem part (c ∷ d ∷ s) = elim (Bool-cases (nat_beq c dot)) [
  | inl e ↦ ground (arith, append-nil part)
  | inr e ↦ elim (Option-cases (index_byte dot (d ∷ s))) [
    | inl last ↦
        rw (e, last)
          (ground
            (arith, split_from_lem (part ++ c ∷ []) (d ∷ s), append_assoc part (c ∷ []) (d ∷ s)))
    | inr (i, next) ↦
        rw (e, next)
          (ground (
            arith,
            split_from_lem (part ++ c ∷ []) (d ∷ s),
            append_assoc part (c ∷ []) (take i (d ∷ s)),
          ))
  ]
]

-- one call of the segmenter, where a byte is left
pub import_segmenter-cons :
    (path : Str) (start c : ℕ) (s : Str)
    → drop start path ≡ c ∷ s
    → drop (suc start) path ≡ s
    → start + length s + 1 ≡ length path
    → import_segmenter path (some start) ≡ elim (index_byte dot s) [
      | none ↦ (c ∷ s, none)
      | some i ↦ (c ∷ take i s, some (start + i + 2))
    ]
unfolding import_segmenter
import_segmenter-cons path start c s h h' e = rw add-one (
    rw h' (elim (Option-cases (index_byte dot s)) [
      | inl last ↦ rw last (rw h (ground arith))
      | inr (i, next) ↦ rw next (rw h (rw add-one (ground arith)))
    ]))

parts-stop :
    (fuel : ℕ) (path : Str) → parts fuel import_segmenter path (import_segmenter path none) ≡ []
unfolding parts import_segmenter
parts-stop zero path = refl
parts-stop (suc fuel) path = refl

pub import_segmenter-end :
    (path : Str) (start : ℕ) → length path ≤ start → import_segmenter path (some start) ≡ ([], none)
unfolding import_segmenter
import_segmenter-end path start h = ground arith

pub drop_further :
    (path s : Str) (start i : ℕ)
    → drop (suc start) path ≡ s
    → drop (start + i + 2) path ≡ drop (suc i) s
drop_further path s start i e =
    let sum : start + i + 2 ≡ suc start + suc i = omega arith in rw (sum, drop-add, e)

-- From any offset, the loop reads the parts of what is left, and stops within its fuel.
parts-import_segmenter :
    (fuel : ℕ) (path : Str) (start : ℕ)
    → length path < start + fuel
    → 0 < fuel
    → parts fuel import_segmenter path (import_segmenter path (some start))
      ≡ split_parts (drop start path)
unfolding parts split_parts
parts-import_segmenter zero path start h pos = absurd (omega arith)
parts-import_segmenter (suc fuel) path start h pos = elim (drop_view start path) [
  | inl (e, far) ↦ rw (import_segmenter-end path start far, e)
  | inr (c, s, e, e', size) ↦
      rw (import_segmenter-cons path start c s e e' size, e, split_from_lem (c ∷ []) s)
        (elim (Option-cases (index_byte dot s)) [
          | inl last ↦ rw last (ground (arith, parts-stop fuel path))
          | inr (i, next) ↦ rw next (
              ground (
                arith,
                parts-import_segmenter fuel path (start + i + 2) (omega arith) (omega arith),
                drop_further path s start i e',
              ))
        ])
]

pub parts_of-import_segmenter : (name : Str) → parts_of import_segmenter name ≡ split_parts name
parts_of-import_segmenter name =
    parts-import_segmenter (length name + 1) name 0 (omega arith) (omega arith)
