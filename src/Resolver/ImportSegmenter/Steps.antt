-- ===== src/Resolver/ImportSegmenter/Steps.antt =====
-- The loop of `WalkPath` with `importSegmenter`: the parts of the name, and at most one empty part.
use scala_gazelle.Prelude.{
  ℕ, zero, suc, ◌+◌, ◌<◌, ◌≡◌, refl, Str, str_has_eq, Option, some, List, [], ◌∷◌, ◌++◌, length,
  take, drop, index_byte, arith, ◌⊎◌, inl, inr, Option-cases, ap, map, drop_view,
}
use scala_gazelle.Collections.PathTrie.Walk.{path_steps, steps_of}
use scala_gazelle.Resolver.ImportSegmenter.{dot, import_segmenter}
use scala_gazelle.Resolver.ImportSegmenter.Split.{
  split_parts, split_from_lem, import_segmenter-cons, import_segmenter-end, drop_further,
}

-- the parts of the steps are the parts of the name, or these and an empty one
abbrev pub StepsAre : List (Str × Option ℕ) → List Str → Type 0
StepsAre steps ps = (map (λ s. s.0) steps ≡ ps) ⊎ (map (λ s. s.0) steps ≡ ps ++ [] ∷ [])

StepsAre-cons :
    (part : Str) (next : Option ℕ) (steps : List (Str × Option ℕ)) (ps : List Str)
    → StepsAre steps ps
    → StepsAre ((part, next) ∷ steps) (part ∷ ps)
StepsAre-cons part next steps ps (inl e) = inl (ap (◌∷◌ part) e)
StepsAre-cons part next steps ps (inr e) = inr (ap (◌∷◌ part) e)

path_steps-import_segmenter :
    (fuel : ℕ) (path : Str) (start : ℕ)
    → length path < start + fuel
    → 0 < fuel
    → StepsAre
        (path_steps fuel import_segmenter path (import_segmenter path (some start)))
        (split_parts (drop start path))
unfolding path_steps split_parts
path_steps-import_segmenter zero path start h pos = absurd (omega arith)
path_steps-import_segmenter (suc fuel) path start h pos = elim (drop_view start path) [
  | inl (e, far) ↦ rw (import_segmenter-end path start far, e) (inr refl)
  | inr (c, s, e, e', size) ↦
      rw (import_segmenter-cons path start c s e e' size, e, split_from_lem (c ∷ []) s)
        (elim (Option-cases (index_byte dot s)) [
          | inl last ↦ rw last (inl refl)
          | inr (i, next) ↦
              let j = start + i + 2 in
              let later = path_steps fuel import_segmenter path (import_segmenter path (some j)) in
              let ih : StepsAre later (split_parts (drop (suc i) s)) =
                rw (drop_further path s start i e') at
                  (path_steps-import_segmenter fuel path j (omega arith) (omega arith)) in
              rw next
                (StepsAre-cons (c ∷ take i s) (some j) later (split_parts (drop (suc i) s)) ih)
        ])
]

pub steps_of-import_segmenter :
    (name : Str) → StepsAre (steps_of import_segmenter name) (split_parts name)
steps_of-import_segmenter name =
    path_steps-import_segmenter (length name + 1) name 0 (omega arith) (omega arith)
