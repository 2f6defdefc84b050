-- ===== src/Resolver/TrieScope/Lookup.antt =====
-- `GetSymbol` finds the longest prefix of the name that has a symbol.
use scala_gazelle.Prelude.{
  ◌≡◌, refl, ◌∙◌, ap, Str, Option, none, some, List, [], ◌∷◌, ◌++◌, map, arith, last?, or_else,
  longest_first, first_some, inl, inr, append-nil, append_assoc,
}
use scala_gazelle.Collections.PathTrie.{Node}
use scala_gazelle.Collections.PathTrie.Put.{value_at}
use scala_gazelle.Collections.PathTrie.Named.{IsNamed, values_along-empty_part}
use scala_gazelle.Collections.PathTrie.Walk.{visit, path_calls, steps_of}
use scala_gazelle.Collections.PathTrie.Walk.Deepest.{
  values_along, path_calls-values_along, last?-values_along,
}
use scala_gazelle.Resolver.ImportSegmenter.{import_segmenter}
use scala_gazelle.Resolver.ImportSegmenter.Split.{split_parts}
use scala_gazelle.Resolver.ImportSegmenter.Steps.{steps_of-import_segmenter}
use scala_gazelle.Resolver.Symbol.{Ref}
use scala_gazelle.Resolver.TrieScope.{TrieScope, get_symbol, keep_last, collect}

visit-keep_last :
    (calls : List (Str × Ref)) (s : Option Ref)
    → visit keep_last s calls ≡ (or_else (last? (map (λ c. c.1) calls)) s, none)
unfolding visit
visit-keep_last [] s = refl
visit-keep_last ((key, v) ∷ calls) s = ground (arith, visit-keep_last calls (some v))

pub visit-collect :
    (calls : List (Str × Ref)) (s : List Ref)
    → visit collect s calls ≡ (s ++ map (λ c. c.1) calls, none)
unfolding visit
visit-collect [] s = ground (arith, append-nil s)
visit-collect ((key, v) ∷ calls) s =
    ground
      (arith, visit-collect calls (s ++ v ∷ []), append_assoc s (v ∷ []) (map (λ c. c.1) calls))

-- the values that `WalkPath` meets, on the parts of the name
values_along-steps :
    (n : Node Ref) (name : Str)
    → IsNamed n
    → values_along (map (λ s. s.0) (steps_of import_segmenter name)) n
      ≡ values_along (split_parts name) n
values_along-steps n name h = elim (steps_of-import_segmenter name) [
  | inl e ↦ ap (λ p. values_along p n) e
  | inr e ↦ ap (λ p. values_along p n) e ∙ values_along-empty_part (split_parts name) n h
]

-- the search that `GetSymbol` amounts to: over the prefixes of the name's parts, the longest first
abbrev pub longest_match : TrieScope → Str → Option Ref
longest_match t name = first_some (λ q. value_at q t.root) (longest_first (split_parts name))

-- In a scope without empty parts `GetSymbol` returns the symbol at the longest prefix of the name
-- that has one, and nothing where no prefix has.
pub get_symbol-longest_match :
    (t : TrieScope) (name : Str) → IsNamed t.root → get_symbol t name ≡ longest_match t name
unfolding get_symbol
get_symbol-longest_match t name h = ground (
  arith,
  visit-keep_last (path_calls name (steps_of import_segmenter name) t.root) none,
  path_calls-values_along name (steps_of import_segmenter name) t.root,
  values_along-steps t.root name h,
  last?-values_along (split_parts name) t.root,
)
