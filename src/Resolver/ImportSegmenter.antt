-- ===== src/Resolver/ImportSegmenter.antt =====
-- `importSegmenter` of pkg/resolver/trie_scope.go, and the split at dots that it computes.
pub mod Split
pub mod Rejoin
pub mod Steps
use scala_gazelle.Prelude.{
  ℕ, zero, suc, ◌+◌, ◌-◌, Str, Bool, true, false, ◌||◌, Option, none, some, List, [], ◌∷◌, ◌++◌,
  nat_beq, ltb, if◌then◌else◌, length, take, drop, index_byte,
}

abbrev pub dot : ℕ
dot = 46

-- The arithmetic is that of the source: `start` and `end` are offsets into `path`, and after the
-- first test `start` is at most `len(path) - 1`, so that no slice is out of range.
unfoldable pub import_segmenter : Str → Option ℕ → Str × Option ℕ
import_segmenter path none = ([], none)
import_segmenter path (some start) =
    if nat_beq (length path) 0 || ltb (length path - 1) start
    then ([], none)
    else (elim (index_byte dot (drop (start + 1) path)) [
      | none ↦ (drop start path, none)
      | some end ↦ (take (end + 1) (drop start path), some (start + end + 2))
    ])
