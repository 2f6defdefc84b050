-- ===== src/ScalaConfig/Named/Shared.antt =====
-- A removal in the list of a clone, as the configuration that was cloned sees it.
use scala_gazelle.Prelude.{suc, ◌+◌, List, ◌∷◌, ◌++◌, drop, length}
use scala_gazelle.Collections.Slice.{Slice}

module _ {A : Type 0} where
  abbrev pub whole : List A → A → List A → Slice A
  whole before x behind = record {
    array = before ++ x ∷ behind;
    len = length before + suc (length behind);
  }

  -- the array after the item between the two lists is cut
  abbrev pub closed_up : List A → A → List A → List A
  closed_up before x behind = before ++ (behind ++ drop (length behind) (x ∷ behind))
