-- ===== src/ScalaConfig/MergeDeps/Stable.antt =====
-- A second merge changes nothing.
use scala_gazelle.Prelude.{str_has_eq, false, some, ◌==◌, is_nil, ◌≡◌}
use scala_gazelle.Prelude.Map
use scala_gazelle.Label.{Label, label_has_eq}
use scala_gazelle.ScalaConfig.MergeDeps.{Merge, new_dep}

module _ (m : Merge) where
  -- a label that reads as it is written, that an import needs, and whose new item has no "# keep"
  abbrev pub IsManaged : Label → Type 0
  IsManaged dep =
      (m.api.parse (m.api.to_string dep) ≡ some dep)
      × ((dep == m.api.no_label) ≡ false)
      × (is_nil (Map.get dep m.import_labels) ≡ false)
      × (m.should_keep (new_dep m dep) ≡ false)
