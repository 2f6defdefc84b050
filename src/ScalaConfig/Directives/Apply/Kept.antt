-- ===== src/ScalaConfig/Directives/Apply/Kept.antt =====
-- The maps of a configuration, through the directives of a build file.
use scala_gazelle.Prelude.{Str, Option, none, some, ◌≡◌}
use scala_gazelle.Prelude.Map
use scala_gazelle.RuleConfig.{RuleConfig, IsWellFormed}
use scala_gazelle.ScalaConfig.State.{annotation_has_eq}

abbrev IsRule : Str → RuleConfig → Type 0
IsRule name r = (r.name ≡ name) × IsWellFormed r

abbrev IsRuleOrNone : Str → Option RuleConfig → Type 0
IsRuleOrNone name none = Unit
IsRuleOrNone name (some r) = IsRule name r
