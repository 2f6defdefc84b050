-- ===== src/ScalaConfig/RuleAttr/Tagged.antt =====
-- Which tags a rule has after its deps are merged.
use scala_gazelle.Prelude.{str_has_eq}
