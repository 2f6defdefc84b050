-- ===== src/ScalaConfig.antt =====
-- pkg/scalaconfig/config.go: the deps attribute of a rule, and its directives.
pub mod MergeDeps
pub mod Named
pub mod State
pub mod Directives
pub mod Patterns
pub mod RuleAttr
