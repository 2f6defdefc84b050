-- ===== src/Language.antt =====
-- language/scala: the gazelle extension that puts the parts together.
pub mod UniverseResolver
pub mod ScalaRule
pub mod Lifecycle
pub mod ScalaPackage
pub mod Sweep
pub mod Setup
