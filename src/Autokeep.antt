-- ===== src/Autokeep.antt =====
-- pkg/autokeep: the deps that the output of a failed build asks for.
pub mod Diagnostics
pub mod Scanner
pub mod Deps
