-- ===== src/Maven.antt =====
-- pkg/maven: the packages of the artifacts that a lock file pins.
pub mod Coordinate
pub mod MavenResolver
