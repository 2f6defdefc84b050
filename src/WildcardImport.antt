-- ===== src/WildcardImport.antt =====
-- pkg/wildcardimport: wildcard imports are replaced by the names that the build asks for.
pub mod TextFile
pub mod Scanner
pub mod Fixer
