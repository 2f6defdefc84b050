-- ===== src/Resolver.antt =====
-- pkg/resolver: symbols, scopes, imports and the resolution of names.
pub mod ImportSegmenter
pub mod Symbol
pub mod TrieScope
pub mod Import
pub mod LabelRewrite
pub mod ImportMap
pub mod Scope
pub mod SymbolResolver
pub mod ConflictResolver
