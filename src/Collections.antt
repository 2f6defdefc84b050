-- ===== src/Collections.antt =====
-- pkg/collections: the containers that the resolver is built on.
pub mod PathTrie
pub mod Intent
pub mod Slice
