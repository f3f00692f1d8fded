-- ===== src/Collections.antt =====
-- collections/: the concurrent map and the concurrent list.
pub mod Map
pub mod ConcurrentList
