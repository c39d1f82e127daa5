-- ===== src/Cache.antt =====
-- internal/cache/lru.go: the sharded LRU cache.
pub mod Shard
pub mod Sharded
