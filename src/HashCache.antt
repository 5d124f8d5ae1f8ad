-- ===== src/HashCache.antt =====
-- libs/hash-cache/src/lib.rs: the cache for the hashes of files.
pub mod Cache
pub mod Sidecars
pub mod Tests
