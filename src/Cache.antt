-- ===== src/Cache.antt =====
-- The cache of lib/leveldb/util/cache.cc: a hash table of handles, and the lists of a shard.
pub mod Table
pub mod Shard
pub mod Sharded
pub mod Whole
mod Examples
