-- ===== src/Lib.antt =====
-- A verification library for tleveldb: LevelDB, and a manager of lists in persistent memory beside it.
--
-- Group.antt models class Group (include/groupManager.h, src/groupManager.cc), which keeps a linked
-- list of 256 MiB nodes in each persistent pool; Pool.antt models the structures of the pool, the
-- image of them that has reached the medium, and what libpmemobj (a parameter) does; Pool/Node.antt
-- the writes to a node.
-- Coding.antt models lib/leveldb/util/coding.h and coding.cc, on which the formats of LevelDB rest.
-- WriteBatch.antt models lib/leveldb/db/write_batch.cc. Status.antt has the results of operations.
-- Comparator.antt models the bytewise comparator (lib/leveldb/util/comparator.cc), and DbFormat.antt
-- the internal keys (lib/leveldb/db/dbformat.h and dbformat.cc).
-- Hash.antt and Bloom.antt model lib/leveldb/util/hash.cc and bloom.cc, FilterPolicy.antt the
-- interface of filters and the one over user keys, and Crc32c.antt the masks of checksums
-- (lib/leveldb/util/crc32c.h). Crc32c/Extend.antt models Extend of lib/leveldb/util/crc32c.cc with
-- its tables; the Extend of the library crc32c, which it calls where that is built in, is a
-- parameter. FilterBlock.antt models the filters of a table
-- (lib/leveldb/table/filter_block.cc), and Format.antt block handles and the footer
-- (lib/leveldb/table/format.h and format.cc). VersionEdit.antt models the changes of a
-- version (lib/leveldb/db/version_edit.h and .cc), VersionSet.antt the search for a file of a
-- level and the overlap tests (FindFile and SomeFileOverlapsRange of
-- lib/leveldb/db/version_set.cc), VersionSet/Inputs.antt its
-- GetOverlappingInputs and VersionSet/Pick.antt its PickLevelForMemTableOutput.
-- Log.antt and its children model the write-ahead log (lib/leveldb/db/log_writer.cc and
-- log_reader.cc): the writer and the reader call files, which are parameters.
-- Block.antt models the builder of the blocks of a table (lib/leveldb/table/block_builder.cc), and
-- Block/Iter.antt and Block/Seek.antt their iterator (lib/leveldb/table/block.cc). FileName.antt
-- models decimal numbers (lib/leveldb/util/logging.cc) and the names of the files of a database
-- (lib/leveldb/db/filename.cc).
-- Cache.antt and its children model the cache of blocks and tables (lib/leveldb/util/cache.cc): the
-- hash table of handles in Cache/Table.antt, a shard with its two lists in Cache/Shard.antt, the
-- links that make these lists in Cache/Shard/Links.antt, and the cache of 16 shards in Cache/Sharded.antt.
-- SkipList.antt models the skip list of the memtable (lib/leveldb/db/skiplist.h), with its iterator,
-- and Random.antt the random numbers (lib/leveldb/util/random.h) that give the heights of its nodes.
-- MemTable.antt models the memtable over it (lib/leveldb/db/memtable.cc).
-- Base.antt and its children have the shared notation, lists over the native numbers, integers, and
-- the laws of the bit operations.
--
-- A char is a number below 256, a Slice or std::string a list of such; the code's machine integers
-- are numbers with the wrap-around written out. A loop has its input's length for fuel where each
-- round takes a byte, and otherwise the number of rounds that its widest integer or the number of
-- files allows, or has its fuel as an argument; a theorem says that this is enough, or proves the
-- result with it. Of Seek and Prev of a block's iterator, and of the decoding of a version edit
-- that no EncodeTo wrote, there is no such theorem. Assertions are not followed.
-- The ints of a WriteBatch are kept as their 32 bits. The node_count of a pool is an unbounded
-- integer: its int would overflow at 2^31 nodes of 256 MiB, more than an address space holds. The
-- portable loops of crc32c.cc are tested against known checksums, and nothing is proved of them.
--
-- Not modelled: reads and writes of files, threads and locks, logging, the database itself
-- (lib/leveldb/db/db_impl.cc), and the third-party code under lib/leveldb/third_party.
pub mod Base
pub mod Comparator
pub mod Coding
pub mod DbFormat
pub mod Status
pub mod Crc32c
pub mod Hash
pub mod Bloom
pub mod FilterPolicy
pub mod FileName
pub mod FilterBlock
pub mod Format
pub mod Block
pub mod Cache
pub mod Log
pub mod VersionEdit
pub mod VersionSet
pub mod WriteBatch
pub mod Pool
pub mod Random
pub mod SkipList
pub mod MemTable
pub mod Group
