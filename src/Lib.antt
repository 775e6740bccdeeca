-- ===== src/Lib.antt =====
-- A verification library for lsm-tree-go, a key-value store on a log-structured merge tree.
--
-- The program. A write goes to the write-ahead log and into the memtable; a full memtable is flushed
-- into an immutable table file with a sparse index and a bloom filter; compaction merges table files
-- level by level. A read asks the memtable and then the tables of every level.
--
-- The files, with paths from the root of the repository:
-- - MemTable: internal/memtable/entry.go. `MemTable` is the struct, with the Go map as an association
--   list; `put`, `delete`, `get`, `entries` are the methods. MemTable/Laws and MemTable/Sorted prove.
-- - SparseIndex: internal/sparseindex/sparseindex.go. `lookup_offset` is Lookup, over `sort_search`,
--   which is sort.Search. SparseIndex/Search and SparseIndex/Floor prove.
-- - Bloom: internal/bloom/bloom.go. `new`, `add`, `may_contain`, `serialize`, `deserialize`, with the
--   FNV-1a hash and the wrap-around of uint64 written out. `none` is an index out of range.
-- - SsTable: internal/sstable/sstable.go. SsTable has the record format (Append's scratch bytes,
--   parseEntry), SsTable/Writer the writer (CreateWriter, grow, Append, Close), SsTable/Reader the
--   open table (Open, OpenNoVerify, openV1, Get, AllEntries, the iterator, MinKey, MaxKey).
-- - Wal: internal/wal/wal.go. New, Append, AppendBatch, AppendRaw, Replay, Reset, Close, with the four
--   modes of syncing; Wal/Flusher asyncWriter with its writers as steps. Wal/Replay, Wal/Appends and Wal/Whole prove.
-- - Wal/Ring: internal/wal/io_uring_linux.go. `submit_write`, `flush`, `reap` and, in Wal/Ring/Setup,
--   `new_ring` and `close`; Wal/Ring/Layout is init. Wal/Ring/Queue reads the entries of the ring as a
--   queue of requests, Wal/Ring/States has what a call of the kernel may do; the others prove.
-- - Compaction: internal/compaction/compaction.go. `do_compact` is DoCompact: `first_entries` fills the
--   heap, `merge_loop` takes entries out, `emit` skips or writes one, `flush_chunk` closes a file.
--   Compaction/Heap is container/heap as the library has it, with its laws in Compaction/Heap/Laws.
--   Compaction/Merge, Survivors, Newest and Inputs follow the entries through the loop.
-- - Lsm: internal/lsm/lsm.go. Lsm has the state, `get`, `write_batch` (PutBatch up to the flush),
--   `delete`, `recover_wal`; Lsm/Manifest writeManifest and loadExistingSSTables; Lsm/Compact
--   compactL0ToL1, compactLevel and a round of compactionLoop; Lsm/Flush flushMemtable, PutBatch, Put,
--   Open and Close; Lsm/Info the statistics and HasOverlappingLevels. The others prove: Lsm/Reached has
--   the step relation of the tree and its reachable states, Lsm/History and Lsm/Answers the tree as a map, Lsm/Stored, Flushed and Served what a flush leaves and what is read after it.
-- - Common: what they share, with Go's byte strings, varints and CRC-32, and `Outcome`, which tells a
--   value from an error and from a run-time panic.
-- - Examples: the theorems at concrete inputs, and nothing else.
--
-- Bounds and fuel. Numbers are natural; an int64 timestamp is a signed `ℤ`, and uint64 arithmetic that
-- can wrap is written with `% 2 ^ 64`. The loops that read a file or a log run on its length, and every
-- round takes a byte at least; the doubling loops run on their target, and every round adds one at
-- least; the binary search runs on the number of entries. DoCompact's loop runs on the size of its
-- tables, compactLevel on the number of levels, up and down of the heap on its length. reap runs on the
-- number of completions it waits for and of calls that a signal may interrupt.
--
-- Parameters. The operating system's answers are `Os`, which says for every call whether it succeeds;
-- the log takes the submitWrite of its ring as a function; the clock is an argument. For the ring,
-- io_uring_enter is a function of the number of the call, its arguments and the shared memory, which may
-- also not return, and `IsKernel` has what the manual says of it: it may take fewer entries than it is given.
--
-- Files. A tree keeps its table files as an association list from paths to bytes, in which a file
-- appears when its writer closes it, and the manifest as what encoding/json reads back from it. An
-- operation that returns an error gives it with the tree that is left. The same holds of
-- the log, whose mapping may be gone after an error (`Mapping`): a write to such a log faults or, for an empty
-- slice, doubles 0 for ever, and both have the outcome of a panic, after which there is no state.
--
-- Not modelled: locks and goroutines (the tree's compactionLoop is its rounds, the log's asyncWriter its
-- steps), allocations that fail, files that a failing writer leaves half written, WriteAmp, which is
-- floating point, completions that arrive between two calls of the kernel, the ring's stub for other systems, the
-- commands and the benchmarks, which time and print.
pub mod Common
pub mod MemTable
pub mod SparseIndex
pub mod Bloom
pub mod SsTable
pub mod Wal
pub mod Compaction
pub mod Lsm
pub mod Examples
