-- ===== src/Lsm.antt =====
-- internal/lsm/lsm.go: the state of the tree, its reads, and the halves of its writes that fill the log and
-- the memtable. The flush, the compaction and the manifest are in the children. Every operation holds the lock.
pub mod Manifest
pub mod Compact
pub mod Flush
pub mod Info
pub mod Consistent
pub mod Replaced
pub mod Rounds
pub mod Deepest
pub mod Kept
pub mod Opened
pub mod Reached
pub mod Visible
pub mod Reopened
pub mod Apart
pub mod Chosen
pub mod Stored
pub mod Flushed
pub mod Served
pub mod Searched
pub mod Answers
pub mod History
pub mod Reads
pub mod Writes
use lsm_tree_go.Common.{
  ℕ, zero, suc, ◌+◌, ◌≤◌, Bool, true, false, not, Option, none, some, List, [], ◌∷◌, ◌++◌, length,
  leb, if◌then◌else◌,
}
use lsm_tree_go.Common.Int.{ℤ, add_ℕ}
use lsm_tree_go.Common.Keys.{Bytes}
use lsm_tree_go.Common.Crc.{checksum}
use lsm_tree_go.Common.Varint.{uvarint_bytes, varint_bytes, little_endian}
use lsm_tree_go.Common.Outcome.{Error, Outcome, ok, fail, panic, ◌>>=◌}
use lsm_tree_go.MemTable
use lsm_tree_go.MemTable.{Entry, MemTable}
use lsm_tree_go.SsTable.Writer.{Os}
use lsm_tree_go.SsTable.Reader
use lsm_tree_go.SsTable.Reader.{SsTable}
use lsm_tree_go.Compaction.{Disk}
use lsm_tree_go.Wal
use lsm_tree_go.Wal.{Wal}

-- The counters of Stats; none comes near 2^63. `LevelSizes` is what the tables of every level add up to,
-- so that what is taken off it is in it.
pub record Stats : Type 0 where
  pub wal_bytes_written : ℕ
  pub sstable_bytes_written : ℕ
  pub compaction_bytes_written : ℕ
  pub files_opened : ℕ
  pub bloom_filter_skips : ℕ
  pub level_sizes : List ℕ

-- The LSM struct, with the files that it keeps: `disk` has the tables, and `manifest` is what encoding/json
-- reads back from the file MANIFEST. `signalled` is what `compactCh` holds.
pub record Lsm : Type 0 where
  pub dir : Bytes
  pub memtable : MemTable
  pub wal : Option Wal
  pub flush_threshold : ℕ
  pub max_l0_files : ℕ
  pub base_level_size : ℕ
  pub num_levels : ℕ
  pub levels : List (List SsTable)
  pub stats : Stats
  pub closed : Bool
  pub next_id : ℕ
  pub signalled : Bool
  pub disk : Disk
  pub manifest : Option (List (List Bytes))

-- What a found entry reads as: a tombstone ends the search with nothing.
abbrev pub visible : Entry → Option Bytes
visible e = if e.tombstone then none else some e.value

-- An entry that is found ends the search.
abbrev pub or_next :
    Option Entry × Stats → (Stats → Outcome (Option Entry × Stats)) → Outcome (Option Entry × Stats)
or_next (some e, st) next = ok (some e, st)
or_next (none, st) next = next st

-- The inner loop of Get: the first table with an entry for the key.
unfoldable pub search_files : Bytes → List SsTable → Stats → Outcome (Option Entry × Stats)
search_files key [] st = ok (none, st)
search_files key (sst ∷ files) st =
    let skipped : Stats = record st { bloom_filter_skips = st.bloom_filter_skips + 1 } in
    let opened : Stats = record st { files_opened = st.files_opened + 1 } in
    let skip = search_files key files skipped in
    let open_file =
      Reader.get key sst >>= λ e. or_next (e, opened) (λ st'. search_files key files st') in
    Reader.may_contain key sst >>= λ hit. if not hit then skip else open_file

-- The outer loop of Get over `numLevels` levels.
unfoldable pub search_levels :
    Bytes → ℕ → List (List SsTable) → Stats → Outcome (Option Entry × Stats)
search_levels key zero levels st = ok (none, st)
search_levels key (suc n) [] st = panic
search_levels key (suc n) (files ∷ levels) st =
    search_files key files st >>= λ p. or_next p (λ st'. search_levels key n levels st')

-- Get: the value, `none` for the result false.
unfoldable pub get : Bytes → Lsm → Outcome (Option Bytes × Lsm)
get key l = in_memtable (MemTable.get key l.memtable)
  where
    shown : Option Entry → Option Bytes
    shown (some e) = visible e
    shown none = none

    in_memtable : Option Entry → Outcome (Option Bytes × Lsm)
    in_memtable (some e) = ok (visible e, l)
    in_memtable none = search_levels key l.num_levels l.levels l.stats >>= λ p.
        ok (shown p.0, record l { stats = p.1 })

-- `KeyValue`
pub record KeyValue : Type 0 where
  pub key : Bytes
  pub value : Bytes

-- The entries of a batch: the i-th gets the time `ts + i`.
unfoldable pub batch_entries : ℤ → ℕ → List KeyValue → List Entry
batch_entries ts i [] = []
batch_entries ts i (kv ∷ kvs) =
    record { key = kv.key; value = kv.value; timestamp = add_ℕ ts i; tombstone = false }
    ∷ batch_entries ts (i + 1) kvs

-- The loop of PutBatch without a log.
unfoldable pub put_all : ℤ → ℕ → List KeyValue → MemTable → MemTable
put_all ts i [] t = t
put_all ts i (kv ∷ kvs) t = put_all ts (i + 1) kvs (MemTable.put kv.key kv.value (add_ℕ ts i) t)

-- The loop of PutBatch with a log: the bytes behind `crcOff + 4`, and the memtable.
unfoldable pub put_rows : ℤ → ℕ → List KeyValue → Bytes → MemTable → Bytes × MemTable
put_rows ts i [] wal_buf t = (wal_buf, t)
put_rows ts i (kv ∷ kvs) wal_buf t =
    let row =
      uvarint_bytes (length kv.key)
      ++ (kv.key
          ++ (uvarint_bytes (length kv.value)
              ++ (kv.value ++ (varint_bytes (add_ℕ ts i) ++ (0 ∷ []))))) in
    put_rows ts (i + 1) kvs (wal_buf ++ row) (MemTable.put kv.key kv.value (add_ℕ ts i) t)

-- `walBuf`, with the checksum filled in, and the memtable.
unfoldable pub batch_log : ℤ → List KeyValue → MemTable → Bytes × MemTable
batch_log ts kvs t =
    let (rows, t') = put_rows ts 0 kvs [] t in
    (uvarint_bytes (length kvs) ++ (little_endian 4 (checksum rows) ++ rows), t')

-- `totalEstimate`
unfoldable pub total_estimate : List KeyValue → ℕ
total_estimate [] = 0
total_estimate (kv ∷ kvs) = length kv.key + length kv.value + 16 + total_estimate kvs

-- PutBatch up to the flush: the tree, and the error that AppendRaw returns. The memtable has the batch
-- also where the log fails. `ts` is the time read from the clock.
unfoldable pub write_batch :
    (Bytes → Option Error) → Os → ℤ → List KeyValue → Lsm → Outcome (Lsm × Option Error)
write_batch submit os ts [] l = ok (l, none)
write_batch submit os ts (kv ∷ kvs) l = with_log l.wal
  where
    batch : List KeyValue
    batch = kv ∷ kvs

    stored : Lsm
    stored = record l { memtable = (batch_log ts batch l.memtable).1 }

    counted : Stats
    counted = record l.stats {
      wal_bytes_written = l.stats.wal_bytes_written + total_estimate batch;
    }

    settled : Wal → Option Error → Lsm × Option Error
    settled w (some e) = (record stored { wal = some w }, some e)
    settled w none = (record stored { wal = some w; stats = counted }, none)

    with_log : Option Wal → Outcome (Lsm × Option Error)
    with_log none = ok (record l { memtable = put_all ts 0 batch l.memtable }, none)
    with_log (some w) =
        Wal.append_raw submit os (batch_log ts batch l.memtable).0 w >>= λ p. ok (settled p.0 p.1)

-- Delete
unfoldable pub delete : (Bytes → Option Error) → Os → ℤ → Bytes → Lsm → Outcome (Lsm × Option Error)
delete submit os ts key l = with_log l.wal
  where
    tombstone_entry : Entry
    tombstone_entry = record { key = key; value = []; timestamp = ts; tombstone = true }

    marked : Lsm → Lsm
    marked l' = record l' { memtable = MemTable.delete key ts l'.memtable }

    counted : Stats
    counted = record l.stats { wal_bytes_written = l.stats.wal_bytes_written + (length key + 16) }

    settled : Wal → Option Error → Lsm × Option Error
    settled w (some e) = (record l { wal = some w }, some e)
    settled w none = (marked (record l { wal = some w; stats = counted }), none)

    with_log : Option Wal → Outcome (Lsm × Option Error)
    with_log none = ok (marked l, none)
    with_log (some w) = Wal.append_entry submit os tombstone_entry w >>= λ p. ok (settled p.0 p.1)

-- The loop of recoverWAL.
unfoldable pub reinsert : List Entry → MemTable → MemTable
reinsert [] t = t
reinsert (e ∷ es) t = reinsert es (
    if e.tombstone
    then MemTable.delete e.key e.timestamp t
    else MemTable.put e.key e.value e.timestamp t)

-- recoverWAL from the end of its loop on
unfoldable pub after_replay : Os → Bool → Wal → List Entry → Lsm → Outcome Lsm
after_replay os ring_ok w [] l = ok l
after_replay os ring_ok w (e ∷ es) l = Wal.reset os ring_ok w >>= λ p. returned p.0 p.1
  where
    returned : Wal → Option Error → Outcome Lsm
    returned w' (some e) = fail e
    returned w' none = ok (record l { wal = some w' })

-- recoverWAL, for a tree with a log.
unfoldable pub recover_wal : Os → Bool → Wal → Lsm → Outcome Lsm
recover_wal os ring_ok w l = Wal.replay w >>= λ es.
    after_replay os ring_ok w es (record l { memtable = reinsert es l.memtable })
