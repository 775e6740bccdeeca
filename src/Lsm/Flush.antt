-- ===== src/Lsm/Flush.antt =====
-- internal/lsm/lsm.go: flushMemtable, Put and PutBatch, Open and Close. An error returned comes with the
-- state that is left.
use lsm_tree_go.Common.{
  ℕ, ◌+◌, ◌*◌, ◌^◌, Bool, true, false, Option, none, some, List, [], ◌∷◌, ◌++◌, map, length,
  replicate, ltb, leb, ◌==◌, if◌then◌else◌,
}
use lsm_tree_go.Common.Decimal.{decimal}
use lsm_tree_go.Common.Int.{ℤ}
use lsm_tree_go.Common.Keys.{Bytes}
use lsm_tree_go.Common.Map.{insert, erase}
use lsm_tree_go.Common.Outcome.{Error, Outcome, ok, call, on_fail, ◌>>=◌, ◌>>◌}
use lsm_tree_go.MemTable
use lsm_tree_go.MemTable.{Entry, MemTable}
use lsm_tree_go.SsTable.Writer
use lsm_tree_go.SsTable.Writer.{Os, Writer}
use lsm_tree_go.SsTable.Writer.Appends.{append_all}
use lsm_tree_go.SsTable.Reader.{close_table}
use lsm_tree_go.Wal
use lsm_tree_go.Wal.{Wal, SyncMode}
use lsm_tree_go.Compaction.{Disk, join, sst_suffix}
use lsm_tree_go.Lsm.{Lsm, KeyValue, write_batch, recover_wal}
use lsm_tree_go.Lsm.Manifest.{write_manifest, load_existing_sstables}
use lsm_tree_go.Lsm.Compact.{level_at, attach, open_quickly, and_then, data_sizes, compact_l0_to_l1}

-- `0-%d.sst`
unfoldable pub flush_path : Lsm → Bytes
flush_path l = join l.dir (b'0' ∷ b'-' ∷ (decimal l.next_id ++ sst_suffix))

-- The table file of the entries, made by CreateWriter, Append and Close: its bytes, and what Info says.
unfoldable pub write_table : Os → Bytes → List Entry → Outcome (Bytes × ℕ)
write_table os path es = do
  w ← Writer.create_writer os path (length es) 128
  filled ← append_all os es w
  (contents, closed) ← Writer.close os filled
  ok (contents, Writer.info closed)

-- `lsm.wal.Reset()`, where there is a log.
unfoldable pub reset_wal : Os → Bool → Lsm → Outcome (Lsm × Option Error)
reset_wal os ring_ok l = by_wal l.wal
  where
    by_wal : Option Wal → Outcome (Lsm × Option Error)
    by_wal none = ok (l, none)
    by_wal (some w) = Wal.reset os ring_ok w >>= λ p. ok (record l { wal = some p.0 }, p.1)

-- flushMemtable from the opening of the new table on.
unfoldable pub publish : Os → Bytes → Lsm → Outcome (Lsm × Option Error)
publish os path l =
    on_fail (open_quickly os path l.disk) (λ e. ok (l, some e))
      (λ sst. attach 0 sst l >>= λ l'. and_then (write_manifest os l') signal)
  where
    signal : Lsm → Outcome (Lsm × Option Error)
    signal l' = do
      let signalled = record l' { signalled = true }
      files ← level_at 0 signalled
      if ltb (l'.max_l0_files * 2) (length files)
          then compact_l0_to_l1 os signalled
          else ok (signalled, none)

-- flushMemtable from what Reset returns on.
unfoldable pub after_reset : Os → Bytes → Lsm → Option Error → Outcome (Lsm × Option Error)
after_reset os path l (some e) = ok (record l { disk = erase path l.disk }, some e)
after_reset os path l none = publish os path l

-- flushMemtable. Where Reset fails the new table is removed again, and the memtable is empty by then.
unfoldable pub flush_memtable : Os → Bool → Lsm → Outcome (Lsm × Option Error)
flush_memtable os ring_ok l =
    if MemTable.count l.memtable == 0
    then ok (l, none)
    else on_fail (write_table os path listed.0) (λ e. ok (named, some e))
        (λ p. reset_wal os ring_ok (stored p.0 p.1) >>= λ q. after_reset os path q.0 q.1)
  where
    path : Bytes
    path = flush_path l

    listed : List Entry × MemTable
    listed = MemTable.entries l.memtable

    named : Lsm
    named = record l { memtable = listed.1; next_id = l.next_id + 1 }

    stored : Bytes → ℕ → Lsm
    stored contents size = record named {
      disk = insert path contents l.disk;
      stats = record l.stats { sstable_bytes_written = l.stats.sstable_bytes_written + size };
      memtable = MemTable.new;
    }

-- PutBatch. `submit` is the ring's submitWrite, and `ring_ok` tells whether a new ring can be had.
unfoldable pub put_batch :
    (Bytes → Option Error) → Os → Bool → ℤ → List KeyValue → Lsm → Outcome (Lsm × Option Error)
put_batch submit os ring_ok ts [] l = ok (l, none)
put_batch submit os ring_ok ts (kv ∷ kvs) l = do
  p ← write_batch submit os ts (kv ∷ kvs) l
  and_then p (λ l'.
      if leb l'.flush_threshold (MemTable.size l'.memtable)
      then flush_memtable os ring_ok l'
      else ok (l', none))

-- Put
unfoldable pub put :
    (Bytes → Option Error) → Os → Bool → ℤ → Bytes → Bytes → Lsm → Outcome (Lsm × Option Error)
put submit os ring_ok ts key value l =
    put_batch submit os ring_ok ts (record { key = key; value = value } ∷ []) l

-- Options; a negative number counts as 0.
pub record Options : Type 0 where
  pub dir : Bytes
  pub flush_threshold : ℕ
  pub num_levels : ℕ
  pub wal_sync_mode : SyncMode
  pub no_wal : Bool

-- updateLevelStats
unfoldable pub update_level_stats : Lsm → Lsm
update_level_stats l = record l { stats = record l.stats { level_sizes = map data_sizes l.levels } }

-- The struct that Open starts from; `now` is the time read from the clock.
unfoldable pub fresh_tree : Options → ℕ → Disk → Option (List (List Bytes)) → Lsm
fresh_tree opts now disk manifest =
    let levels = if opts.num_levels == 0 then 7 else opts.num_levels in
    record {
      dir = opts.dir;
      memtable = MemTable.new;
      wal = none;
      flush_threshold = if opts.flush_threshold == 0 then 4 * 2 ^ 20 else opts.flush_threshold;
      max_l0_files = 8;
      base_level_size = 2 ^ 20;
      num_levels = levels;
      levels = replicate levels [];
      stats = record {
        wal_bytes_written = 0;
        sstable_bytes_written = 0;
        compaction_bytes_written = 0;
        files_opened = 0;
        bloom_filter_skips = 0;
        level_sizes = replicate levels 0;
      };
      closed = false;
      next_id = now;
      signalled = false;
      disk = disk;
      manifest = manifest;
    }

-- `filepath.Join(opts.Dir, "wal.log")`
unfoldable pub wal_path : Bytes → Bytes
wal_path dir = join dir (b'w' ∷ b'a' ∷ b'l' ∷ b'.' ∷ b'l' ∷ b'o' ∷ b'g' ∷ [])

-- What Open does for the log, unless there is to be none.
unfoldable pub open_log : Os → Bool → Options → Bytes → Lsm → Outcome Lsm
open_log os ring_ok opts log l = if opts.no_wal then ok l else with_log
  where
    with_log : Outcome Lsm
    with_log = do
      w ← Wal.open_wal os ring_ok (wal_path opts.dir) opts.wal_sync_mode log
      recover_wal os ring_ok w (record l { wal = some w })

-- Open, of a directory with the given log file, tables and manifest. The error of writeManifest is left
-- aside.
unfoldable pub open_tree :
    Os → Bool → Options → ℕ → Bytes → Disk → Option (List (List Bytes)) → Outcome Lsm
open_tree os ring_ok opts now log disk manifest = do
  call os.mkdir_ok
  let l = fresh_tree opts now disk manifest
  recovered ← open_log os ring_ok opts log l
  loaded ← load_existing_sstables os recovered
  ok (write_manifest os (update_level_stats loaded)).0

-- Close, once the background loop has ended: the tree, and what Close of the log leaves of its file.
unfoldable pub close : Os → Lsm → Outcome (Lsm × Option Bytes)
close os l = by_wal l.wal
  where
    closed_tree : Lsm
    closed_tree = record l { closed = true; levels = map (map close_table) l.levels }

    by_wal : Option Wal → Outcome (Lsm × Option Bytes)
    by_wal none = ok (closed_tree, none)
    by_wal (some w) = do
      (contents, w') ← Wal.close os w
      ok (record closed_tree { wal = some w' }, some contents)
