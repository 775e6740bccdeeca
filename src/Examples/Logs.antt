-- ===== src/Examples/Logs.antt =====
-- The theorems about internal/wal/wal.go and internal/lsm/lsm.go at a log of one batch.
use lsm_tree_go.Common.{
  ◌*◌, ◌^◌, if◌then◌else◌, ◌==◌, ◌≡◌, ◌≢◌, refl, true, false, Option, none, List, [], ◌∷◌, ◌++◌,
  length, All, arith,
}
use lsm_tree_go.Common.Int.{ℤ, pos}
use lsm_tree_go.Common.Outcome.{◌>>=◌, Error, ok}
use lsm_tree_go.MemTable
use lsm_tree_go.MemTable.{Entry}
use lsm_tree_go.Wal.{
  live, replay_loop, batch_body, Wal, sync_always, sync_iouring, wal_version, replay, append_batch,
  serialize_entries,
}
use lsm_tree_go.Common.Crc.{checksum}
use lsm_tree_go.Wal.Replay.{batch_bytes, replay_step, log_bytes, logged, IsGoBatch}
use lsm_tree_go.Common.{◌⊎◌}
use lsm_tree_go.SsTable.Writer.{Os}
use lsm_tree_go.Wal.Whole.{append_batch-whole, IsReset, reset_lem}
use lsm_tree_go.Wal.Appends.{Holds, Grows, replay-logged, append_batch-Holds}
use lsm_tree_go.Lsm.{Lsm, Stats, KeyValue, batch_log, batch_entries, reinsert, recover_wal, get}
use lsm_tree_go.Lsm.Reads.{get_lem, shown, or_else, first_below}
use lsm_tree_go.Lsm.Writes.{batch_log_lem, recover_wal-put_batches, put_batches, batches_of}
use lsm_tree_go.Examples.{key_a, key_b, both}
use lsm_tree_go.Examples.Tables.{up_os, both_index, both_filter, both-IsWritten}
use lsm_tree_go.SsTable.Reader.Opened.{table}
use lsm_tree_go.SsTable.Reader.Lookup.{get-find, reaches_key}
use lsm_tree_go.Common.Keys.{key_lt}

up_os-Grows : Grows up_os
up_os-Grows = (refl, (λ n. refl), λ n. refl)

abbrev log_of : List (List Entry) → Wal
log_of bs = record {
  path = key_a;
  mapped = wal_version ∷ log_bytes bs;
  mapping = live;
  cap = length (wal_version ∷ log_bytes bs);
  write_at = length (wal_version ∷ log_bytes bs);
  mode = sync_always;
  pending = 0;
  closed = false;
  flush_err = none;
}

log_of-Holds : (bs : List (List Entry)) → Holds bs (log_of bs)
log_of-Holds bs = (refl, refl, omega arith, refl)

not_iouring : sync_always ≢ sync_iouring
not_iouring e = cc

append_batch-Holds_example :
    (w' : Wal) × ((e : Option Error) × ((append_batch (λ b. none) up_os both (log_of (both ∷ []))
          ≡ ok (w', e))
        × (Holds ((both ∷ []) ++ (both ∷ [])) w' × (w'.mode ≡ sync_always))))
append_batch-Holds_example =
    append_batch-Holds (λ b. none) up_os (both ∷ []) both (log_of (both ∷ [])) up_os-Grows
      not_iouring (log_of-Holds (both ∷ []))

-- A mapping can be given back, and no other can be had.
abbrev no_map_os : Os
no_map_os = record up_os { mmap_ok = λ n. false }

append_batch-whole_example :
    (w' : Wal) × (e : Option Error) × (append_batch (λ b. none) no_map_os both (log_of (both ∷ []))
      ≡ ok (w', e))
    × (w'.mode ≡ sync_always)
    × (Holds ((both ∷ []) ++ (both ∷ [])) w'
        ⊎ ((e ≢ none)
            × (w'.mapped ≡ wal_version ∷ log_bytes (both ∷ []))
            × (w'.write_at ≡ length (wal_version ∷ log_bytes (both ∷ [])))))
append_batch-whole_example =
    append_batch-whole (λ b. none) no_map_os (both ∷ []) both (log_of (both ∷ [])) not_iouring
      (log_of-Holds (both ∷ []))

reset_lem_example : IsReset no_map_os true (log_of (both ∷ []))
reset_lem_example = reset_lem no_map_os true (log_of (both ∷ [])) not_iouring refl

both-IsGoBatch : IsGoBatch both
both-IsGoBatch = (
  ((omega arith, omega arith, omega arith), ((omega arith, omega arith, omega arith), tt)),
  omega arith,
)

replay-logged_example : replay (log_of (both ∷ both ∷ [])) ≡ ok (logged (both ∷ both ∷ []))
replay-logged_example =
    replay-logged (both ∷ both ∷ []) (log_of (both ∷ both ∷ []))
      (both-IsGoBatch, (both-IsGoBatch, tt)) (log_of-Holds (both ∷ both ∷ []))

abbrev two_values : List KeyValue
two_values = record { key = key_a; value = 120 ∷ [] } ∷ record { key = key_b; value = [] } ∷ []

batch_log_lem_example : batch_log (pos 5) two_values MemTable.new ≡ (
  serialize_entries (batch_entries (pos 5) 0 two_values),
  reinsert (batch_entries (pos 5) 0 two_values) MemTable.new,
)
batch_log_lem_example = batch_log_lem (pos 5) two_values MemTable.new

abbrev written_batches : List (ℤ × List KeyValue)
written_batches = (pos 5, two_values) ∷ []

abbrev empty_tree : Lsm
empty_tree = record {
  dir = key_b;
  memtable = MemTable.new;
  wal = none;
  flush_threshold = 4 * 2 ^ 20;
  max_l0_files = 8;
  base_level_size = 2 ^ 20;
  num_levels = 2;
  levels = [] ∷ [] ∷ [];
  stats = record {
    wal_bytes_written = 0;
    sstable_bytes_written = 0;
    compaction_bytes_written = 0;
    files_opened = 0;
    bloom_filter_skips = 0;
    level_sizes = 0 ∷ 0 ∷ [];
  };
  closed = false;
  next_id = 1;
  signalled = false;
  disk = [];
  manifest = none;
}

written_batches-IsGoBatch : All IsGoBatch (batches_of written_batches)
unfolding batches_of batch_entries
written_batches-IsGoBatch = (
  (
    ((omega arith, omega arith, omega arith), ((omega arith, omega arith, omega arith), tt)),
    omega arith,
  ),
  tt,
)

recover_wal-put_batches_example :
    (l' : Lsm) × (recover_wal up_os true (log_of (batches_of written_batches)) empty_tree ≡ ok l')
    × (l'.memtable ≡ put_batches written_batches MemTable.new)
recover_wal-put_batches_example =
    recover_wal-put_batches up_os true written_batches (log_of (batches_of written_batches))
      empty_tree (up_os-Grows, refl, refl) not_iouring written_batches-IsGoBatch
      (log_of-Holds (batches_of written_batches))

-- A tree with one table on its first level.
abbrev one_table : Lsm
one_table = record empty_tree { levels = (table both both_index both_filter key_a ∷ []) ∷ [] ∷ [] }

get_lem_example :
    (st : Stats) × (get key_b one_table
      ≡ ok (
        shown
            (or_else (MemTable.get key_b MemTable.new) (first_below key_b ((both ∷ []) ∷ [] ∷ []))),
        record one_table { stats = st },
      ))
get_lem_example = get_lem key_b one_table ((both ∷ []) ∷ [] ∷ []) refl (
  (
    get-find both both_index both_filter both-IsWritten key_a key_b
        (unfold reaches_key key_lt in refl),
    tt,
  ),
  (tt, tt),
)

replay_step_example : replay_loop 2 (batch_bytes 7 both ++ (1 ∷ [])) ≡ (
    if checksum (batch_body both) == 7
    then replay_loop 1 (1 ∷ []) >>= (λ more. ok (both ++ more))
    else ok [])
replay_step_example =
    replay_step 1 7 both (1 ∷ [])
      ((omega arith, omega arith, omega arith), ((omega arith, omega arith, omega arith), tt))
      (omega arith) (omega arith)
