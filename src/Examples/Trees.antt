-- ===== src/Examples/Trees.antt =====
-- The theorems about internal/lsm/lsm.go at small trees.
use mathlib.Core.List.{Perm}
use lsm_tree_go.Common.{
  ◌+◌, ◌≡◌, refl, true, false, none, some, List, [], All, ◌∷◌, ◌++◌, map, arith,
}
use lsm_tree_go.Common.Int.{pos}
use lsm_tree_go.Common.Keys.{Bytes, key_lt, key_eq}
use lsm_tree_go.Common.Map.{lookup, insert, keys}
use lsm_tree_go.Common.Outcome.{ok, ring_error}
use lsm_tree_go.Common.Sort.{sort_strings}
use lsm_tree_go.MemTable
use lsm_tree_go.SparseIndex.{SparseIndex}
use lsm_tree_go.SsTable.Writer.Closed.{file_bytes}
use lsm_tree_go.SsTable.Reader.{SsTable}
use lsm_tree_go.SsTable.Reader.Opened.{table, open_table-table}
use lsm_tree_go.Wal.{live, Wal, sync_iouring, sync_always, append_raw}
use lsm_tree_go.Compaction.{join, sst_suffix}
use lsm_tree_go.Lsm.{Lsm, KeyValue, get, put_all, write_batch}
use lsm_tree_go.Lsm.Manifest.{
  base_name, base_from, open_path, write_manifest, load_existing_sstables, load_listed,
  load_scanned, scan_dir, dir_names, snapshot,
}
use lsm_tree_go.Lsm.Compact.{data_sizes}
use lsm_tree_go.Lsm.Flush.{
  Options, open_tree, open_log, fresh_tree, update_level_stats, put, put_batch,
}
use lsm_tree_go.Lsm.Info.{
  Span, spans, index_key, insert_span, sort_spans, has_overlap, level_overlaps,
}
use lsm_tree_go.Lsm.Consistent.{IsConsistent}
use lsm_tree_go.Lsm.Reached.{IsReached, opened, stepped, step_put, IsReached-IsConsistent}
use lsm_tree_go.Lsm.Visible.{get-put_failed}
use lsm_tree_go.Lsm.Reopened.{IsKept, same_options, open_tree-write_manifest}
use lsm_tree_go.Lsm.Compact.{compact_level}
use lsm_tree_go.Lsm.Chosen.{IsApart, non_overlapping_lem}
use lsm_tree_go.Lsm.Compact.{key_range, overlapping, non_overlapping}
use lsm_tree_go.SsTable.Reader.{min_key, max_key}
use lsm_tree_go.Lsm.Deepest.{compact_level_fuel}
use lsm_tree_go.Lsm.Apart.{IsChain, level_overlaps_lem}
use lsm_tree_go.Examples.{key_a, key_b, both, small_filter}
use lsm_tree_go.Examples.Tables.{up_os, up_os-IsUp, both_index, both-IsStorable}

abbrev options : Options
options = record {
  dir = key_b;
  flush_threshold = 0;
  num_levels = 2;
  wal_sync_mode = sync_always;
  no_wal = true;
}

-- What Open makes of an empty directory.
abbrev pub opened_tree : Lsm
opened_tree = record {
  dir = key_b;
  memtable = MemTable.new;
  wal = none;
  flush_threshold = 4194304;
  max_l0_files = 8;
  base_level_size = 1048576;
  num_levels = 2;
  levels = [] ∷ [] ∷ [];
  stats = record {
    wal_bytes_written = 0;
    sstable_bytes_written = 0;
    compaction_bytes_written = 0;
    files_opened = 0;
    bloom_filter_skips = 0;
    level_sizes = 0 ∷ 0 ∷ [];
  };
  closed = false;
  next_id = 1;
  signalled = false;
  disk = [];
  manifest = some ([] ∷ [] ∷ []);
}

opened_tree-IsReached : IsReached opened_tree
opened_tree-IsReached =
    let opens : open_tree up_os true options 1 [] [] none ≡ ok opened_tree =
      unfold open_tree open_log fresh_tree load_existing_sstables load_listed load_scanned scan_dir
        dir_names sort_strings keys update_level_stats write_manifest snapshot in
      refl in
    opened up_os true options 1 [] [] none opens

abbrev one_pair : List KeyValue
one_pair = record { key = key_a; value = key_b } ∷ []

-- The tree with one pair in its memtable.
abbrev put_tree : Lsm
put_tree = record opened_tree { memtable = put_all (pos 5) 0 one_pair MemTable.new }

put_tree-IsReached : IsReached put_tree
put_tree-IsReached =
    let puts : put_batch (λ b. none) up_os true (pos 5) one_pair opened_tree ≡ ok (put_tree, none) =
      unfold put_batch write_batch put_all MemTable.put MemTable.release lookup insert in refl in
    stepped opened_tree-IsReached (step_put (λ b. none) up_os true (pos 5) one_pair none puts)

IsReached-IsConsistent_example : IsConsistent put_tree
IsReached-IsConsistent_example = IsReached-IsConsistent put_tree put_tree-IsReached

-- A log whose ring fails.
abbrev pub ring_log : Wal
ring_log = record {
  path = key_a;
  mapped = [];
  mapping = live;
  cap = 0;
  write_at = 1;
  mode = sync_iouring;
  pending = 0;
  closed = false;
  flush_err = none;
}

abbrev ring_tree : Lsm
ring_tree = record opened_tree { wal = some ring_log }

get-put_failed_example :
    (l' : Lsm) × (put (λ b. some ring_error) up_os true (pos 5) key_a key_b ring_tree
      ≡ ok (l', some ring_error))
    × (get key_a l' ≡ ok (some key_b, l'))
get-put_failed_example =
    get-put_failed (λ b. some ring_error) up_os true (pos 5) key_a key_b ring_tree ring_log ring_log
      ring_error refl (unfold append_raw in refl)

abbrev name : Bytes
name = b'0' ∷ b'-' ∷ b'1' ∷ sst_suffix

abbrev one_file : SsTable
one_file = table both both_index small_filter (key_b ++ b'/' ∷ name)

abbrev filed_tree : Lsm
filed_tree = record opened_tree {
  levels = (one_file ∷ []) ∷ [] ∷ [];
  disk = (key_b ++ b'/' ∷ name, file_bytes both both_index (some small_filter)) ∷ [];
}

one_file-IsKept : IsKept up_os key_b filed_tree.disk one_file
one_file-IsKept =
    unfold open_path lookup base_name base_from join key_eq in
    open_table-table both both_index small_filter both-IsStorable up_os (key_b ++ b'/' ∷ name)
      up_os-IsUp

open_tree-write_manifest_example :
    (l' : Lsm) × (open_tree up_os true
        (same_options filed_tree)
        9
        []
        filed_tree.disk
        (write_manifest up_os filed_tree).0.manifest
      ≡ ok l')
    × (l'.levels ≡ filed_tree.levels)
    × (l'.stats.level_sizes ≡ map data_sizes filed_tree.levels)
open_tree-write_manifest_example =
    open_tree-write_manifest up_os true 9 [] filed_tree refl refl refl refl refl (omega arith)
      ((one_file-IsKept, tt), (tt, tt))

abbrev later_index : SparseIndex
later_index = record { entries = record { key = key_b; offset = 0 } ∷ []; step = 128 }

-- Two tables with one index key each, the later one first.
abbrev two_files : List SsTable
two_files =
    table both later_index small_filter key_a ∷ table both both_index small_filter key_b ∷ []

abbrev two_spans : List Span
two_spans = record { first = key_b; last = key_b } ∷ record { first = key_a; last = key_a } ∷ []

level_overlaps_lem_example : (out : List Span) × Perm out two_spans × IsChain out
level_overlaps_lem_example =
    level_overlaps_lem two_files two_spans (omega arith) (unfold spans index_key in refl)
      (unfold key_lt in (refl, (refl, tt)))
      (unfold level_overlaps spans index_key sort_spans insert_span has_overlap key_lt in refl)

compact_level_fuel_example :
    compact_level (3 + 4) up_os 1 filed_tree ≡ compact_level 3 up_os 1 filed_tree
compact_level_fuel_example = compact_level_fuel 3 4 up_os 1 filed_tree (omega arith)

-- A table of level 0, and a level 1 of two tables.
abbrev first_file : SsTable
first_file = table both both_index small_filter key_a

non_overlapping_lem_example :
    Perm (overlapping key_a key_b two_files ++ non_overlapping key_a key_b two_files) two_files
    × All (λ s. All (IsApart s) (non_overlapping key_a key_b two_files)) (first_file ∷ two_files)
non_overlapping_lem_example =
    non_overlapping_lem first_file two_files two_files key_a key_b
      (unfold key_range key_lt min_key max_key in refl)
