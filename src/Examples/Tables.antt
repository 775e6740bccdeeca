-- ===== src/Examples/Tables.antt =====
-- The theorems about internal/sstable/sstable.go at a table of two entries.
use lsm_tree_go.Common.{◌^◌, ◌≡◌, refl, sym, true, some, [], ◌∷◌, ◌++◌, length, arith}
use lsm_tree_go.Common.Keys.{key_lt}
use lsm_tree_go.Common.Crc.{checksum_nil}
use lsm_tree_go.Common.Map.{has_key}
use lsm_tree_go.Common.Varint.{uvarint_bytes, uvarint_groups, varint_bytes, little_endian}
use lsm_tree_go.Common.Outcome.{ok}
use lsm_tree_go.MemTable.Sorted.{find, entry_keys}
use lsm_tree_go.SparseIndex
use lsm_tree_go.SparseIndex.{SparseIndex, IndexEntry}
use lsm_tree_go.Bloom.{Filter, serialize, word_bytes}
use lsm_tree_go.Bloom.Members.{no_false_negatives}
use lsm_tree_go.SsTable.{entry_bytes, entry_body, string_bytes, parse_entry}
use lsm_tree_go.SsTable.Codec.{parse_entry-entry_bytes}
use lsm_tree_go.SsTable.Writer
use lsm_tree_go.SsTable.Writer.{Os, Writer, index_block, bloom_block, index_entry_bytes, footer}
use lsm_tree_go.SsTable.Writer.Appends.{
  IsUp, Has, append_all, append_all-Has, table_bytes, expected_index,
}
use lsm_tree_go.SsTable.Writer.Closed.{file_bytes, table_footer, close-file_bytes}
use lsm_tree_go.SsTable.Reader
use lsm_tree_go.SsTable.Reader.{
  open_no_verify, open_table, open_no_verify, all_entries, parse_index_block, parse_bloom_block,
}
use lsm_tree_go.SsTable.Reader.Blocks.{parse_index_block-index_block}
use lsm_tree_go.SsTable.Reader.Opened.{open_no_verify-table, IsStorable, table, open_table-table}
use lsm_tree_go.SsTable.Reader.Scan.{all_entries-table}
use lsm_tree_go.SsTable.Reader.Lookup.{IsWritten, get-find, reaches_key}
use lsm_tree_go.Examples.{key_a, key_b, entry_a, both, small_filter, small_filter-IsValid}

abbrev pub up_os : Os
up_os = record {
  mkdir_ok = true;
  create_ok = true;
  open_ok = true;
  munmap_ok = true;
  sync_ok = true;
  write_ok = true;
  seek_ok = true;
  rename_ok = true;
  truncate_ok = λ n. true;
  mmap_ok = λ n. true;
}

pub up_os-IsUp : IsUp up_os
up_os-IsUp = record {
  mkdir = refl;
  create = refl;
  opened = refl;
  munmap = refl;
  sync = refl;
  truncate = λ n. refl;
  mmap = λ n. refl;
}

-- The index of the two entries.
abbrev pub both_index : SparseIndex
both_index = record { entries = record { key = key_a; offset = 0 } ∷ []; step = 128 }

parse_entry-entry_bytes_example :
    parse_entry (entry_bytes entry_a ++ (1 ∷ [])) ≡ ok (entry_a, length (entry_bytes entry_a))
parse_entry-entry_bytes_example =
    parse_entry-entry_bytes entry_a (1 ∷ []) (omega arith, omega arith, omega arith)

all_entries-table_example : all_entries (table both both_index small_filter key_a) ≡ ok both
all_entries-table_example =
    all_entries-table both both_index small_filter key_a
      ((omega arith, omega arith, omega arith), ((omega arith, omega arith, omega arith), tt))

parse_index_block-index_block_example :
    parse_index_block (index_block both_index ++ (1 ∷ [])) ≡ ok both_index
parse_index_block-index_block_example =
    parse_index_block-index_block both_index (1 ∷ []) (omega arith) (omega arith) (omega arith)
      ((omega arith, omega arith), tt)

pub both-IsStorable : IsStorable both both_index small_filter
both-IsStorable = record {
  fits =
      (unfold file_bytes table_bytes entry_bytes entry_body string_bytes uvarint_bytes
          uvarint_groups varint_bytes index_block index_entry_bytes bloom_block serialize word_bytes
          table_footer footer little_endian in
        omega arith);
  step_pos = omega arith;
  step_small = omega arith;
  count_small = omega arith;
  entries_small = ((omega arith, omega arith), tt);
  filter_valid = small_filter-IsValid;
  words_small = (omega arith, tt);
  hashes_small = omega arith;
}

open_table-table_example :
    open_table up_os key_a (file_bytes both both_index (some small_filter))
    ≡ ok (table both both_index small_filter key_a)
open_table-table_example =
    open_table-table both both_index small_filter both-IsStorable up_os key_a up_os-IsUp

open_no_verify-table_example :
    open_no_verify up_os key_a (file_bytes both both_index (some small_filter))
    ≡ ok (table both both_index small_filter key_a)
open_no_verify-table_example =
    open_no_verify-table both both_index small_filter both-IsStorable up_os key_a up_os-IsUp

-- The filter that has taken in both keys.
abbrev pub both_filter : Filter
both_filter = (no_false_negatives (entry_keys both) small_filter small_filter-IsValid).0

pub both-IsWritten : IsWritten both both_index both_filter
both-IsWritten =
    let p = no_false_negatives (entry_keys both) small_filter small_filter-IsValid in
    record {
      sorted = (unfold entry_keys key_lt in ((refl, tt), (tt, tt)));
      entries =
          ((omega arith, omega arith, omega arith), ((omega arith, omega arith, omega arith), tt));
      index =
          (unfold expected_index entry_bytes entry_body string_bytes uvarint_bytes uvarint_groups
              varint_bytes in
            refl);
      filter_valid = p.2;
      members = p.3;
    }

get-find_example : Reader.get key_b (table both both_index both_filter key_a) ≡ ok (find key_b both)
get-find_example =
    get-find both both_index both_filter both-IsWritten key_a key_b
      (unfold reaches_key key_lt in refl)

-- A writer that has taken in nothing.
abbrev fresh : Writer
fresh = record {
  mapped = [];
  mmap_cap = 2 ^ 23;
  path = key_a;
  count = 0;
  byte_pos = 0;
  sparse_index = SparseIndex.new 128;
  bloom_filter = some small_filter;
  data_crc = 0;
}

fresh-Has : Has fresh []
unfolding table_bytes expected_index has_key entry_keys
fresh-Has = record {
  bytes = refl;
  position = refl;
  counted = refl;
  room = omega arith;
  capacity = omega arith;
  index = unfold SparseIndex.new in refl;
  crc = sym checksum_nil;
  filter = small_filter;
  filtered = refl;
  filter_valid = small_filter-IsValid;
  members = λ k h. cc;
}

append_all-Has_example :
    (w' : Writer) × (append_all up_os both fresh ≡ ok w')
    × Has w' ([] ++ both)
    × (w'.sparse_index.step ≡ fresh.sparse_index.step)
append_all-Has_example = append_all-Has up_os up_os-IsUp both [] fresh fresh-Has

close-file_bytes_example :
    (w' : Writer) × (Writer.close up_os fresh
      ≡ ok (file_bytes [] fresh.sparse_index fresh.bloom_filter, w'))
close-file_bytes_example = close-file_bytes up_os up_os-IsUp [] fresh fresh-Has (
    unfold index_block bloom_block SparseIndex.new serialize word_bytes uvarint_bytes uvarint_groups
      little_endian in
    omega arith)
