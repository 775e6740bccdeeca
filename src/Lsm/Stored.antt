-- ===== src/Lsm/Stored.antt =====
-- The table file that flushMemtable writes.
use lsm_tree_go.Common.{
  ℕ, ◌+◌, ◌*◌, ◌^◌, ◌≤◌, ◌<◌, ◌≡◌, refl, sym, ap, ◌∙◌, some, List, [], ◌∷◌, ◌++◌, All, length,
  arith, length-append,
}
use lsm_tree_go.Common.Crc.{checksum_nil}
use lsm_tree_go.Common.Keys.{Bytes}
use lsm_tree_go.Common.Map.{has_key}
use lsm_tree_go.Common.Outcome.{ok}
use lsm_tree_go.Common.Ensures.{Ensures-ok}
use lsm_tree_go.MemTable.{Entry}
use lsm_tree_go.MemTable.Sorted.{IsSorted, entry_keys}
use lsm_tree_go.SparseIndex
use lsm_tree_go.SparseIndex.{SparseIndex, IndexEntry}
use lsm_tree_go.Bloom
use lsm_tree_go.Bloom.{Filter}
use lsm_tree_go.Bloom.Power.{new-IsValid}
use lsm_tree_go.Bloom.Shape.{IsShaped, new-IsShaped}
use lsm_tree_go.SsTable.Writer
use lsm_tree_go.SsTable.Writer.{
  Os, Writer, index_block, bloom_block, footer_size, initial_mmap_size,
}
use lsm_tree_go.SsTable.Writer.Appends.{
  IsUp, Has, append_all, append_all-Has, table_bytes, expected_index,
}
use lsm_tree_go.SsTable.Writer.Closed.{file_bytes, table_footer, length-footer, close-file_bytes}
use lsm_tree_go.SsTable.Writer.Shape.{HasShape, append_all-HasShape}
use lsm_tree_go.SsTable.Writer.Sizes.{
  IsSmall, IsSmall-IsGoEntry, entries_size, length-table_bytes-le, length-le-entries_size,
  length-expected_index-le, IsBelowTop, expected_index-IsBelowTop, length-index_block-le,
  length-bloom_block-le,
}
use lsm_tree_go.SsTable.Reader.Blocks.{IsGoIndexEntry}
use lsm_tree_go.SsTable.Reader.Opened.{IsStorable}
use lsm_tree_go.SsTable.Reader.Lookup.{IsWritten}
use lsm_tree_go.Lsm.Flush.{write_table}

-- Entries in the order of a file, few and short enough for the first mapping of a writer.
pub record IsBatch (es : List Entry) : Type 0 where
  pub sorted : IsSorted es
  pub small : All IsSmall es
  pub some_entries : 0 < length es
  pub fits : entries_size es ≤ 9 * 2 ^ 19

module _ (os : Os) (up : IsUp os) (path : Bytes) (es : List Entry) (b : IsBatch es) where
  count_small : length es ≤ 294912
  count_small = omega (arith, b.fits, length-le-entries_size es)

  -- The writer that CreateWriter makes.
  abbrev created : Writer
  created = record {
    mapped = [];
    mmap_cap = initial_mmap_size;
    path = path;
    count = 0;
    byte_pos = 0;
    sparse_index = SparseIndex.new 128;
    bloom_filter = some (Bloom.new (length es) 10);
    data_crc = 0;
  }

  created-eq : Writer.create_writer os path (length es) 128 ≡ ok created
  unfolding Writer.create_writer
  created-eq =
      rw (up.mkdir, up.create, up.truncate initial_mmap_size, up.mmap initial_mmap_size) refl

  created-Has : Has created []
  unfolding table_bytes expected_index has_key entry_keys
  created-Has = record {
    bytes = refl;
    position = refl;
    counted = refl;
    room = omega arith;
    capacity = omega arith;
    index = unfold SparseIndex.new in refl;
    crc = sym checksum_nil;
    filter = Bloom.new (length es) 10;
    filtered = refl;
    filter_valid =
        new-IsValid (length es) 10 b.some_entries (omega arith)
          (let n = count_small in omega arith);
    members = λ k h. cc;
  }

  -- The writer once all entries are in it.
  record Filled : Type 0 where
    w : Writer
    done : append_all os es created ≡ ok w
    has : Has w es
    step : w.sparse_index.step ≡ 128
    words : All (λ x. x < 2 ^ 64) has.filter.bits
    bits : has.filter.num_bits ≤ 20 * length es + 64
    hashes : has.filter.num_hash ≤ 85
    mapping : initial_mmap_size ≤ w.mmap_cap

  filled : Filled
  filled =
      let (n, h, shaped, bits, hashes) =
        new-IsShaped (length es) b.some_entries (let n = count_small in omega arith) in
      let (w, done, has, step) = append_all-Has os up es [] created created-Has in
      let first : HasShape n h created = record {
        filter = Bloom.new (length es) 10;
        filtered = refl;
        shaped = shaped;
        mapping = omega arith;
      } in
      let last =
        Ensures-ok (HasShape n h) (append_all os es created) w done
          (append_all-HasShape n h os es created first) in
      let same : last.filter ≡ has.filter = let p = last.filtered in let q = has.filtered in cc in
      let s : IsShaped n h has.filter = rw same at last.shaped in
      record {
        w = w;
        done = done;
        has = has;
        step = unfold SparseIndex.new in step;
        words = s.words;
        bits = omega (arith, s.bits);
        hashes = omega (arith, s.hashes);
        mapping = last.mapping;
      }

  module _ (r : Filled) where
    abbrev index_of : SparseIndex
    index_of = r.w.sparse_index

    indexed : index_of.entries ≡ expected_index 128 0 0 es
    indexed = r.has.index ∙ ap (λ s. expected_index s 0 0 es) r.step

    records-le : length (table_bytes es) ≤ 5898240
    records-le = omega (arith, length-table_bytes-le es b.small, b.fits)

    entries-IsBelowTop : All (IsBelowTop (2 ^ 23)) index_of.entries
    entries-IsBelowTop =
        rw indexed
          (expected_index-IsBelowTop 0 0 (2 ^ 23) es b.small (let n = records-le in omega arith))

    length-index-le : length index_of.entries ≤ 2305
    length-index-le =
        rw indexed (let n = count_small in omega (arith, length-expected_index-le 0 0 es))

    closing_room :
        r.w.byte_pos
          + (length (index_block index_of) + length (bloom_block r.w.bloom_filter) + footer_size)
        ≤ r.w.mmap_cap
    closing_room = rw r.has.filtered (
        let n = count_small in
        let t = records-le in
        let i = length-index-le in
        omega (
          arith,
          r.has.position,
          r.mapping,
          length-index_block-le index_of entries-IsBelowTop,
          length-bloom_block-le r.has.filter r.has.filter_valid,
          r.bits,
        ))

    go_index : (is : List IndexEntry) → All (IsBelowTop (2 ^ 23)) is → All IsGoIndexEntry is
    go_index [] h = tt
    go_index (i ∷ is) h = ((omega arith, omega arith), go_index is h.1)

    file-short : length (file_bytes es index_of (some r.has.filter)) < 2 ^ 63
    file-short =
        let n = count_small in
        let t = records-le in
        let i = length-index-le in
        unfold file_bytes table_footer in
        omega (
          arith,
          length-append (table_bytes es) (
              index_block index_of
              ++ (bloom_block (some r.has.filter) ++ table_footer es index_of)),
          length-append (index_block index_of)
              (bloom_block (some r.has.filter) ++ table_footer es index_of),
          length-append (bloom_block (some r.has.filter)) (table_footer es index_of),
          length-footer _ _ _,
          length-index_block-le index_of entries-IsBelowTop,
          length-bloom_block-le r.has.filter r.has.filter_valid,
          r.bits,
        )

    table-IsStorable : IsStorable es index_of r.has.filter
    table-IsStorable = record {
      fits = file-short;
      step_pos = omega (arith, r.step);
      step_small = omega (arith, r.step);
      count_small = let i = length-index-le in omega arith;
      entries_small = go_index index_of.entries entries-IsBelowTop;
      filter_valid = r.has.filter_valid;
      words_small = r.words;
      hashes_small = omega (arith, r.hashes);
    }

    table-IsWritten : IsWritten es index_of r.has.filter
    table-IsWritten = record {
      sorted = b.sorted;
      entries = IsSmall-IsGoEntry es b.small;
      index = r.has.index;
      filter_valid = r.has.filter_valid;
      members = r.has.members;
    }

  pub write_table-file_bytes :
      (si : SparseIndex) × (f : Filter) × (size : ℕ) × (write_table os path es
        ≡ ok (file_bytes es si (some f), size))
      × IsStorable es si f
      × IsWritten es si f
  write_table-file_bytes =
      let r = filled in
      let (closed, e) = close-file_bytes os up es r.w r.has (closing_room r) in
      let written : Writer.close os r.w
          ≡ ok (file_bytes es (index_of r) (some r.has.filter), closed) =
        rw r.has.filtered at e in
      (
        index_of r,
        r.has.filter,
        Writer.info closed,
        (unfold write_table in rw (created-eq, r.done, written) refl),
        table-IsStorable r,
        table-IsWritten r,
      )
