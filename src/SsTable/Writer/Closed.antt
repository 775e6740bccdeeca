-- ===== src/SsTable/Writer/Closed.antt =====
-- `Close`: the finished file, when the blocks fit the mapping that is there.
use lsm_tree_go.Common.{
  ℕ, ◌+◌, ◌-◌, ◌≤◌, ◌≡◌, ap, Option, List, ◌++◌, length, replicate, arith, length-append,
}
use mathlib.Core.List.{append-nil, append_assoc}
use lsm_tree_go.Common.Keys.{Bytes}
use lsm_tree_go.Common.Crc.{checksum}
use lsm_tree_go.Common.Varint.{length-little_endian, little_endian}
use lsm_tree_go.Common.Outcome.{ok}
use lsm_tree_go.MemTable.{Entry}
use lsm_tree_go.SparseIndex.{SparseIndex}
use lsm_tree_go.Bloom.{Filter}
use lsm_tree_go.SsTable.Writer.{
  Os, Writer, index_block, bloom_block, footer, footer_size, magic_number, close,
}
use lsm_tree_go.SsTable.Writer.Appends.{table_bytes, IsUp, Has, copy_in_fits}

pub length-footer : (a b c : ℕ) → length (footer a b c) ≡ footer_size
unfolding footer
length-footer a b c = omega (
  arith,
  length-append (little_endian 8 a) (little_endian 8 b ++ (little_endian 4 c ++ magic_number)),
  length-append (little_endian 8 b) (little_endian 4 c ++ magic_number),
  length-append (little_endian 4 c) magic_number,
  length-little_endian 8 a,
  length-little_endian 8 b,
  length-little_endian 4 c,
)

-- The footer of a table with these entries, index and filter.
unfoldable pub table_footer : List Entry → SparseIndex → Bytes
table_footer es si =
    footer (length (table_bytes es)) (length (table_bytes es) + length (index_block si))
      (checksum (table_bytes es))

-- The whole file: records, index, filter, footer.
unfoldable pub file_bytes : List Entry → SparseIndex → Option Filter → Bytes
file_bytes es si bf = table_bytes es ++ (index_block si ++ (bloom_block bf ++ table_footer es si))

module _ (os : Os) (up : IsUp os) (es : List Entry) (w : Writer) (h : Has w es) where
  -- What `Close` still has to copy.
  abbrev pub closing_size : ℕ
  closing_size =
      length (index_block w.sparse_index) + length (bloom_block w.bloom_filter) + footer_size

  -- With room for the blocks in the mapping, and system calls that succeed, `Close` succeeds and leaves exactly the records, the index,
  -- the filter and the footer.
  pub close-file_bytes :
      w.byte_pos + closing_size ≤ w.mmap_cap
      → (w' : Writer) × (close os w ≡ ok (file_bytes es w.sparse_index w.bloom_filter, w'))
  unfolding close file_bytes table_footer
  close-file_bytes room =
      let ib = index_block w.sparse_index in
      let bb = bloom_block w.bloom_filter in
      let ft = footer w.byte_pos (w.byte_pos + length ib) w.data_crc in
      let n = length-footer w.byte_pos (w.byte_pos + length ib) w.data_crc in
      let one = record w { mapped = w.mapped ++ ib; byte_pos = w.byte_pos + length ib } in
      let two = record one { mapped = one.mapped ++ bb; byte_pos = one.byte_pos + length bb } in
      let three = record two { mapped = two.mapped ++ ft; byte_pos = two.byte_pos + length ft } in
      (
        three,
        rw
            (
              copy_in_fits ib w (omega arith),
              copy_in_fits bb one (omega arith),
              copy_in_fits ft two (omega arith),
              up.truncate three.byte_pos,
              up.sync,
            )
            (ap (λ (b : Bytes). ok (b, three)) contents),
      )
    where
      ib : Bytes
      ib = index_block w.sparse_index

      bb : Bytes
      bb = bloom_block w.bloom_filter

      ft : Bytes
      ft = footer w.byte_pos (w.byte_pos + length ib) w.data_crc

      contents :
          w.mapped
            ++ ib
            ++ bb
            ++ ft
            ++ replicate
                (w.byte_pos
                  + length ib
                  + length bb
                  + length ft
                  - length (w.mapped ++ ib ++ bb ++ ft))
                0
          ≡ file_bytes es w.sparse_index w.bloom_filter
      contents =
          let pad : w.byte_pos
                + length ib
                + length bb
                + length ft
                - length (w.mapped ++ ib ++ bb ++ ft)
              ≡ 0 =
            omega (
              arith,
              h.position,
              ap length h.bytes,
              length-append w.mapped ib,
              length-append (w.mapped ++ ib) bb,
              length-append (w.mapped ++ ib ++ bb) ft,
            ) in
          rw (pad, append-nil, h.crc, h.position, h.bytes) (simp append_assoc)
