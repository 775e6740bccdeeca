-- ===== src/SsTable/Reader/Opened.antt =====
-- `Open` and `OpenNoVerify` of a file that the writer closed.
use lsm_tree_go.Common.{
  ℕ, ◌+◌, ◌-◌, ◌^◌, ◌<◌, ◌≡◌, refl, sym, ap, ◌∙◌, true, false, some, List, [], ◌++◌, length, All,
  take, drop, ltb, arith, length-append, drop-append_at, take-append_at, drop-append, take-append,
  take_of_length-le,
}
use mathlib.Core.List.{append-nil, append_assoc}
use lsm_tree_go.Common.Keys.{Bytes, key_eq, key_eq_refl}
use lsm_tree_go.Common.Crc.{checksum, checksum-lt}
use lsm_tree_go.Common.Varint.{
  little_endian, read_little_endian, read_little_endian-little_endian, length-little_endian,
}
use lsm_tree_go.Common.Outcome.{Outcome, ok}
use lsm_tree_go.MemTable.{Entry}
use lsm_tree_go.SparseIndex.{SparseIndex}
use lsm_tree_go.Bloom.{Filter}
use lsm_tree_go.Bloom.Members
use lsm_tree_go.SsTable.Writer.{Os, index_block, bloom_block, footer, footer_size, magic_number}
use lsm_tree_go.SsTable.Writer.Appends.{table_bytes, IsUp}
use lsm_tree_go.SsTable.Writer.Closed.{file_bytes, table_footer, length-footer}
use lsm_tree_go.SsTable.Reader.{
  SsTable, slice, open_blocks, open_with, verify, open_table, open_no_verify, parse_index_block,
}
use lsm_tree_go.SsTable.Reader.Blocks.{
  IsGoIndexEntry, parse_index_block-index_block, parse_bloom_block-bloom_block,
}

-- A slice of the middle of three parts, of the first, and of the last.
pub slice_middle : (a b c : Bytes) → slice (length a) (length a + length b) (a ++ (b ++ c)) ≡ ok b
unfolding slice
slice_middle a b c =
    let n : length a + length b - length a ≡ length b = omega arith in
    rw (drop-append a (b ++ c), n, take-append b c)
      (ground (arith, length-append a (b ++ c), length-append b c))

pub slice_front : (a b : Bytes) → slice 0 (length a) (a ++ b) ≡ ok a
unfolding slice drop
slice_front a b =
    let n : length a - 0 ≡ length a = omega arith in
    rw (n, take-append a b) (ground (arith, length-append a b))

pub slice_back : (a b : Bytes) → slice (length a) (length (a ++ b)) (a ++ b) ≡ ok b
unfolding slice
slice_back a b =
    let n : length (a ++ b) - length a ≡ length b = omega (arith, length-append a b) in
    rw (n, drop-append a b, take_of_length-le (length b) b (omega arith))
      (ground (arith, length-append a b))

pub slice_rest : (n : ℕ) (d a b : Bytes) → n ≡ length a → d ≡ a ++ b → slice n (length d) d ≡ ok b
slice_rest n d a b e p = rw (e, p) (slice_back a b)

module _ (a b c : ℕ) where
  footer_index : a < 2 ^ 64 → read_little_endian 8 (footer a b c) ≡ some a
  footer_index h =
      unfold footer in
      read_little_endian-little_endian 8 a
        (little_endian 8 b ++ (little_endian 4 c ++ magic_number)) (omega arith)

  footer-drop8 : drop 8 (footer a b c) ≡ little_endian 8 b ++ (little_endian 4 c ++ magic_number)
  footer-drop8 =
      unfold footer in
      drop-append_at 8 (little_endian 8 a)
        (little_endian 8 b ++ (little_endian 4 c ++ magic_number)) (sym (length-little_endian 8 a))

  footer-drop16 : drop 16 (footer a b c) ≡ little_endian 4 c ++ magic_number
  footer-drop16 =
      unfold footer in
      rw
        (← append_assoc (little_endian 8 a) (little_endian 8 b) (little_endian 4 c ++ magic_number))
        (drop-append_at 16 (little_endian 8 a ++ little_endian 8 b)
          (little_endian 4 c ++ magic_number)
          (omega (
            arith,
            length-append (little_endian 8 a) (little_endian 8 b),
            length-little_endian 8 a,
            length-little_endian 8 b,
          )))

  footer-drop20 : drop 20 (footer a b c) ≡ magic_number
  footer-drop20 =
      unfold footer in
      rw
        (
          ← append_assoc (little_endian 8 a) (little_endian 8 b)
              (little_endian 4 c ++ magic_number),
          ← append_assoc (little_endian 8 a ++ little_endian 8 b) (little_endian 4 c) magic_number,
        )
        (drop-append_at 20 (little_endian 8 a ++ little_endian 8 b ++ little_endian 4 c)
          magic_number
          (omega (
            arith,
            length-append (little_endian 8 a ++ little_endian 8 b) (little_endian 4 c),
            length-append (little_endian 8 a) (little_endian 8 b),
            length-little_endian 8 a,
            length-little_endian 8 b,
            length-little_endian 4 c,
          )))

  footer_bloom : b < 2 ^ 64 → read_little_endian 8 (drop 8 (footer a b c)) ≡ some b
  footer_bloom h =
      rw footer-drop8
        (read_little_endian-little_endian 8 b (little_endian 4 c ++ magic_number) (omega arith))

  footer_crc : c < 2 ^ 32 → read_little_endian 4 (drop 16 (footer a b c)) ≡ some c
  footer_crc h = rw footer-drop16 (read_little_endian-little_endian 4 c magic_number (omega arith))

  footer_magic : key_eq (take 4 (drop 20 (footer a b c))) magic_number ≡ true
  unfolding take
  footer_magic = rw footer-drop20 (key_eq_refl magic_number)

module _ (es : List Entry) (si : SparseIndex) (f : Filter) where
  -- What the reader relies on: numbers that fit their fields, and a valid filter.
  pub record IsStorable : Type 0 where
    pub fits : length (file_bytes es si (some f)) < 2 ^ 63
    pub step_pos : 0 < si.step
    pub step_small : si.step < 2 ^ 63
    pub count_small : length si.entries < 2 ^ 64
    pub entries_small : All IsGoIndexEntry si.entries
    pub filter_valid : Members.IsValid f
    pub words_small : All (λ w. w < 2 ^ 64) f.bits
    pub hashes_small : f.num_hash < 2 ^ 64

  -- The table that a reader gets.
  abbrev pub table : Bytes → SsTable
  table path = record {
    path = path;
    sparse_index = si;
    bloom_filter = some f;
    contents = file_bytes es si (some f);
    is_mapped = true;
    data_size = length (table_bytes es);
  }

  module _ (s : IsStorable) where
    open_blocks-table :
        (path : Bytes)
        → open_blocks path
            (file_bytes es si (some f))
            (length (table_bytes es))
            (length (table_bytes es) + length (index_block si))
            footer_size
          ≡ ok (table path)
    unfolding open_blocks
    open_blocks-table path = rw (
      index_slice,
      index_back,
      filter_slice,
      filter_taken,
      parse_bloom_block-bloom_block f s.filter_valid s.words_small s.hashes_small,
    )
      where
        tb : Bytes
        tb = table_bytes es

        ib : Bytes
        ib = index_block si

        behind : Bytes
        behind = bloom_block (some f) ++ table_footer es si

        whole : file_bytes es si (some f) ≡ tb ++ (ib ++ behind)
        whole = unfold file_bytes in refl

        index_slice : slice (length tb) (length tb + length ib) (file_bytes es si (some f)) ≡ ok ib
        index_slice = rw whole (slice_middle tb ib behind)

        index_back : parse_index_block ib ≡ ok si
        index_back = rw append-nil at (
            parse_index_block-index_block si [] s.step_pos s.step_small s.count_small
              s.entries_small)

        filter_slice :
            slice
              (length tb + length ib)
              (length (file_bytes es si (some f)))
              (file_bytes es si (some f))
            ≡ ok behind
        filter_slice =
            slice_rest (length tb + length ib) (file_bytes es si (some f)) (tb ++ ib) behind
              (sym (length-append tb ib)) (whole ∙ sym (append_assoc tb ib behind))

        length_of_footer : length (table_footer es si) ≡ footer_size
        length_of_footer = unfold table_footer in length-footer _ _ _

        filter_taken :
            take (length (file_bytes es si (some f)) - (length tb + length ib) - footer_size) behind
            ≡ bloom_block (some f)
        filter_taken = take-append_at _ (bloom_block (some f)) (table_footer es si) (
            omega (
              arith,
              ap length whole,
              length-append tb (ib ++ behind),
              length-append ib behind,
              length-append (bloom_block (some f)) (table_footer es si),
              length_of_footer,
            ))

    footer_buf :
        drop (length (file_bytes es si (some f)) - footer_size) (file_bytes es si (some f))
        ≡ table_footer es si
    footer_buf = rw front (
        drop-append_at _ (table_bytes es ++ (index_block si ++ bloom_block (some f)))
          (table_footer es si)
          (omega (
            arith,
            length-append (table_bytes es ++ (index_block si ++ bloom_block (some f)))
                (table_footer es si),
            footer_length,
          )))
      where
        front :
            file_bytes es si (some f)
            ≡ (table_bytes es ++ (index_block si ++ bloom_block (some f))) ++ table_footer es si
        front = unfold file_bytes in simp append_assoc

        footer_length : length (table_footer es si) ≡ footer_size
        footer_length = unfold table_footer in length-footer _ _ _

    verify-file :
        verify (file_bytes es si (some f)) (length (table_bytes es)) (checksum (table_bytes es))
        ≡ ok tt
    unfolding verify file_bytes
    verify-file =
        rw
          (slice_front (table_bytes es)
            (index_block si ++ (bloom_block (some f) ++ table_footer es si)))
          (ground arith)

    total :
        length (file_bytes es si (some f))
        ≡ length (table_bytes es)
          + length (index_block si)
          + length (bloom_block (some f))
          + footer_size
    total =
        unfold file_bytes table_footer in
        omega (
          arith,
          length-append (table_bytes es) (
              index_block si
              ++ (bloom_block (some f)
                  ++ footer (length (table_bytes es))
                      (length (table_bytes es) + length (index_block si))
                      (checksum (table_bytes es)))),
          length-append (index_block si) (
              bloom_block (some f)
              ++ footer (length (table_bytes es))
                  (length (table_bytes es) + length (index_block si)) (checksum (table_bytes es))),
          length-append (bloom_block (some f)) (
              footer (length (table_bytes es)) (length (table_bytes es) + length (index_block si))
                (checksum (table_bytes es))),
          length-footer (length (table_bytes es))
              (length (table_bytes es) + length (index_block si)) (checksum (table_bytes es)),
        )

    long_enough : ltb (length (file_bytes es si (some f))) footer_size ≡ false
    long_enough = ground (arith, total)

    open_with-table :
        (check : Bytes → ℕ → ℕ → Outcome (Unit {0})) (os : Os) (path : Bytes)
        → IsUp os
        → check (file_bytes es si (some f)) (length (table_bytes es)) (checksum (table_bytes es))
          ≡ ok tt
        → open_with check os path (file_bytes es si (some f)) ≡ ok (table path)
    unfolding open_with table_footer
    open_with-table check os path up passes =
        let io = length (table_bytes es) in
        let bo = length (table_bytes es) + length (index_block si) in
        let crc = checksum (table_bytes es) in
        let size = total in
        rw (
          up.opened,
          long_enough,
          up.mmap (length (file_bytes es si (some f))),
          footer_buf,
          footer_index io bo crc (omega (arith, s.fits)),
          footer_bloom io bo crc (omega (arith, s.fits)),
          footer_crc io bo crc (checksum-lt (table_bytes es)),
          footer_magic io bo crc,
          passes,
          open_blocks-table path,
        )

    -- Where the system calls succeed and the numbers fit their fields, a closed file opens, with its checksum
    -- verified, as the table with its index and its filter.
    pub open_table-table :
        (os : Os) (path : Bytes)
        → IsUp os
        → open_table os path (file_bytes es si (some f)) ≡ ok (table path)
    open_table-table os path up = unfold open_table in open_with-table verify os path up verify-file

    -- Under the same conditions `OpenNoVerify` gives the same table.
    pub open_no_verify-table :
        (os : Os) (path : Bytes)
        → IsUp os
        → open_no_verify os path (file_bytes es si (some f)) ≡ ok (table path)
    open_no_verify-table os path up =
        unfold open_no_verify in open_with-table (λ _ _ _. ok tt) os path up refl
