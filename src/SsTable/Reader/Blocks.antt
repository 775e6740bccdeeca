-- ===== src/SsTable/Reader/Blocks.antt =====
-- The index and filter blocks are read back as they were written.
use lsm_tree_go.Common.{
  ℕ, suc, ◌^◌, ◌≤◌, ◌<◌, ◌≡◌, refl, ◌∙◌, some, List, [], ◌∷◌, ◌++◌, length, All, arith,
  length-append,
}
use mathlib.Core.List.{append-nil, append_assoc}
use lsm_tree_go.Common.Keys.{Bytes}
use lsm_tree_go.Common.Varint.{uvarint_bytes, uvarint-uvarint_bytes, length-uvarint_bytes}
use lsm_tree_go.Common.Outcome.{ok}
use lsm_tree_go.SparseIndex
use lsm_tree_go.SparseIndex.{SparseIndex, IndexEntry}
use lsm_tree_go.Bloom
use lsm_tree_go.Bloom.{Filter, serialize, deserialize}
use lsm_tree_go.Bloom.Members
use lsm_tree_go.Bloom.Stored.{deserialize-serialize}
use lsm_tree_go.SsTable.{string_bytes}
use lsm_tree_go.SsTable.Codec.{read_string-string_bytes}
use lsm_tree_go.SsTable.Writer.{index_entry_bytes, index_block, bloom_block}
use lsm_tree_go.SsTable.Reader.{int_step, read_index, parse_index_block, parse_bloom_block}

-- Lengths and offsets are ints.
abbrev pub IsGoIndexEntry : IndexEntry → Type 0
IsGoIndexEntry e = (length e.key < 2 ^ 63) × (e.offset < 2 ^ 63)

read_index_step :
    (n : ℕ) (e : IndexEntry) (rest : Bytes) (si : SparseIndex)
    → IsGoIndexEntry e
    → read_index (suc n) (string_bytes e.key ++ (uvarint_bytes e.offset ++ rest)) si
      ≡ read_index n rest (record si { entries = si.entries ++ e ∷ [] })
unfolding read_index SparseIndex.add
read_index_step n e rest si h = rw (
  read_string-string_bytes e.key (uvarint_bytes e.offset ++ rest) h.0,
  uvarint-uvarint_bytes e.offset rest (omega arith),
)

read_index-index_entry_bytes :
    (es before : List IndexEntry) (step : ℕ) (rest : Bytes)
    → All IsGoIndexEntry es
    → read_index
        (length es)
        (index_entry_bytes es ++ rest)
        (record { entries = before; step = step })
      ≡ ok (record { entries = before ++ es; step = step })
unfolding index_entry_bytes
read_index-index_entry_bytes [] before step rest h = unfold read_index in rw append-nil
read_index-index_entry_bytes (e ∷ es) before step rest h =
    let at_front : index_entry_bytes (e ∷ es) ++ rest
        ≡ string_bytes e.key ++ (uvarint_bytes e.offset ++ (index_entry_bytes es ++ rest)) =
      simp append_assoc in
    rw at_front (
      read_index_step (length es) e (index_entry_bytes es ++ rest)
        (record { entries = before; step = step }) h.0)
    ∙ read_index-index_entry_bytes es (before ++ e ∷ []) step rest h.1
    ∙ rw (append_assoc before (e ∷ []) es)

same_step :
    (n : ℕ) → 0 < n → n < 2 ^ 63 → SparseIndex.new (int_step n) ≡ record { entries = []; step = n }
unfolding SparseIndex.new
same_step n p h = ground arith

-- The index block of an index with a positive step is read back, whatever stands behind it.
pub parse_index_block-index_block :
    (si : SparseIndex) (rest : Bytes)
    → 0 < si.step
    → si.step < 2 ^ 63
    → length si.entries < 2 ^ 64
    → All IsGoIndexEntry si.entries
    → parse_index_block (index_block si ++ rest) ≡ ok si
unfolding parse_index_block index_block
parse_index_block-index_block si rest pos small count h =
    rw
      (
        append_assoc (uvarint_bytes si.step)
            (uvarint_bytes (length si.entries) ++ index_entry_bytes si.entries) rest,
        uvarint-uvarint_bytes si.step
            ((uvarint_bytes (length si.entries) ++ index_entry_bytes si.entries) ++ rest)
            (omega arith),
        append_assoc (uvarint_bytes (length si.entries)) (index_entry_bytes si.entries) rest,
        uvarint-uvarint_bytes (length si.entries) (index_entry_bytes si.entries ++ rest) count,
        same_step si.step pos small,
      )
      (read_index-index_entry_bytes si.entries [] si.step rest h)

parse_long : (buf : Bytes) → 2 ≤ length buf → parse_bloom_block buf ≡ deserialize buf
unfolding parse_bloom_block
parse_long [] h = absurd (omega arith)
parse_long (b ∷ []) h = absurd (omega arith)
parse_long (b ∷ c ∷ buf) h = refl

-- The filter block of a valid filter is read back.
pub parse_bloom_block-bloom_block :
    (f : Filter)
    → Members.IsValid f
    → All (λ w. w < 2 ^ 64) f.bits
    → f.num_hash < 2 ^ 64
    → parse_bloom_block (bloom_block (some f)) ≡ some f
unfolding bloom_block
parse_bloom_block-bloom_block f v words hashes =
    parse_long (serialize f) long ∙ rw append-nil at (deserialize-serialize f [] v words hashes)
  where
    long : 2 ≤ length (serialize f)
    long =
        unfold serialize in
        omega (
          arith,
          length-append (uvarint_bytes f.num_bits)
              (uvarint_bytes f.num_hash ++ Bloom.word_bytes f.bits),
          length-append (uvarint_bytes f.num_hash) (Bloom.word_bytes f.bits),
          length-uvarint_bytes f.num_bits,
          length-uvarint_bytes f.num_hash,
        )
