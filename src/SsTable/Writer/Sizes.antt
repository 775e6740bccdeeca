-- ===== src/SsTable/Writer/Sizes.antt =====
-- How long a table file is.
use lsm_tree_go.Common.{
  ℕ, suc, ◌+◌, ◌*◌, ◌%◌, ◌^◌, ◌≤◌, ◌<◌, ◌≡◌, some, List, [], ◌∷◌, ◌++◌, All, length, ◌==◌, arith,
  length-append, Bool-cases, inl, inr,
}
use lsm_tree_go.Common.Int.{IsInt64}
use lsm_tree_go.Common.Keys.{Bytes}
use lsm_tree_go.Common.Crc.{checksum}
use lsm_tree_go.Common.Varint.{
  uvarint_bytes, varint_bytes, zigzag, little_endian, length-uvarint_bytes, length-uvarint_bytes-le,
  length-little_endian,
}
use lsm_tree_go.MemTable.{Entry, entry_size}
use lsm_tree_go.SparseIndex.{SparseIndex, IndexEntry}
use lsm_tree_go.Bloom
use lsm_tree_go.Bloom.{Filter, word_bytes}
use lsm_tree_go.Bloom.Members
use lsm_tree_go.SsTable.{entry_bytes, entry_body, string_bytes, tombstone_byte}
use lsm_tree_go.SsTable.Codec.{IsGoEntry}
use lsm_tree_go.SsTable.Writer.{index_block, index_entry_bytes, bloom_block}
use lsm_tree_go.SsTable.Writer.Appends.{table_bytes, expected_index}

-- A key of 512 bytes at most, a value below two megabytes, and an int64 timestamp.
abbrev pub IsSmall : Entry → Type 0
IsSmall e = (length e.key ≤ 512) × (length e.value < 2 ^ 21) × IsInt64 e.timestamp

pub IsSmall-IsGoEntry : (es : List Entry) → All IsSmall es → All IsGoEntry es
IsSmall-IsGoEntry [] h = tt
IsSmall-IsGoEntry (e ∷ es) h = ((omega arith, omega arith, h.0.2), IsSmall-IsGoEntry es h.1)

-- What the entries count for in a memtable.
unfoldable pub entries_size : List Entry → ℕ
entries_size [] = 0
entries_size (e ∷ es) = entry_size e + entries_size es

length-string_bytes :
    (j : ℕ) (s : Bytes) → length s < 128 ^ suc j → length (string_bytes s) ≤ suc j + length s
unfolding string_bytes
length-string_bytes j s h =
    omega
      (arith, length-append (uvarint_bytes (length s)) s, length-uvarint_bytes-le j (length s) h)

length-entry_bytes-le :
    (e : Entry) → IsSmall e → length (entry_bytes e) ≤ length e.key + length e.value + 20
unfolding entry_bytes entry_body varint_bytes
length-entry_bytes-le e h =
    let time = uvarint_bytes (zigzag e.timestamp) in
    let mark = tombstone_byte e.tombstone ∷ [] in
    omega (
      arith,
      h.0,
      h.1,
      length-append (entry_body e) (little_endian 4 (checksum (entry_body e))),
      length-little_endian 4 (checksum (entry_body e)),
      length-append (string_bytes e.key) (string_bytes e.value ++ (time ++ mark)),
      length-append (string_bytes e.value) (time ++ mark),
      length-append time mark,
      length-uvarint_bytes (zigzag e.timestamp),
      length-string_bytes 1 e.key (omega arith),
      length-string_bytes 2 e.value (omega arith),
    )

pub length-table_bytes-le :
    (es : List Entry) → All IsSmall es → 16 * length (table_bytes es) ≤ 20 * entries_size es
unfolding table_bytes entries_size
length-table_bytes-le [] h = omega arith
length-table_bytes-le (e ∷ es) h = omega (
  arith,
  length-table_bytes-le es h.1,
  length-append (entry_bytes e) (table_bytes es),
  length-entry_bytes-le e h.0,
)

pub length-le-entries_size : (es : List Entry) → 16 * length es ≤ entries_size es
unfolding entries_size
length-le-entries_size [] = omega arith
length-le-entries_size (e ∷ es) = omega (arith, length-le-entries_size es)

-- Every 128th entry is in the index.
pub length-expected_index-le :
    (count pos : ℕ) (es : List Entry)
    → 128 * length (expected_index 128 count pos es) ≤ length es + (count + 127) % 128
unfolding expected_index
length-expected_index-le count pos [] = omega arith
length-expected_index-le count pos (e ∷ es) =
    ground (arith, length-expected_index-le (count + 1) (pos + length (entry_bytes e)) es)

-- An index entry with a key of 512 bytes at most and an offset below `top`.
abbrev pub IsBelowTop : ℕ → IndexEntry → Type 0
IsBelowTop top e = (length e.key ≤ 512) × (e.offset ≤ top)

pub expected_index-IsBelowTop :
    (count pos top : ℕ) (es : List Entry)
    → All IsSmall es
    → pos + length (table_bytes es) ≤ top
    → All (IsBelowTop top) (expected_index 128 count pos es)
unfolding expected_index table_bytes
expected_index-IsBelowTop count pos top [] h p = tt
expected_index-IsBelowTop count pos top (e ∷ es) h p =
    let n = length-append (entry_bytes e) (table_bytes es) in
    let rest =
      expected_index-IsBelowTop (count + 1) (pos + length (entry_bytes e)) top es h.1
        (omega arith) in
    elim (Bool-cases (count % 128 == 0)) [
      | inl due ↦ rw due ((h.0.0, omega arith), rest)
      | inr early ↦ rw early rest
    ]

length-index_entry_bytes-le :
    (es : List IndexEntry)
    → All (IsBelowTop (2 ^ 23)) es
    → length (index_entry_bytes es) ≤ 518 * length es
unfolding index_entry_bytes
length-index_entry_bytes-le [] h = omega arith
length-index_entry_bytes-le (e ∷ es) h = omega (
  arith,
  h.0.0,
  length-index_entry_bytes-le es h.1,
  length-append (string_bytes e.key) (uvarint_bytes e.offset ++ index_entry_bytes es),
  length-append (uvarint_bytes e.offset) (index_entry_bytes es),
  length-string_bytes 1 e.key (omega arith),
  length-uvarint_bytes-le 3 e.offset (omega arith),
)

pub length-index_block-le :
    (si : SparseIndex)
    → All (IsBelowTop (2 ^ 23)) si.entries
    → length (index_block si) ≤ 20 + 518 * length si.entries
unfolding index_block
length-index_block-le si h = omega (
  arith,
  length-append (uvarint_bytes si.step)
      (uvarint_bytes (length si.entries) ++ index_entry_bytes si.entries),
  length-append (uvarint_bytes (length si.entries)) (index_entry_bytes si.entries),
  length-uvarint_bytes si.step,
  length-uvarint_bytes (length si.entries),
  length-index_entry_bytes-le si.entries h,
)

length-word_bytes : (ws : List ℕ) → length (word_bytes ws) ≡ 8 * length ws
unfolding word_bytes
length-word_bytes [] = omega arith
length-word_bytes (w ∷ ws) = omega (
  arith,
  length-append (little_endian 8 w) (word_bytes ws),
  length-little_endian 8 w,
  length-word_bytes ws,
)

pub length-bloom_block-le :
    (f : Filter) → Members.IsValid f → 8 * length (bloom_block (some f)) ≤ 160 + f.num_bits
unfolding bloom_block Bloom.serialize
length-bloom_block-le f v = omega (
  arith,
  v.words,
  length-append (uvarint_bytes f.num_bits) (uvarint_bytes f.num_hash ++ word_bytes f.bits),
  length-append (uvarint_bytes f.num_hash) (word_bytes f.bits),
  length-uvarint_bytes f.num_bits,
  length-uvarint_bytes f.num_hash,
  length-word_bytes f.bits,
)
