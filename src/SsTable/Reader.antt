-- ===== src/SsTable/Reader.antt =====
-- The table reader: `Open`, `OpenNoVerify`, `openV1`, the point lookup and the iterator. A slice out of
-- range panics.
pub mod Blocks
pub mod Offsets
pub mod Opened
pub mod Lookup
pub mod Scan
use lsm_tree_go.Common.{
  ℕ, zero, suc, ◌+◌, ◌-◌, ◌*◌, ◌^◌, Bool, true, false, not, ◌&&◌, Option, none, some, List, [], ◌∷◌,
  ◌++◌, length, take, drop, get_elem?, leb, ltb, ◌==◌, if◌then◌else◌,
}
use lsm_tree_go.Common.Keys.{Bytes, key_eq, key_lt}
use lsm_tree_go.Common.Crc.{checksum}
use lsm_tree_go.Common.Varint.{uvarint, read_little_endian}
use lsm_tree_go.Common.Outcome.{
  Outcome, ok, fail, panic, malformed, too_small, bad_magic, crc_mismatch, not_mapped, or_panic,
  or_malformed, call, ◌>>=◌, ◌>>◌,
}
use lsm_tree_go.MemTable.{Entry}
use lsm_tree_go.SparseIndex
use lsm_tree_go.SparseIndex.{SparseIndex, IndexEntry, lookup_offset}
use lsm_tree_go.Bloom
use lsm_tree_go.Bloom.{Filter}
use lsm_tree_go.SsTable.{read_string, read_tail, parse_entry}
use lsm_tree_go.SsTable.Writer.{Os, footer_size, magic_number}

-- SSTable. `is_mapped` is false once `Close` has set the slice to nil.
pub record SsTable : Type 0 where
  pub path : Bytes
  pub sparse_index : SparseIndex
  pub bloom_filter : Option Filter
  pub contents : Bytes
  pub is_mapped : Bool
  pub data_size : ℕ

-- `data[lo:hi]`
unfoldable pub slice : ℕ → ℕ → Bytes → Outcome Bytes
slice lo hi contents =
    if leb lo hi && leb hi (length contents) then ok (take (hi - lo) (drop lo contents)) else panic

-- `break` on a parser's failure; a panic is not caught.
abbrev pub stop_on_fail {ℓ κ} :
    {A : Type ℓ} {B : Type κ} → Outcome A → B → (A → Outcome B) → Outcome B
stop_on_fail (ok a) b f = f a
stop_on_fail (fail e) b f = ok b
stop_on_fail panic b f = panic

-- `step` as an int: New takes a negative one for 128, as it does 0.
abbrev pub int_step : ℕ → ℕ
int_step step = if leb (2 ^ 63) step then 0 else step

-- The loop of parseIndexBlock.
unfoldable pub read_index : ℕ → Bytes → SparseIndex → Outcome SparseIndex
read_index zero r si = ok si
read_index (suc n) r si = stop_on_fail (read_string r) si λ p.
    stop_on_fail (or_malformed (uvarint p.1)) si λ q. read_index n q.1 (SparseIndex.add p.0 q.0 si)

-- parseIndexBlock
unfoldable pub parse_index_block : Bytes → Outcome SparseIndex
parse_index_block buf = stop_on_fail (or_malformed (uvarint buf)) (SparseIndex.new 128) λ p.
    stop_on_fail (or_malformed (uvarint p.1)) (SparseIndex.new (int_step p.0))
      λ q. read_index q.0 q.1 (SparseIndex.new (int_step p.0))

-- parseBloomBlock of a buffer of the given length; `none` is the nil filter.
unfoldable pub parse_bloom_block : Bytes → Option Filter
parse_bloom_block [] = none
parse_bloom_block (b ∷ []) = if b == 0 then none else Bloom.deserialize (b ∷ [])
parse_bloom_block (b ∷ c ∷ buf) = Bloom.deserialize (b ∷ c ∷ buf)

-- The part of the three openers after the footer. A filter length that would be negative is 0 here.
unfoldable pub open_blocks : Bytes → Bytes → ℕ → ℕ → ℕ → Outcome SsTable
open_blocks path contents index_offset bloom_offset footer_len = do
  index_buf ← slice index_offset bloom_offset contents
  si ← parse_index_block index_buf
  bloom_buf ← slice bloom_offset (length contents) contents
  let bf = parse_bloom_block (take (length contents - bloom_offset - footer_len) bloom_buf)
  ok (record {
    path = path;
    sparse_index = si;
    bloom_filter = bf;
    contents = contents;
    is_mapped = true;
    data_size = index_offset;
  })

-- openV1, which maps the file again.
unfoldable pub open_v1 : Os → Bytes → Bytes → ℕ → ℕ → Outcome SsTable
open_v1 os path contents index_offset bloom_offset = do
  call (os.mmap_ok (length contents))
  open_blocks path contents index_offset bloom_offset 20

abbrev pub old_magic : Bytes
old_magic = b'L' ∷ b'S' ∷ b'M' ∷ b'1' ∷ []

-- What both openers do with a file's contents; `check` is Open's test of the data checksum.
unfoldable pub open_with :
    (Bytes → ℕ → ℕ → Outcome (Unit {0})) → Os → Bytes → Bytes → Outcome SsTable
open_with check os path contents = do
  call os.open_ok
  if ltb (length contents) footer_size then fail too_small else do
    call (os.mmap_ok (length contents))
    let footer_buf = drop (length contents - footer_size) contents
    index_offset ← or_panic (read_little_endian 8 footer_buf)
    bloom_offset ← or_panic (read_little_endian 8 (drop 8 footer_buf))
    crc ← or_panic (read_little_endian 4 (drop 16 footer_buf))
    if key_eq (take 4 (drop 20 footer_buf)) magic_number
        then (do
          check contents index_offset crc
          open_blocks path contents index_offset bloom_offset footer_size)
        else if key_eq (take 4 (drop 16 footer_buf)) old_magic
        then open_v1 os path contents index_offset bloom_offset
        else fail bad_magic

-- `crc32.ChecksumIEEE(data[:dataSize]) != dataCRC`
unfoldable pub verify : Bytes → ℕ → ℕ → Outcome (Unit {0})
verify contents data_size crc = do
  part ← slice 0 data_size contents
  if checksum part == crc then ok tt else fail crc_mismatch

-- Open
unfoldable pub open_table : Os → Bytes → Bytes → Outcome SsTable
open_table os path contents = open_with verify os path contents

-- OpenNoVerify
unfoldable pub open_no_verify : Os → Bytes → Bytes → Outcome SsTable
open_no_verify os path contents = open_with (λ _ _ _. ok tt) os path contents

-- MayContain
unfoldable pub may_contain : Bytes → SsTable → Outcome Bool
may_contain key s = elim s.bloom_filter [
  | none ↦ ok true
  | some f ↦ or_panic (Bloom.may_contain key f)
]

-- The loop of `Get` over what is left of the file from the offset on; the end of the buffer stops it too,
-- since no length can be read there. Every round takes a byte at least, so the length is fuel enough.
unfoldable pub scan : ℕ → Bytes → Bytes → Outcome (Option Entry)
scan zero key buf = ok none
scan (suc fuel) key buf = stop_on_fail (read_string buf) none λ p.
    let at_key =
      stop_on_fail (read_tail p.0 p.1) none
        λ q. let more = scan fuel key q.1 in if key_eq p.0 key then ok (some q.0) else more in
    if key_lt key p.0 then ok none else at_key

-- Get
unfoldable pub get : Bytes → SsTable → Outcome (Option Entry)
get key s = do
  hit ← may_contain key s
  if not hit then ok none else do
    buf ← slice (lookup_offset s.sparse_index key) (length s.contents) s.contents
    scan (length buf) key buf

-- The loop of `AllEntries`.
unfoldable pub collect : ℕ → Bytes → Outcome (List Entry)
collect zero buf = ok []
collect (suc fuel) buf =
    stop_on_fail (parse_entry buf) [] λ p. collect fuel (drop p.1 buf) >>= λ es. ok (p.0 ∷ es)

-- AllEntries
unfoldable pub all_entries : SsTable → Outcome (List Entry)
all_entries s =
    if s.is_mapped
    then (do buf ← slice 0 s.data_size s.contents; collect (length buf) buf)
    else fail not_mapped

-- EntryIter
pub record EntryIter : Type 0 where
  pub sst : SsTable
  pub pos : ℕ

-- Iter
abbrev pub iter : SsTable → EntryIter
iter s = record { sst = s; pos = 0 }

-- Next
unfoldable pub next : EntryIter → Outcome (Option (Entry × EntryIter))
next it = if leb it.sst.data_size it.pos then ok none else (do
  buf ← slice it.pos (length it.sst.contents) it.sst.contents
  stop_on_fail (parse_entry buf) none λ p. ok (some (p.0, record it { pos = it.pos + p.1 })))

-- Close: `Munmap` is not checked, and `file.Close` has no effect here.
pub close_table : SsTable → SsTable
close_table s = record s { contents = []; is_mapped = false }

-- MinKey
unfoldable pub min_key : SsTable → Bytes
min_key s = elim (get_elem? s.sparse_index.entries 0) [ some e ↦ e.key | none ↦ [] ]

-- MaxKey: the last key of the index.
unfoldable pub max_key : SsTable → Bytes
max_key s = elim (get_elem? s.sparse_index.entries (length s.sparse_index.entries - 1)) [
  | some e ↦ e.key
  | none ↦ []
]
