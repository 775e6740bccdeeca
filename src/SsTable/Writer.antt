-- ===== src/SsTable/Writer.antt =====
-- The table writer: `CreateWriter`, `grow`, `Append` and `Close`. The file is mapped, and `mapped` is what
-- has been copied into it: the rest of the mapping is zeros. The system calls are parameters that
-- succeed or return an error.
pub mod Appends
pub mod Closed
pub mod Shape
pub mod Sizes
use lsm_tree_go.Common.{
  ℕ, zero, suc, ◌+◌, ◌-◌, ◌*◌, ◌^◌, Bool, true, false, Option, none, some, List, [], ◌∷◌, ◌++◌,
  length, take, drop, replicate, leb, ltb, ◌==◌, if◌then◌else◌,
}
use lsm_tree_go.Common.Keys.{Bytes}
use lsm_tree_go.Common.Crc.{update}
use lsm_tree_go.Common.Varint.{uvarint_bytes, little_endian}
use lsm_tree_go.Common.Outcome.{Outcome, ok, fail, panic, or_panic, call, ◌>>=◌, ◌>>◌}
use lsm_tree_go.MemTable.{Entry}
use lsm_tree_go.SparseIndex
use lsm_tree_go.SparseIndex.{SparseIndex, IndexEntry, should_index}
use lsm_tree_go.Bloom
use lsm_tree_go.Bloom.{Filter}
use lsm_tree_go.SsTable.{entry_bytes, string_bytes}

-- What the operating system answers.
pub record Os : Type 0 where
  pub mkdir_ok : Bool
  pub create_ok : Bool
  pub open_ok : Bool
  pub munmap_ok : Bool
  pub sync_ok : Bool
  pub write_ok : Bool
  pub seek_ok : Bool
  pub rename_ok : Bool
  pub truncate_ok : ℕ → Bool
  pub mmap_ok : ℕ → Bool

abbrev pub initial_mmap_size : ℕ
initial_mmap_size = 8 * 2 ^ 20

pub record Writer : Type 0 where
  pub mapped : Bytes
  pub mmap_cap : ℕ
  pub path : Bytes
  pub count : ℕ
  pub byte_pos : ℕ
  pub sparse_index : SparseIndex
  pub bloom_filter : Option Filter
  pub data_crc : ℕ

-- CreateWriter
unfoldable pub create_writer : Os → Bytes → ℕ → ℕ → Outcome Writer
create_writer os path expected_entries step = do
  call os.mkdir_ok
  call os.create_ok
  let si = SparseIndex.new (if step == 0 then 128 else step)
  let bf = Bloom.new expected_entries 10
  call (os.truncate_ok initial_mmap_size)
  call (os.mmap_ok initial_mmap_size)
  ok (record {
    mapped = [];
    mmap_cap = initial_mmap_size;
    path = path;
    count = 0;
    byte_pos = 0;
    sparse_index = si;
    bloom_filter = some bf;
    data_crc = 0;
  })

-- `for w.mmapCap <= target { w.mmapCap *= 2 }`
unfoldable pub double_past : ℕ → ℕ → ℕ → ℕ
double_past zero target cap = cap
double_past (suc fuel) target cap =
    let more = double_past fuel target (cap * 2) in if leb cap target then more else cap

-- grow. Every round at least adds 1 to the capacity, so `target + 1` rounds are enough.
unfoldable pub grow : Os → ℕ → Writer → Outcome Writer
grow os target w = do
  call os.munmap_ok
  let cap = double_past (target + 1) target w.mmap_cap
  call (os.truncate_ok cap)
  call (os.mmap_ok cap)
  ok (record w { mmap_cap = cap })

-- `copy(w.mmap[w.bytePos:], buf)` and `w.bytePos += len(buf)`: what does not fit is cut off without an
-- error, and a position past the end of the mapping panics.
unfoldable pub copy_in : Bytes → Writer → Outcome Writer
copy_in buf w =
    if ltb w.mmap_cap w.byte_pos
    then panic
    else ok (record w {
      mapped = w.mapped ++ take (w.mmap_cap - w.byte_pos) buf;
      byte_pos = w.byte_pos + length buf;
    })

-- `if need > w.mmapCap { w.grow(need) }`
unfoldable pub ensure : Os → ℕ → Writer → Outcome Writer
ensure os need w = if ltb w.mmap_cap need then grow os need w else ok w

-- `w.bloomFilter.Add(key)`. Adding to a nil filter panics; `CreateWriter` never makes one.
unfoldable pub note_key : Bytes → Writer → Outcome Writer
note_key key w = do
  f ← or_panic w.bloom_filter
  f' ← or_panic (Bloom.add key f)
  ok (record w { bloom_filter = some f' })

-- `if w.sparseIndex.ShouldIndex(w.count - 1) { … }`, with `count` and `bytePos` already moved on.
unfoldable pub note_offset : Bytes → ℕ → Writer → Writer
note_offset key len w =
    if should_index w.sparse_index (w.count - 1)
    then record w { sparse_index = SparseIndex.add key (w.byte_pos - len) w.sparse_index }
    else w

-- Append
unfoldable pub append : Os → Entry → Writer → Outcome Writer
append os e w = do
  let scratch = entry_bytes e
  placed ← ensure os (w.byte_pos + length scratch) w
  copied ← copy_in scratch placed
  let counted = record copied {
    data_crc = update copied.data_crc scratch;
    count = copied.count + 1;
  }
  noted ← note_key e.key counted
  ok (note_offset e.key (length scratch) noted)

unfoldable pub index_entry_bytes : List IndexEntry → Bytes
index_entry_bytes [] = []
index_entry_bytes (e ∷ es) = string_bytes e.key ++ (uvarint_bytes e.offset ++ index_entry_bytes es)

-- writeIndexBlock
unfoldable pub index_block : SparseIndex → Bytes
unfolding index_entry_bytes
index_block si =
    uvarint_bytes si.step ++ (uvarint_bytes (length si.entries) ++ index_entry_bytes si.entries)

-- writeBloomBlock
unfoldable pub bloom_block : Option Filter → Bytes
bloom_block none = uvarint_bytes 0
bloom_block (some f) = Bloom.serialize f

abbrev pub magic_number : Bytes
magic_number = b'L' ∷ b'S' ∷ b'M' ∷ b'2' ∷ []

abbrev pub footer_size : ℕ
footer_size = 24

unfoldable pub footer : ℕ → ℕ → ℕ → Bytes
footer index_offset bloom_offset crc =
    little_endian 8 index_offset
    ++ (little_endian 8 bloom_offset ++ (little_endian 4 crc ++ magic_number))

-- Close: the bytes of the finished file. The final `Truncate` fills with zeros what was not copied. The
-- deferred `Munmap` and `file.Close` return nothing.
unfoldable pub close : Os → Writer → Outcome (Bytes × Writer)
close os w = do
  let index_buf = index_block w.sparse_index
  let bloom_buf = bloom_block w.bloom_filter
  indexed ← copy_in index_buf w
  filtered ← copy_in bloom_buf indexed
  footed ← copy_in (footer w.byte_pos indexed.byte_pos w.data_crc) filtered
  call (os.truncate_ok footed.byte_pos)
  call os.sync_ok
  ok (footed.mapped ++ replicate (footed.byte_pos - length footed.mapped) 0, footed)

-- Info
unfoldable pub info : Writer → ℕ
info w = w.byte_pos
