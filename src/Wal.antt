-- ===== src/Wal.antt =====
-- internal/wal/wal.go: the write-ahead log. `mapped` is what the file holds from its start; the rest of it, up
-- to `cap`, the length of the mapping, is zeros. The mutex and the channel of the flusher have no effect on
-- a single writer's results; the submitWrite of the ring, which is in Wal/Ring, is a parameter here.
pub mod Replay
pub mod Appends
pub mod Whole
pub mod Ring
pub mod Flusher
use lsm_tree_go.Common.{
  ℕ, zero, suc, ◌+◌, ◌-◌, ◌*◌, ◌/◌, ◌^◌, Bool, true, false, not, ◌&&◌, ◌||◌, Option, none, some,
  List, [], ◌∷◌, ◌++◌, length, take, drop, replicate, leb, ltb, ◌==◌, if◌then◌else◌,
}
use lsm_tree_go.Common.Int.{ℤ}
use lsm_tree_go.Common.Keys.{Bytes}
use lsm_tree_go.Common.Crc.{checksum}
use lsm_tree_go.Common.Varint.{
  uvarint_bytes, varint_bytes, zigzag, uvarint, varint, little_endian, read_little_endian,
}
use lsm_tree_go.Common.Outcome.{
  Error, Outcome, ok, fail, panic, os_error, or_malformed, or_panic, call, ◌>>=◌, ◌>>◌,
  unless_failed,
}
use lsm_tree_go.MemTable.{Entry}
use lsm_tree_go.SsTable.{string_bytes, tombstone_byte, read_string, read_byte}
use lsm_tree_go.SsTable.Writer.{Os}
use lsm_tree_go.SsTable.Reader.{stop_on_fail}

pub data SyncMode : Type 0 where
  sync_always sync_periodic sync_async sync_iouring : SyncMode

abbrev pub wal_version : ℕ
wal_version = 1

abbrev pub initial_mmap_size : ℕ
initial_mmap_size = 64 * 2 ^ 20

-- The slice `mmap` is the mapping of the file; or it still names pages that are gone, since nothing came in
-- their place; or it is nil.
pub data Mapping : Type 0 where
  live stale absent : Mapping

-- syscall.Munmap returns an error for a slice that is not a mapping.
unfoldable pub munmap : Os → Mapping → Bool
munmap os live = os.munmap_ok
munmap os stale = false
munmap os absent = false

-- Whether the pages can be read and written. The runtime ends the program where they can not.
abbrev pub is_live : Mapping → Bool
is_live live = true
is_live stale = false
is_live absent = false

-- `flush_err` is what the background flusher stored.
pub record Wal : Type 0 where
  pub path : Bytes
  pub mapped : Bytes
  pub mapping : Mapping
  pub cap : ℕ
  pub write_at : ℕ
  pub mode : SyncMode
  pub pending : ℕ
  pub closed : Bool
  pub flush_err : Option Error

-- New, of a file with the given contents; `ring_ok` says whether newIORing succeeds. Where it fails New calls
-- Close, which flushes the ring that is not there.
unfoldable pub open_wal : Os → Bool → Bytes → SyncMode → Bytes → Outcome Wal
open_wal os ring_ok path mode contents = do
  call os.open_ok
  file ← started mode contents
  let size = length file
  let cap = if leb size 1 then initial_mmap_size else size
  call (os.truncate_ok cap)
  call (os.mmap_ok cap)
  with_ring mode (record {
    path = path;
    mapped = file;
    mapping = live;
    cap = cap;
    write_at = size;
    mode = mode;
    pending = 0;
    closed = false;
    flush_err = none;
  })
  where
    -- an empty file gets the version byte; an existing one is refused in the io_uring mode
    started : SyncMode → Bytes → Outcome Bytes
    started m [] = call os.write_ok >> ok (wal_version ∷ [])
    started sync_iouring (b ∷ bs) = fail os_error
    started m (b ∷ bs) = ok (b ∷ bs)

    with_ring : SyncMode → Wal → Outcome Wal
    with_ring sync_iouring w = if ring_ok then ok w else panic
    with_ring m w = ok w

-- `for newSize < int(need) { newSize *= 2 }`
unfoldable pub double_to : ℕ → ℕ → ℕ → ℕ
double_to zero need size = size
double_to (suc fuel) need size =
    let more = double_to fuel need (size * 2) in if ltb size need then more else size

-- The growing half of writeToMmap: the log and the error returned. Where the file can not be mapped again `mmap`
-- names the pages that are gone. Of a mapping that is not empty `need` rounds are enough; the loop from 0 never
-- ends, so that there is no log to go on with, as after a panic.
unfoldable pub grow : Os → ℕ → Wal → Outcome (Wal × Option Error)
grow os need w =
    let size = double_to need need (w.cap * 2) in
    if w.cap == 0
    then panic
    else if not (munmap os w.mapping)
    then ok (w, some os_error)
    else if os.truncate_ok size && os.mmap_ok size
    then ok (record w { mapping = live; cap = size }, none)
    else ok (record w { mapping = stale }, some os_error)

-- writeToMmap: `copy` takes what fits behind `writeAt`.
unfoldable pub write_to_mmap : Os → Bytes → Wal → Outcome (Wal × Option Error)
write_to_mmap os buf w = do
  let need = w.write_at + length buf
  p ← if ltb w.cap need then grow os need w else ok (w, none)
  unless_failed p λ placed.
      if ltb placed.cap placed.write_at || not (is_live placed.mapping)
      then panic
      else (let part = take (placed.cap - placed.write_at) buf in
          ok (
            record placed {
              mapped = placed.mapped ++ part;
              write_at = placed.write_at + length part;
            },
            none,
          ))

-- `return syncFile(w.file)`: the log has been written also where the sync fails.
abbrev pub synced : Os → Wal → Outcome (Wal × Option Error)
synced os w = ok (w, if os.sync_ok then none else some os_error)

-- AppendRaw: the new log and the error returned. `submit` is the ring's submitWrite, which does not move
-- `writeAt`.
unfoldable pub append_raw : (Bytes → Option Error) → Os → Bytes → Wal → Outcome (Wal × Option Error)
append_raw submit os buf w = by_mode w.mode
  where
    by_mode : SyncMode → Outcome (Wal × Option Error)
    by_mode sync_iouring = ok (w, submit buf)
    by_mode sync_async = do p ← write_to_mmap os buf w; unless_failed p λ w'. ok (w', w'.flush_err)
    by_mode sync_periodic = do
      p ← write_to_mmap os buf w
      unless_failed p λ w'.
          if leb 100 (w'.pending + 1)
          then synced os (record w' { pending = 0 })
          else ok (record w' { pending = w'.pending + 1 }, none)
    by_mode sync_always = do p ← write_to_mmap os buf w; unless_failed p λ w'. synced os w'

-- One entry of a batch.
unfoldable pub record_bytes : Entry → Bytes
record_bytes e =
    string_bytes e.key
    ++ (string_bytes e.value ++ (varint_bytes e.timestamp ++ (tombstone_byte e.tombstone ∷ [])))

unfoldable pub batch_body : List Entry → Bytes
batch_body [] = []
batch_body (e ∷ es) = record_bytes e ++ batch_body es

-- serializeEntries: the count, the checksum of the entries, and the entries.
unfoldable pub serialize_entries : List Entry → Bytes
serialize_entries es =
    uvarint_bytes (length es) ++ (little_endian 4 (checksum (batch_body es)) ++ batch_body es)

-- AppendBatch and Append
unfoldable pub append_batch :
    (Bytes → Option Error) → Os → List Entry → Wal → Outcome (Wal × Option Error)
append_batch submit os es w = append_raw submit os (serialize_entries es) w

unfoldable pub append_entry :
    (Bytes → Option Error) → Os → Entry → Wal → Outcome (Wal × Option Error)
append_entry submit os e w = append_batch submit os (e ∷ []) w

-- One round of Replay's inner loop.
unfoldable pub read_record : Bytes → Outcome (Entry × Bytes)
read_record buf = do
  (key, buf') ← read_string buf
  (value, buf'') ← read_string buf'
  (ts, behind) ← or_malformed (varint buf'')
  (tomb, rest) ← read_byte behind
  ok (record { key = key; value = value; timestamp = ts; tombstone = tomb == 1 }, rest)

-- The inner loop; a failure is `batchOK = false`.
unfoldable pub read_batch : ℕ → Bytes → Outcome (List Entry × Bytes)
read_batch zero buf = ok ([], buf)
read_batch (suc n) buf = do
  (e, buf') ← read_record buf
  (es, rest) ← read_batch n buf'
  ok (e ∷ es, rest)

-- The outer loop. Every batch takes five bytes at least, so the length is fuel enough. The space that
-- `make` asks for is taken to be there, whatever count a damaged batch has.
unfoldable pub replay_loop : ℕ → Bytes → Outcome (List Entry)
replay_loop zero buf = ok []
replay_loop (suc fuel) buf = stop_on_fail (or_malformed (uvarint buf)) [] λ p.
    if ltb (length p.1) 4
    then ok []
    else (or_panic (read_little_endian 4 (take 4 p.1)) >>= λ crc.
        let body = drop 4 p.1 in
        stop_on_fail (read_batch p.0 body) [] λ q.
          let more = replay_loop fuel q.1 >>= λ es. ok (q.0 ++ es) in
          if checksum (take (length body - length q.1) body) == crc then more else ok [])

-- `buf[1:]` behind the version byte.
unfoldable pub strip_version : Bytes → Bytes
strip_version [] = []
strip_version (b ∷ bs) = if b == wal_version then bs else b ∷ bs

-- Replay. `w.mmap[:w.writeAt]` panics past the mapping, and pages that are gone can not be read.
unfoldable pub replay : Wal → Outcome (List Entry)
replay w =
    if ltb w.cap w.write_at || not (is_live w.mapping)
    then panic
    else (let log = take w.write_at (w.mapped ++ replicate (w.write_at - length w.mapped) 0) in
        let buf = strip_version log in replay_loop (length buf) buf)

-- Reset: the log and the error returned. Once the file is unmapped `mmap` is nil until it is mapped again. A new
-- ring is made last, when the log is empty and mapped.
unfoldable pub reset : Os → Bool → Wal → Outcome (Wal × Option Error)
reset os ring_ok w =
    if not (munmap os w.mapping)
    then ok (w, some os_error)
    else cleared (record w { mapping = absent; cap = 0 })
  where
    new_ring : SyncMode → Option Error
    new_ring sync_iouring = if ring_ok then none else some os_error
    new_ring m = none

    mapped_again : Wal → Outcome (Wal × Option Error)
    mapped_again w' =
        if os.truncate_ok initial_mmap_size && os.mmap_ok initial_mmap_size
        then ok
            (record w' { mapping = live; cap = initial_mmap_size; write_at = 1 }, new_ring w'.mode)
        else ok (w', some os_error)

    versioned : Wal → Outcome (Wal × Option Error)
    versioned w' =
        if os.seek_ok && os.write_ok
        then mapped_again (record w' { mapped = wal_version ∷ [] })
        else ok (w', some os_error)

    cleared : Wal → Outcome (Wal × Option Error)
    cleared w' =
        if os.truncate_ok 0 then versioned (record w' { mapped = [] }) else ok (w', some os_error)

-- Close: the file that is left, cut at `writeAt`. The flusher's error ends it early.
unfoldable pub close : Os → Wal → Outcome (Bytes × Wal)
close os w = do
  flusher w.mode w.flush_err
  call (os.truncate_ok w.write_at)
  ok (
    take w.write_at (w.mapped ++ replicate (w.write_at - length w.mapped) 0),
    record w { closed = true; mapping = absent; cap = 0 },
  )
  where
    flusher : SyncMode → Option Error → Outcome (Unit {0})
    flusher sync_async (some e) = fail e
    flusher m e = ok tt

-- uvarintSize: a byte for every seven bits, one at least.
unfoldable pub size_loop : ℕ → ℕ → ℕ → ℕ
size_loop zero v n = n
size_loop (suc fuel) v n = let more = size_loop fuel (v / 128) (n + 1) in if v == 0 then n else more

unfoldable pub uvarint_size : ℕ → ℕ
uvarint_size v = if v == 0 then 1 else size_loop 10 v 0

-- varintSize
unfoldable pub varint_size : ℤ → ℕ
varint_size v = uvarint_size (zigzag v)
