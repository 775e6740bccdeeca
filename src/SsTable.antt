-- ===== src/SsTable.antt =====
-- internal/sstable/sstable.go: the immutable table files. This file has the record format; the writer,
-- the reader and the point lookup are in the children.
pub mod Codec
pub mod Writer
pub mod Reader
use lsm_tree_go.Common.{
  ℕ, zero, suc, ◌+◌, ◌-◌, ◌^◌, Bool, true, false, Option, none, some, List, [], ◌∷◌, ◌++◌, length,
  take, drop, leb, ltb, ◌==◌, if◌then◌else◌,
}
use lsm_tree_go.Common.Int.{ℤ}
use lsm_tree_go.Common.Keys.{Bytes}
use lsm_tree_go.Common.Crc.{checksum}
use lsm_tree_go.Common.Varint.{uvarint_bytes, varint_bytes, uvarint, varint, little_endian}
use lsm_tree_go.Common.Outcome.{Outcome, ok, fail, panic, malformed, or_malformed, ◌>>=◌, ◌>>◌}
use lsm_tree_go.MemTable.{Entry}

-- A string behind its length.
unfoldable pub string_bytes : Bytes → Bytes
string_bytes s = uvarint_bytes (length s) ++ s

abbrev pub tombstone_byte : Bool → ℕ
tombstone_byte b = if b then 1 else 0

-- What the record's own checksum covers: key, value, timestamp and tombstone.
unfoldable pub entry_body : Entry → Bytes
unfolding string_bytes
entry_body e =
    string_bytes e.key
    ++ (string_bytes e.value ++ (varint_bytes e.timestamp ++ (tombstone_byte e.tombstone ∷ [])))

-- `w.scratch` of `Append`.
unfoldable pub entry_bytes : Entry → Bytes
unfolding entry_body
entry_bytes e = entry_body e ++ little_endian 4 (checksum (entry_body e))

-- `string(buf[:k])` and `buf[k:]` behind the test `int(k) > len(buf)`. A length of 2^63 or more is a
-- negative int: it passes the test, and the slice panics.
unfoldable pub read_bytes : ℕ → Bytes → Outcome (Bytes × Bytes)
read_bytes k buf =
    if leb (2 ^ 63) k
    then panic
    else if ltb (length buf) k
    then fail malformed
    else ok (take k buf, drop k buf)

-- A length and the string behind it.
unfoldable pub read_string : Bytes → Outcome (Bytes × Bytes)
unfolding read_bytes
read_string buf = do (k, rest) ← or_malformed (uvarint buf); read_bytes k rest

-- One byte.
unfoldable pub read_byte : Bytes → Outcome (ℕ × Bytes)
read_byte [] = fail malformed
read_byte (b ∷ rest) = ok (b, rest)

-- `start += 4`: the checksum is stepped over, and not compared.
unfoldable pub skip_crc : Bytes → Outcome Bytes
skip_crc buf = if ltb (length buf) 4 then fail malformed else ok (drop 4 buf)

-- What stands behind the key.
unfoldable pub read_tail : Bytes → Bytes → Outcome (Entry × Bytes)
unfolding read_string read_byte skip_crc
read_tail key buf = do
  (value, buf') ← read_string buf
  (ts, buf'') ← or_malformed (varint buf')
  (tomb, behind) ← read_byte buf''
  rest ← skip_crc behind
  ok (record { key = key; value = value; timestamp = ts; tombstone = tomb == 1 }, rest)

-- parseEntry: the entry and the number of bytes taken. Its results `(Entry{}, 0)` are `fail malformed`.
unfoldable pub parse_entry : Bytes → Outcome (Entry × ℕ)
parse_entry buf = do
  (key, buf') ← read_string buf
  (e, rest) ← read_tail key buf'
  ok (e, length buf - length rest)
