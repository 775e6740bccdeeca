-- ===== src/SsTable/Codec.antt =====
-- Round trip of the record format.
use lsm_tree_go.Common.{
  ◌-◌, ◌^◌, ◌<◌, ◌≡◌, refl, ap, Bool, true, false, ◌∷◌, ◌++◌, length, ◌==◌, arith, length-append,
  drop-append, take-append, drop-append_at,
}
use mathlib.Core.List.{append_assoc}
use lsm_tree_go.Common.Int.{IsInt64}
use lsm_tree_go.Common.Keys.{Bytes}
use lsm_tree_go.Common.Crc.{checksum}
use lsm_tree_go.Common.Varint.{
  uvarint_bytes, varint_bytes, little_endian, uvarint-uvarint_bytes, varint-varint_bytes,
  length-little_endian,
}
use lsm_tree_go.Common.Outcome.{ok}
use lsm_tree_go.MemTable.{Entry}
use lsm_tree_go.SsTable.{
  string_bytes, tombstone_byte, entry_body, entry_bytes, read_bytes, read_string, skip_crc,
  read_tail, parse_entry,
}

-- What a Go value of the struct is: lengths are ints, the timestamp is an int64.
abbrev pub IsGoEntry : Entry → Type 0
IsGoEntry e = (length e.key < 2 ^ 63) × (length e.value < 2 ^ 63) × IsInt64 e.timestamp

read_bytes-append :
    (s rest : Bytes) → length s < 2 ^ 63 → read_bytes (length s) (s ++ rest) ≡ ok (s, rest)
unfolding read_bytes
read_bytes-append s rest h =
    ground (arith, length-append s rest, take-append s rest, drop-append s rest)

pub read_string-string_bytes :
    (s rest : Bytes) → length s < 2 ^ 63 → read_string (string_bytes s ++ rest) ≡ ok (s, rest)
read_string-string_bytes s rest h =
    unfold read_string string_bytes in
    rw
      (
        append_assoc (uvarint_bytes (length s)) s rest,
        uvarint-uvarint_bytes (length s) (s ++ rest) (omega arith),
      )
      (read_bytes-append s rest h)

skip_crc-append : (c rest : Bytes) → length c ≡ 4 → skip_crc (c ++ rest) ≡ ok rest
unfolding skip_crc
skip_crc-append c rest h = ground (arith, length-append c rest, drop-append_at 4 c rest)

pub tombstone_back : (b : Bool) → (tombstone_byte b == 1) ≡ b
tombstone_back true = refl
tombstone_back false = refl

-- What stands behind the key, with the checksum `crc` and whatever follows.
abbrev pub tail_bytes : Entry → Bytes → Bytes
tail_bytes e rest =
    string_bytes e.value
    ++ (varint_bytes e.timestamp
        ++ (tombstone_byte e.tombstone ∷ (little_endian 4 (checksum (entry_body e)) ++ rest)))

pub entry_bytes-append :
    (e : Entry) (rest : Bytes) → entry_bytes e ++ rest ≡ string_bytes e.key ++ tail_bytes e rest
unfolding entry_bytes
entry_bytes-append e rest = simp append_assoc

pub read_tail-tail_bytes :
    (e : Entry) (rest : Bytes) → IsGoEntry e → read_tail e.key (tail_bytes e rest) ≡ ok (e, rest)
read_tail-tail_bytes e rest (_, hv, ht) =
    unfold read_tail in
    rw (
      read_string-string_bytes e.value _ hv,
      varint-varint_bytes e.timestamp _ ht,
      skip_crc-append (little_endian 4 (checksum (entry_body e))) rest
          (length-little_endian 4 (checksum (entry_body e))),
      tombstone_back e.tombstone,
    )

-- A record of an entry that fits Go's types is read back, with its exact length, whatever follows it.
pub parse_entry-entry_bytes :
    (e : Entry) (rest : Bytes)
    → IsGoEntry e
    → parse_entry (entry_bytes e ++ rest) ≡ ok (e, length (entry_bytes e))
parse_entry-entry_bytes e rest h =
    unfold parse_entry in
    rw (
      entry_bytes-append e rest,
      read_string-string_bytes e.key (tail_bytes e rest) h.0,
      read_tail-tail_bytes e rest h,
      taken,
    )
  where
    taken : length (string_bytes e.key ++ tail_bytes e rest) - length rest ≡ length (entry_bytes e)
    taken = omega (arith, ap length (entry_bytes-append e rest), length-append (entry_bytes e) rest)

pub length-entry_bytes-pos : (e : Entry) → 0 < length (entry_bytes e)
unfolding entry_bytes
length-entry_bytes-pos e = omega (
  arith,
  length-append (entry_body e) (little_endian 4 (checksum (entry_body e))),
  length-little_endian 4 (checksum (entry_body e)),
)
