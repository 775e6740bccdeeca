-- ===== src/Wal/Replay.antt =====
-- What a log of whole batches replays to, with or without a tail of zeros.
use lsm_tree_go.Common.{
  ℕ, zero, suc, ◌+◌, ◌-◌, ◌^◌, ◌<◌, ◌≡◌, refl, sym, ap, ◌∙◌, true, false, some, List, [], ◌∷◌, ◌++◌,
  length, All, take, replicate, ltb, ◌==◌, if◌then◌else◌, arith, length-append, drop-append_at,
  take-append_at,
}
use mathlib.Core.List.{append-nil, append_assoc}
use lsm_tree_go.Common.Keys.{Bytes}
use lsm_tree_go.Common.Crc.{checksum, checksum-lt, checksum_nil}
use lsm_tree_go.Common.Varint.{
  uvarint_bytes_zero, uvarint_zero, little_endian_zero, uvarint_nil, uvarint_bytes, varint_bytes,
  little_endian, read_little_endian, uvarint-uvarint_bytes, varint-varint_bytes,
  read_little_endian-little_endian, length-little_endian,
}
use lsm_tree_go.Common.Outcome.{ok, ◌>>=◌}
use lsm_tree_go.MemTable.{Entry}
use lsm_tree_go.SsTable.{string_bytes, tombstone_byte, read_byte}
use lsm_tree_go.SsTable.Codec.{IsGoEntry, read_string-string_bytes, tombstone_back}
use lsm_tree_go.Wal.{
  record_bytes, batch_body, serialize_entries, read_record, read_batch, replay_loop,
}

read_record-record_bytes :
    (e : Entry) (rest : Bytes) → IsGoEntry e → read_record (record_bytes e ++ rest) ≡ ok (e, rest)
unfolding read_record read_byte
read_record-record_bytes e rest (hk, hv, ht) = rw (
  split,
  read_string-string_bytes e.key _ hk,
  read_string-string_bytes e.value _ hv,
  varint-varint_bytes e.timestamp _ ht,
  tombstone_back e.tombstone,
)
  where
    split :
        record_bytes e ++ rest
        ≡ string_bytes e.key
          ++ (string_bytes e.value
              ++ (varint_bytes e.timestamp ++ (tombstone_byte e.tombstone ∷ rest)))
    split = unfold record_bytes in simp append_assoc

read_batch-batch_body :
    (es : List Entry) (rest : Bytes)
    → All IsGoEntry es
    → read_batch (length es) (batch_body es ++ rest) ≡ ok (es, rest)
unfolding read_batch batch_body
read_batch-batch_body [] rest h = refl
read_batch-batch_body (e ∷ es) rest h = rw (
  append_assoc (record_bytes e) (batch_body es) rest,
  read_record-record_bytes e (batch_body es ++ rest) h.0,
  read_batch-batch_body es rest h.1,
)

-- A batch with the checksum field `c`.
unfoldable pub batch_bytes : ℕ → List Entry → Bytes
batch_bytes c es = uvarint_bytes (length es) ++ (little_endian 4 c ++ batch_body es)

-- On a whole batch that stores the checksum `c`, a round takes its entries and goes on behind it if `c` is
-- their checksum, and else ends with nothing, whatever stands behind.
pub replay_step :
    (fuel c : ℕ) (es : List Entry) (rest : Bytes)
    → All IsGoEntry es
    → length es < 2 ^ 64
    → c < 2 ^ 32
    → replay_loop (suc fuel) (batch_bytes c es ++ rest) ≡ (
        if checksum (batch_body es) == c
        then replay_loop fuel rest >>= (λ more. ok (es ++ more))
        else ok [])
unfolding replay_loop
replay_step fuel c es rest h n hc = rw (
  split,
  uvarint-uvarint_bytes (length es) _ n,
  not_short,
  take-append_at 4 crc_bytes (body ++ rest) (sym four),
  read_crc,
  drop-append_at 4 crc_bytes (body ++ rest) (sym four),
  read_batch-batch_body es rest h,
  consumed,
)
  where
    body : Bytes
    body = batch_body es

    crc_bytes : Bytes
    crc_bytes = little_endian 4 c

    four : length crc_bytes ≡ 4
    four = length-little_endian 4 c

    split : batch_bytes c es ++ rest ≡ uvarint_bytes (length es) ++ (crc_bytes ++ (body ++ rest))
    split = unfold batch_bytes in simp append_assoc

    not_short : ltb (length (crc_bytes ++ (body ++ rest))) 4 ≡ false
    not_short = let p = length-append crc_bytes (body ++ rest) in let q = four in ground arith

    read_crc : read_little_endian 4 crc_bytes ≡ some c
    read_crc =
        ap (read_little_endian 4) (sym (append-nil crc_bytes))
        ∙ read_little_endian-little_endian 4 c [] hc

    consumed : take (length (body ++ rest) - length rest) (body ++ rest) ≡ body
    consumed =
        take-append_at (length (body ++ rest) - length rest) body rest
          (let p = length-append body rest in omega arith)

-- What the log holds behind its version byte, and the entries in it.
unfoldable pub log_bytes : List (List Entry) → Bytes
log_bytes [] = []
log_bytes (es ∷ bs) = serialize_entries es ++ log_bytes bs

unfoldable pub logged : List (List Entry) → List Entry
logged [] = []
logged (es ∷ bs) = es ++ logged bs

abbrev pub IsGoBatch : List Entry → Type 0
IsGoBatch es = All IsGoEntry es × (length es < 2 ^ 64)

serialize_entries-batch_bytes :
    (es : List Entry) → serialize_entries es ≡ batch_bytes (checksum (batch_body es)) es
unfolding serialize_entries batch_bytes
serialize_entries-batch_bytes es = refl

pub replay_loop-log_bytes :
    (fuel : ℕ) (bs : List (List Entry)) (tail : Bytes)
    → All IsGoBatch bs
    → replay_loop fuel tail ≡ ok []
    → replay_loop (length bs + fuel) (log_bytes bs ++ tail) ≡ ok (logged bs)
unfolding log_bytes logged
replay_loop-log_bytes fuel [] tail h e = ap (λ n. replay_loop n tail) (omega arith) ∙ e
replay_loop-log_bytes fuel (es ∷ bs) tail h e = rw (
  one_more,
  append_assoc (serialize_entries es) (log_bytes bs) tail,
  serialize_entries-batch_bytes es,
  replay_step (length bs + fuel) (checksum (batch_body es)) es (log_bytes bs ++ tail) h.0.0 h.0.1
      (checksum-lt (batch_body es)),
  fits,
  replay_loop-log_bytes fuel bs tail h.1 e,
)
  where
    one_more : length (es ∷ bs) + fuel ≡ suc (length bs + fuel)
    one_more = omega arith

    fits : (checksum (batch_body es) == checksum (batch_body es)) ≡ true
    fits = ground arith

-- Zeros of any length, with any fuel, replay to no entry.
pub replay_loop-zeros : (fuel n : ℕ) → replay_loop fuel (replicate n 0) ≡ ok []
unfolding replay_loop batch_body
replay_loop-zeros zero n = refl
replay_loop-zeros (suc fuel) zero = rw uvarint_nil
replay_loop-zeros (suc fuel) (suc zero) = rw (uvarint_zero [])
replay_loop-zeros (suc fuel) (suc (suc zero)) = rw (uvarint_zero (replicate 1 0))
replay_loop-zeros (suc fuel) (suc (suc (suc zero))) = rw (uvarint_zero (replicate 2 0))
replay_loop-zeros (suc fuel) (suc (suc (suc (suc zero)))) = rw (uvarint_zero (replicate 3 0))
replay_loop-zeros (suc fuel) (suc (suc (suc (suc (suc n))))) =
    ap (replay_loop (suc fuel)) five
    ∙ (replay_step fuel 0 [] (replicate n 0) tt (omega arith) (omega arith)
        ∙ rw (replay_loop-zeros fuel n, checksum_nil))
  where
    five : replicate (suc (suc (suc (suc (suc n))))) 0 ≡ batch_bytes 0 [] ++ replicate n 0
    five = unfold batch_bytes in rw (uvarint_bytes_zero, little_endian_zero)
