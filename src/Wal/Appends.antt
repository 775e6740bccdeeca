-- ===== src/Wal/Appends.antt =====
-- What a log holds after appends, and that Replay gives back exactly the entries appended.
use lsm_tree_go.Common.{
  ℕ, zero, suc, ◌+◌, ◌-◌, ◌*◌, ◌≤◌, ◌<◌, ◌≡◌, refl, sym, ap, ◌∙◌, inl, inr, ◌≢◌, Bool, ◌&&◌, ◌⊎◌,
  true, false, Option, none, some, List, [], ◌∷◌, ◌++◌, length, All, take, leb, ltb, ◌==◌,
  if◌then◌else◌, arith, length-append, take_of_length-le, Bool-cases,
}
use mathlib.Core.List.{append-nil, append_assoc}
use lsm_tree_go.Common.Keys.{Bytes}
use lsm_tree_go.Common.Varint.{uvarint_bytes, little_endian, length-uvarint_bytes}
use lsm_tree_go.Common.Outcome.{Error, ok, os_error, ◌>>=◌, unless_failed}
use lsm_tree_go.MemTable.{Entry}
use lsm_tree_go.SsTable.Writer.{Os}
use lsm_tree_go.Common.Crc.{checksum}
use lsm_tree_go.Wal.{
  batch_body, Wal, live, stale, Mapping, munmap, SyncMode, sync_always, sync_periodic, sync_async,
  sync_iouring, serialize_entries, synced, replay_loop, strip_version, replay, wal_version,
  double_to, grow, write_to_mmap, append_raw, append_batch,
}
use lsm_tree_go.Wal.Replay.{log_bytes, logged, IsGoBatch, replay_loop-log_bytes, replay_loop-zeros}

-- The log is mapped and holds the version byte and the batches `bs`, and nothing after them.
abbrev pub Holds : List (List Entry) → Wal → Type 0
Holds bs w =
    (w.mapped ≡ wal_version ∷ log_bytes bs)
    × (w.write_at ≡ length w.mapped)
    × (w.write_at ≤ w.cap)
    × (w.mapping ≡ live)

-- System calls that succeed when the mapping grows.
abbrev pub Grows : Os → Type 0
Grows os =
    (os.munmap_ok ≡ true) × ((n : ℕ) → os.truncate_ok n ≡ true) × ((n : ℕ) → os.mmap_ok n ≡ true)

-- Every round adds one at least, so `need` rounds are enough.
double_to_lem :
    (fuel need size : ℕ) → 0 < size → need ≤ size + fuel → need ≤ double_to fuel need size
unfolding double_to
double_to_lem zero need size h1 h2 = omega arith
double_to_lem (suc fuel) need size h1 h2 =
    let rest = double_to_lem fuel need (size * 2) (omega arith) (omega arith) in ground arith

pub serialize_entries-length : (es : List Entry) → 1 ≤ length (serialize_entries es)
serialize_entries-length es =
    unfold serialize_entries in
    let (p, p') = length-uvarint_bytes (length es) in
    let q =
      length-append (uvarint_bytes (length es))
        (little_endian 4 (checksum (batch_body es)) ++ batch_body es) in
    omega arith

length-log_bytes : (bs : List (List Entry)) → length bs ≤ length (log_bytes bs)
unfolding log_bytes
length-log_bytes [] = omega arith
length-log_bytes (es ∷ bs) =
    let p = length-log_bytes bs in
    let q = length-append (serialize_entries es) (log_bytes bs) in
    let r = serialize_entries-length es in omega arith

log_bytes-snoc :
    (bs : List (List Entry)) (es : List Entry)
    → log_bytes (bs ++ (es ∷ [])) ≡ log_bytes bs ++ serialize_entries es
unfolding log_bytes
log_bytes-snoc [] es = append-nil (serialize_entries es)
log_bytes-snoc (b ∷ bs) es =
    rw (log_bytes-snoc bs es)
      (sym (append_assoc (serialize_entries b) (log_bytes bs) (serialize_entries es)))

-- A log of batches whose lengths fit Go's types replays to all their entries, in order.
pub replay-logged :
    (bs : List (List Entry)) (w : Wal) → All IsGoBatch bs → Holds bs w → replay w ≡ ok (logged bs)
unfolding replay strip_version
replay-logged bs w h (m, at, c, here) = rw (
  in_map,
  here,
  none_behind,
  append-nil w.mapped,
  take_of_length-le w.write_at w.mapped (omega arith),
  m,
  enough,
)
  where
    in_map : ltb w.cap w.write_at ≡ false
    in_map = ground arith

    none_behind : w.write_at - length w.mapped ≡ 0
    none_behind = omega arith

    log : Bytes
    log = log_bytes bs

    spare : ℕ
    spare = length log - length bs

    enough : replay_loop (length log) log ≡ ok (logged bs)
    enough =
        ap (λ n. replay_loop n log) (let p = length-log_bytes bs in omega arith)
        ∙ (ap (replay_loop (length bs + spare)) (sym (append-nil log))
            ∙ replay_loop-log_bytes spare bs [] h (replay_loop-zeros spare 0))

-- The mapping that a write leaves, and the log with it.
abbrev room_for : Bytes → Wal → ℕ
room_for buf w =
    let need = w.write_at + length buf in
    if ltb w.cap need then double_to need need (w.cap * 2) else w.cap

abbrev pub written : Bytes → Wal → Wal
written buf w = record w {
  mapped = w.mapped ++ buf;
  cap = room_for buf w;
  write_at = w.write_at + length buf;
}

room_for-le : (buf : Bytes) (w : Wal) → 0 < w.cap → w.write_at + length buf ≤ room_for buf w
room_for-le buf w h =
    let need = w.write_at + length buf in
    let p = double_to_lem need need (w.cap * 2) (omega arith) (omega arith) in ground arith

-- A write to a log that is mapped.
module _ (buf : Bytes) (w : Wal) (h : 0 < w.cap) where
  abbrev pub new_size : ℕ
  new_size = double_to (w.write_at + length buf) (w.write_at + length buf) (w.cap * 2)

  abbrev is_full : Bool
  is_full = ltb w.cap (w.write_at + length buf)

  not_empty : (w.cap == 0) ≡ false
  not_empty = ground arith

  grown : is_full ≡ true → w.write_at + length buf ≤ new_size
  grown more = let p = room_for-le buf w h in rw more at p

  not_past : (c : ℕ) → w.write_at + length buf ≤ c → ltb c w.write_at ≡ false
  not_past c le = ground arith

  all_of : (c : ℕ) → w.write_at + length buf ≤ c → take (c - w.write_at) buf ≡ buf
  all_of c le = take_of_length-le (c - w.write_at) buf (omega arith)

  -- It is whole, or the file and the position are as they were.
  pub write_to_mmap-cases :
      (os : Os)
      → w.mapping ≡ live
      → (write_to_mmap os buf w ≡ ok (written buf w, none))
        ⊎ ((m : Mapping) × (write_to_mmap os buf w ≡ ok (record w { mapping = m }, some os_error))
            × ((os.munmap_ok && (os.truncate_ok new_size && os.mmap_ok new_size)) ≡ false))
  unfolding write_to_mmap grow munmap
  write_to_mmap-cases os here = elim (Bool-cases is_full) [
    | inl more ↦ elim (Bool-cases os.munmap_ok) [
      | inl u ↦ elim (Bool-cases (os.truncate_ok new_size && os.mmap_ok new_size)) [
        | inl t ↦ inl (
            rw
              (
                more,
                here,
                not_empty,
                u,
                t,
                not_past new_size (grown more),
                all_of new_size (grown more),
              )
              refl)
        | inr f ↦ inr (stale, (rw (more, here, not_empty, u, f) refl), (rw (u, f) refl))
      ]
      | inr f ↦ inr (w.mapping, (rw (more, not_empty, here, f) refl), (rw f refl))
    ]
    | inr same ↦
        let le : w.write_at + length buf ≤ w.cap = ground arith in
        inl (rw (same, not_past w.cap le, here, all_of w.cap le) refl)
  ]

  write_to_mmap_lem :
      (os : Os) → Grows os → w.mapping ≡ live → write_to_mmap os buf w ≡ ok (written buf w, none)
  write_to_mmap_lem os (u, t, m) here = elim (write_to_mmap-cases os here) [
    | inl done ↦ done
    | inr (x, e, f) ↦ let p : true ≡ false = rw (u, t new_size, m new_size) at f in cc
  ]

module _ (submit : Bytes → Option Error) (os : Os) (buf : Bytes) (w : Wal) where
  pub append_raw_always :
      w.mode ≡ sync_always
      → append_raw submit os buf w
        ≡ (write_to_mmap os buf w >>= λ p. unless_failed p (λ w'. synced os w'))
  append_raw_always e = unfold append_raw in rw e refl

  pub append_raw_async :
      w.mode ≡ sync_async
      → append_raw submit os buf w
        ≡ (write_to_mmap os buf w >>= λ p. unless_failed p (λ w'. ok (w', w'.flush_err)))
  append_raw_async e = unfold append_raw in rw e refl

  pub append_raw_periodic :
      w.mode ≡ sync_periodic
      → append_raw submit os buf w ≡ (
          write_to_mmap os buf w >>= λ p. unless_failed p (λ w'.
            if leb 100 (w'.pending + 1)
            then synced os (record w' { pending = 0 })
            else ok (record w' { pending = w'.pending + 1 }, none)))
  append_raw_periodic e = unfold append_raw in rw e refl

-- What an append leaves whose write is whole.
pub append_batch-wrote :
    (submit : Bytes → Option Error) (os : Os) (bs : List (List Entry)) (es : List Entry) (w : Wal)
    → write_to_mmap os (serialize_entries es) w ≡ ok (written (serialize_entries es) w, none)
    → w.mode ≢ sync_iouring
    → Holds bs w
    → (w' : Wal) × ((e : Option Error) × ((append_batch submit os es w ≡ ok (w', e))
          × (Holds (bs ++ (es ∷ [])) w' × (w'.mode ≡ w.mode))))
append_batch-wrote submit os bs es w writes m (mp, at, c, here) = by_mode w.mode refl
  where
    buf : Bytes
    buf = serialize_entries es

    some_room : 0 < w.cap
    some_room = let p = ap length mp in omega arith

    holds : Holds (bs ++ (es ∷ [])) (written buf w)
    holds = (
      ap (λ m. m ++ buf) mp ∙ ap (◌∷◌ wal_version) (sym (log_bytes-snoc bs es)),
      (let p = length-append w.mapped buf in omega arith),
      room_for-le buf w some_room,
      here,
    )

    after_sync : Option Error
    after_sync = if os.sync_ok then none else some os_error

    by_mode :
        (mode : SyncMode)
        → w.mode ≡ mode
        → (w' : Wal) × ((e : Option Error) × ((append_batch submit os es w ≡ ok (w', e))
              × (Holds (bs ++ (es ∷ [])) w' × (w'.mode ≡ w.mode))))
    by_mode sync_iouring e = absurd (m e)
    by_mode sync_async e = (
      written buf w,
      (
        w.flush_err,
        (unfold append_batch in append_raw_async submit os buf w e ∙ rw writes refl, (holds, refl)),
      ),
    )
    by_mode sync_periodic e = elim (Bool-cases (leb 100 (w.pending + 1))) [
      | inl due ↦ (
        record (written buf w) { pending = 0 },
        (
          after_sync,
          (
            unfold append_batch in append_raw_periodic submit os buf w e ∙ rw (writes, due) refl,
            (holds, refl),
          ),
        ),
      )
      | inr early ↦ (
        record (written buf w) { pending = w.pending + 1 },
        (
          none,
          (
            unfold append_batch in append_raw_periodic submit os buf w e ∙ rw (writes, early) refl,
            (holds, refl),
          ),
        ),
      )
    ]
    by_mode sync_always e = (
      written buf w,
      (
        after_sync,
        (
          unfold append_batch in append_raw_always submit os buf w e ∙ rw writes refl,
          (holds, refl),
        ),
      ),
    )

-- Where the calls that grow the mapping succeed, and in every mode but io_uring, `AppendBatch` returns and
-- leaves a log of the old batches and the new one, in the same mode, whether the sync succeeds or not.
pub append_batch-Holds :
    (submit : Bytes → Option Error) (os : Os) (bs : List (List Entry)) (es : List Entry) (w : Wal)
    → Grows os
    → w.mode ≢ sync_iouring
    → Holds bs w
    → (w' : Wal) × ((e : Option Error) × ((append_batch submit os es w ≡ ok (w', e))
          × (Holds (bs ++ (es ∷ [])) w' × (w'.mode ≡ w.mode))))
append_batch-Holds submit os bs es w g m (mp, at, c, here) =
    let some_room : 0 < w.cap = let p = ap length mp in omega arith in
    append_batch-wrote submit os bs es w
      (write_to_mmap_lem (serialize_entries es) w some_room os g here) m (mp, at, c, here)
