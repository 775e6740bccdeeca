-- ===== src/Lsm/Writes.antt =====
-- The log that PutBatch writes by hand is the one that the log's own serializer writes.
use lsm_tree_go.Common.{
  true, none, ℕ, ◌⊎◌, inl, inr, some, false, Bool, if◌then◌else◌, ◌≢◌, All, suc, ◌+◌, ◌≡◌, refl,
  sym, ap, List, [], ◌∷◌, ◌++◌, length,
}
use mathlib.Core.List.{append-nil, append_assoc}
use lsm_tree_go.Common.Int.{ℤ, add_ℕ}
use lsm_tree_go.Common.Keys.{Bytes}
use lsm_tree_go.Common.Varint.{uvarint_bytes, varint_bytes}
use lsm_tree_go.MemTable
use lsm_tree_go.MemTable.{Entry, MemTable}
use lsm_tree_go.SsTable.{string_bytes}
use lsm_tree_go.Common.Outcome.{ok}
use lsm_tree_go.SsTable.Writer.{Os}
use lsm_tree_go.Wal.Replay.{logged, IsGoBatch}
use lsm_tree_go.Wal.Appends.{Holds, Grows, replay-logged}
use lsm_tree_go.Wal.{
  live, munmap, wal_version, SyncMode, sync_always, sync_periodic, sync_async, initial_mmap_size,
  reset, Wal, sync_iouring, serialize_entries, batch_body, record_bytes,
}
use lsm_tree_go.Lsm.{
  put_all, Lsm, recover_wal, after_replay, KeyValue, batch_entries, put_rows, batch_log, reinsert,
}

put_rows_lem :
    (ts : ℤ) (i : ℕ) (kvs : List KeyValue) (buf : Bytes) (t : MemTable)
    → put_rows ts i kvs buf t
      ≡ (buf ++ batch_body (batch_entries ts i kvs), reinsert (batch_entries ts i kvs) t)
unfolding put_rows batch_entries batch_body reinsert
put_rows_lem ts i [] buf t = ap (λ b. (b, t)) (sym (append-nil buf))
put_rows_lem ts i (kv ∷ kvs) buf t =
    rw
      (
        row_bytes,
        put_rows_lem ts (i + 1) kvs (buf ++ record_bytes e)
            (MemTable.put kv.key kv.value (add_ℕ ts i) t),
        append_assoc buf (record_bytes e) (batch_body (batch_entries ts (i + 1) kvs)),
      )
      refl
  where
    e : Entry
    e = record { key = kv.key; value = kv.value; timestamp = add_ℕ ts i; tombstone = false }

    row_bytes :
        uvarint_bytes (length kv.key)
          ++ (kv.key
              ++ (uvarint_bytes (length kv.value)
                  ++ (kv.value ++ (varint_bytes (add_ℕ ts i) ++ (0 ∷ [])))))
        ≡ record_bytes e
    row_bytes = unfold record_bytes string_bytes in simp append_assoc

length-batch_entries :
    (ts : ℤ) (i : ℕ) (kvs : List KeyValue) → length (batch_entries ts i kvs) ≡ length kvs
unfolding batch_entries
length-batch_entries ts i [] = refl
length-batch_entries ts i (kv ∷ kvs) = ap suc (length-batch_entries ts (i + 1) kvs)

-- The bytes that PutBatch writes by hand are `serializeEntries` of its entries, and its memtable is the one
-- that reinserting these entries gives.
pub batch_log_lem :
    (ts : ℤ) (kvs : List KeyValue) (t : MemTable)
    → batch_log ts kvs t
      ≡ (serialize_entries (batch_entries ts 0 kvs), reinsert (batch_entries ts 0 kvs) t)
unfolding batch_log serialize_entries
batch_log_lem ts kvs t = rw (put_rows_lem ts 0 kvs [] t, length-batch_entries ts 0 kvs) refl

-- Without a log the memtable gets the same entries.
pub put_all-reinsert :
    (ts : ℤ) (i : ℕ) (kvs : List KeyValue) (t : MemTable)
    → put_all ts i kvs t ≡ reinsert (batch_entries ts i kvs) t
unfolding put_all batch_entries reinsert
put_all-reinsert ts i [] t = refl
put_all-reinsert ts i (kv ∷ kvs) t =
    put_all-reinsert ts (i + 1) kvs (MemTable.put kv.key kv.value (add_ℕ ts i) t)

reinsert-append :
    (es es' : List Entry) (t : MemTable) → reinsert (es ++ es') t ≡ reinsert es' (reinsert es t)
unfolding reinsert
reinsert-append [] es' t = refl
reinsert-append (e ∷ es) es' t = reinsert-append es es' (
    if e.tombstone
    then MemTable.delete e.key e.timestamp t
    else MemTable.put e.key e.value e.timestamp t)

-- Batches written to a log, one after the other, and to the memtable with it; `now` are the times
-- read from the clock.
unfoldable pub batches_of : List (ℤ × List KeyValue) → List (List Entry)
batches_of [] = []
batches_of ((ts, kvs) ∷ more) = batch_entries ts 0 kvs ∷ batches_of more

unfoldable pub put_batches : List (ℤ × List KeyValue) → MemTable → MemTable
put_batches [] t = t
put_batches ((ts, kvs) ∷ more) t = put_batches more (put_all ts 0 kvs t)

reinsert-logged :
    (bs : List (ℤ × List KeyValue)) (t : MemTable)
    → reinsert (logged (batches_of bs)) t ≡ put_batches bs t
unfolding logged batches_of put_batches
reinsert-logged [] t = unfold reinsert in refl
reinsert-logged ((ts, kvs) ∷ more) t =
    rw
      (
        reinsert-append (batch_entries ts 0 kvs) (logged (batches_of more)) t,
        put_all-reinsert ts 0 kvs t,
      )
      (reinsert-logged more (reinsert (batch_entries ts 0 kvs) t))

nil_or_cons : (es : List Entry) → (es ≡ []) ⊎ ((e : Entry) × (es' : List Entry) × (es ≡ e ∷ es'))
nil_or_cons [] = inl refl
nil_or_cons (e ∷ es) = inr (e, es, refl)

-- System calls that succeed in Reset.
abbrev pub Resets : Os → Type 0
Resets os = Grows os × (os.seek_ok ≡ true) × (os.write_ok ≡ true)

-- A log that is mapped and has no ring.
abbrev pub IsPlain : Wal → Type 0
IsPlain w = (w.mode ≢ sync_iouring) × (w.mapping ≡ live)

pub reset-ok :
    (os : Os) (ring_ok : Bool) (w : Wal)
    → Resets os
    → IsPlain w
    → (w' : Wal) × (reset os ring_ok w ≡ ok (w', none))
reset-ok os ring_ok w ((u, t, m), s, v) (n, here) = (emptied, all_of w.mode refl n)
  where
    emptied : Wal
    emptied = record w {
      mapped = wal_version ∷ [];
      mapping = live;
      cap = initial_mmap_size;
      write_at = 1;
    }

    all_of :
        (mode : SyncMode)
        → w.mode ≡ mode
        → mode ≢ sync_iouring
        → reset os ring_ok w ≡ ok (emptied, none)
    all_of sync_iouring e k = absurd (k refl)
    all_of sync_always e k =
        unfold reset munmap in
        rw (here, u, t 0, s, v, t initial_mmap_size, m initial_mmap_size, e) refl
    all_of sync_periodic e k =
        unfold reset munmap in
        rw (here, u, t 0, s, v, t initial_mmap_size, m initial_mmap_size, e) refl
    all_of sync_async e k =
        unfold reset munmap in
        rw (here, u, t 0, s, v, t initial_mmap_size, m initial_mmap_size, e) refl

-- Where the system calls of `Reset` succeed, and in every mode but io_uring, recovery from a log of batches
-- returns, and rebuilds the memtable that putting the batches one after the other gives.
pub recover_wal-put_batches :
    (os : Os) (ring_ok : Bool) (bs : List (ℤ × List KeyValue)) (w : Wal) (l : Lsm)
    → Resets os
    → w.mode ≢ sync_iouring
    → All IsGoBatch (batches_of bs)
    → Holds (batches_of bs) w
    → (l' : Lsm) × (recover_wal os ring_ok w l ≡ ok l') × (l'.memtable ≡ put_batches bs l.memtable)
recover_wal-put_batches os ring_ok bs w l g m h hw =
    let (w', done) = reset-ok os ring_ok w g (m, hw.3) in
    let again = replay-logged (batches_of bs) w h hw in
    let kept = reinsert-logged bs l.memtable in
    elim (nil_or_cons (logged (batches_of bs))) [
      | inl nil ↦ (
        record l { memtable = reinsert (logged (batches_of bs)) l.memtable },
        unfold recover_wal after_replay in rw (again, nil) refl,
        kept,
      )
      | inr (e, es, cons) ↦ (
        record l { memtable = reinsert (logged (batches_of bs)) l.memtable; wal = some w' },
        unfold recover_wal after_replay in rw (again, cons, done) refl,
        kept,
      )
    ]
