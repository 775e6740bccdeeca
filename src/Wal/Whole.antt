-- ===== src/Wal/Whole.antt =====
-- What AppendBatch and Reset of internal/wal/wal.go leave of a log, whatever the system calls answer.
use lsm_tree_go.Common.{
  ◌+◌, ◌<◌, ◌≡◌, ◌≢◌, ◌⊎◌, inl, inr, refl, ap, ◌∙◌, Bool, true, ◌&&◌, Option, none, some, List, [],
  ◌∷◌, ◌++◌, length, ltb, arith, Bool-cases,
}
use lsm_tree_go.Common.Keys.{Bytes}
use lsm_tree_go.Common.Outcome.{Error, ok, panic, os_error}
use lsm_tree_go.MemTable.{Entry}
use lsm_tree_go.SsTable.Writer.{Os}
use lsm_tree_go.Wal.{
  Wal, live, absent, munmap, SyncMode, sync_always, sync_periodic, sync_async, sync_iouring,
  serialize_entries, wal_version, grow, initial_mmap_size, write_to_mmap, append_batch, reset,
}
use lsm_tree_go.Wal.Replay.{log_bytes}
use lsm_tree_go.Wal.Appends.{
  Holds, serialize_entries-length, write_to_mmap-cases, append_raw_always, append_raw_async,
  append_raw_periodic, append_batch-wrote,
}

-- A write that fails ends the append.
append_batch-ended :
    (submit : Bytes → Option Error) (os : Os) (es : List Entry) (w w' : Wal)
    → w.mode ≢ sync_iouring
    → write_to_mmap os (serialize_entries es) w ≡ ok (w', some os_error)
    → append_batch submit os es w ≡ ok (w', some os_error)
append_batch-ended submit os es w w' m failed = by_mode w.mode refl
  where
    by_mode :
        (mode : SyncMode) → w.mode ≡ mode → append_batch submit os es w ≡ ok (w', some os_error)
    by_mode sync_iouring e = absurd (m e)
    by_mode sync_always e =
        unfold append_batch in
        append_raw_always submit os (serialize_entries es) w e ∙ rw failed refl
    by_mode sync_periodic e =
        unfold append_batch in
        append_raw_periodic submit os (serialize_entries es) w e ∙ rw failed refl
    by_mode sync_async e =
        unfold append_batch in
        append_raw_async submit os (serialize_entries es) w e ∙ rw failed refl

-- In every mode but io_uring, and whatever the system calls answer, `AppendBatch` of a mapped log returns; and the
-- log holds the old batches and the new one, or an error was returned, and the file and the position in it
-- are as they were.
pub append_batch-whole :
    (submit : Bytes → Option Error) (os : Os) (bs : List (List Entry)) (es : List Entry) (w : Wal)
    → w.mode ≢ sync_iouring
    → Holds bs w
    → (w' : Wal) × (e : Option Error) × (append_batch submit os es w ≡ ok (w', e))
      × (w'.mode ≡ w.mode)
      × (Holds (bs ++ (es ∷ [])) w'
          ⊎ ((e ≢ none) × (w'.mapped ≡ w.mapped) × (w'.write_at ≡ w.write_at)))
append_batch-whole submit os bs es w m (mp, at, c, here) =
    let some_room : 0 < w.cap = let p = ap length mp in omega arith in
    elim (write_to_mmap-cases (serialize_entries es) w some_room os here) [
      | inl done ↦
          let (w', (e, (r, (holds, same)))) =
            append_batch-wrote submit os bs es w done m (mp, at, c, here) in
          (w', e, r, same, inl holds)
      | inr (x, failed, f) ↦ (
        record w { mapping = x },
        some os_error,
        append_batch-ended submit os es w (record w { mapping = x }) m failed,
        refl,
        inr ((λ p. cc), refl, refl),
      )
    ]

-- A log without a mapping takes no bytes: the loop that doubles its size does not end.
append_batch-stuck :
    (submit : Bytes → Option Error) (os : Os) (es : List Entry) (w : Wal)
    → w.mode ≢ sync_iouring
    → w.cap ≡ 0
    → append_batch submit os es w ≡ panic
append_batch-stuck submit os es w m none_left = by_mode w.mode refl
  where
    stuck : write_to_mmap os (serialize_entries es) w ≡ panic
    stuck =
        let some_bytes = serialize_entries-length es in
        let full : ltb 0 (w.write_at + length (serialize_entries es)) ≡ true = ground arith in
        unfold write_to_mmap grow in rw (none_left, full) refl

    by_mode : (mode : SyncMode) → w.mode ≡ mode → append_batch submit os es w ≡ panic
    by_mode sync_iouring e = absurd (m e)
    by_mode sync_always e =
        unfold append_batch in
        append_raw_always submit os (serialize_entries es) w e ∙ rw stuck refl
    by_mode sync_periodic e =
        unfold append_batch in
        append_raw_periodic submit os (serialize_entries es) w e ∙ rw stuck refl
    by_mode sync_async e =
        unfold append_batch in append_raw_async submit os (serialize_entries es) w e ∙ rw stuck refl

module _ (os : Os) (ring_ok : Bool) (w : Wal) where
  -- What Reset of the log leaves.
  abbrev pub IsReset : Type 0
  IsReset =
      (w' : Wal) × (e : Option Error) × (reset os ring_ok w ≡ ok (w', e))
      × (((e ≡ none) × Holds [] w')
          ⊎ ((e ≡ some os_error) × (w' ≡ w))
          ⊎ ((e ≡ some os_error)
              × ((submit : Bytes → Option Error) (os' : Os) (es : List Entry)
                  → append_batch submit os' es w' ≡ panic)))

  -- In every mode but io_uring, and whatever the system calls answer, `Reset` of a mapped log returns; and the log
  -- holds no batches, or an error was returned and the log is as it was, or an error was returned and no later
  -- `AppendBatch` to the log returns, for the slice of its mapping is empty and its doubling does not end.
  pub reset_lem : w.mode ≢ sync_iouring → w.mapping ≡ live → IsReset
  unfolding reset munmap
  reset_lem m here = elim (Bool-cases os.munmap_ok) [
    | inr f ↦ (w, some os_error, (rw (here, f) refl), inr (inl (refl, refl)))
    | inl u ↦ elim (Bool-cases (os.truncate_ok 0)) [
      | inr f ↦ lost w.mapped (rw (here, u, f) refl)
      | inl t ↦ elim (Bool-cases (os.seek_ok && os.write_ok)) [
        | inr f ↦ lost [] (rw (here, u, t, f) refl)
        | inl v ↦
            elim (Bool-cases (os.truncate_ok initial_mmap_size && os.mmap_ok initial_mmap_size)) [
              | inr f ↦ lost (wal_version ∷ []) (rw (here, u, t, v, f) refl)
              | inl n ↦ (
                emptied,
                none,
                all_done u t v n w.mode refl,
                inl (refl, ((unfold log_bytes in refl), refl, omega arith, refl)),
              )
            ]
      ]
    ]
  ]
    where
      emptied : Wal
      emptied = record w {
        mapped = wal_version ∷ [];
        mapping = live;
        cap = initial_mmap_size;
        write_at = 1;
      }

      left : Bytes → Wal
      left file = record w { mapped = file; mapping = absent; cap = 0 }

      lost : (file : Bytes) → reset os ring_ok w ≡ ok (left file, some os_error) → IsReset
      lost file e = (
        left file,
        some os_error,
        e,
        inr (inr (refl, λ submit os' es. append_batch-stuck submit os' es (left file) m refl)),
      )

      all_done :
          os.munmap_ok ≡ true
          → os.truncate_ok 0 ≡ true
          → (os.seek_ok && os.write_ok) ≡ true
          → (os.truncate_ok initial_mmap_size && os.mmap_ok initial_mmap_size) ≡ true
          → (mode : SyncMode) → w.mode ≡ mode
          → reset os ring_ok w ≡ ok (emptied, none)
      all_done u t v n sync_iouring e = absurd (m e)
      all_done u t v n sync_always e = rw (here, u, t, v, n, e) refl
      all_done u t v n sync_periodic e = rw (here, u, t, v, n, e) refl
      all_done u t v n sync_async e = rw (here, u, t, v, n, e) refl
