-- ===== src/Lsm/Kept.antt =====
-- Put, PutBatch, Delete and flushMemtable, and the invariant of the tree.
use lsm_tree_go.Common.{
  ℕ, ◌*◌, ◌≡◌, refl, Bool, true, Option, none, some, List, [], ◌∷◌, length, ltb, leb, ◌==◌,
  Bool-cases, Option-cases, inl, inr,
}
use lsm_tree_go.Common.Int.{ℤ}
use lsm_tree_go.Common.Keys.{Bytes}
use lsm_tree_go.Common.Outcome.{Error, Outcome}
use lsm_tree_go.Common.Ensures.{Ensures->>=, Ensures-on_fail, Ensures-any}
use lsm_tree_go.MemTable
use lsm_tree_go.MemTable.{Entry, MemTable}
use lsm_tree_go.MemTable.Laws
use lsm_tree_go.MemTable.Laws.{put-IsValid, delete-IsValid, new-IsValid}
use lsm_tree_go.MemTable.Sorted.{entries-IsValid}
use lsm_tree_go.SsTable.Writer.{Os}
use lsm_tree_go.Wal
use lsm_tree_go.Wal.{Wal}
use lsm_tree_go.Lsm.{Lsm, KeyValue, batch_log, batch_entries, reinsert, write_batch, delete}
use lsm_tree_go.Lsm.Writes.{batch_log_lem, put_all-reinsert}
use lsm_tree_go.Lsm.Manifest.{write_manifest}
use lsm_tree_go.Lsm.Compact.{level_at, attach, open_quickly}
use lsm_tree_go.Lsm.Consistent.{
  IsConsistent, Leaves, attach-IsConsistent, and_then-Leaves, write_manifest-IsConsistent,
}
use lsm_tree_go.Lsm.Rounds.{compact_l0_to_l1-Leaves}
use lsm_tree_go.Lsm.Flush.{
  flush_path, write_table, reset_wal, publish, after_reset, flush_memtable, put_batch,
}

abbrev IsTree : Lsm × Option Error → Type 0
IsTree q = IsConsistent q.0

pub reinsert-IsValid :
    (es : List Entry) (t : MemTable) → Laws.IsValid t → Laws.IsValid (reinsert es t)
unfolding reinsert
reinsert-IsValid [] t h = h
reinsert-IsValid (e ∷ es) t h = elim (Bool-cases e.tombstone) [
  | inl dead ↦ rw dead (
      reinsert-IsValid es (MemTable.delete e.key e.timestamp t)
        (delete-IsValid e.key e.timestamp t h))
  | inr alive ↦ rw alive (
      reinsert-IsValid es (MemTable.put e.key e.value e.timestamp t)
        (put-IsValid e.key e.value e.timestamp t h))
]

reset_wal-Leaves :
    (os : Os) (ring_ok : Bool) (l : Lsm) → IsConsistent l → Leaves (reset_wal os ring_ok l)
reset_wal-Leaves os ring_ok l c = by_wal l.wal refl
  where
    by_wal : (w : Option Wal) → l.wal ≡ w → Leaves (reset_wal os ring_ok l)
    by_wal none e = unfold reset_wal in rw e c
    by_wal (some w) e =
        unfold reset_wal in
        rw e (
          Ensures->>= (λ x. Unit {0}) IsTree (Wal.reset os ring_ok w) _
            (Ensures-any (Wal.reset os ring_ok w)) (λ p u. c))

publish-Leaves : (os : Os) (path : Bytes) (l : Lsm) → IsConsistent l → Leaves (publish os path l)
unfolding publish
publish-Leaves os path l c =
    Ensures-on_fail (λ x. Unit {0}) IsTree (open_quickly os path l.disk) _ _
      (Ensures-any (open_quickly os path l.disk)) (λ e. c)
      (λ sst u.
        Ensures->>= IsConsistent IsTree (attach 0 sst l) _ (attach-IsConsistent 0 sst l c) (λ l' d.
          and_then-Leaves (write_manifest os l') _ (write_manifest-IsConsistent os l' d) (λ l'' e.
            let signalled : Lsm = record l'' { signalled = true } in
            let s : IsConsistent signalled = e in
            Ensures->>= (λ x. Unit {0}) IsTree (level_at 0 signalled) _
              (Ensures-any (level_at 0 signalled))
              (λ files u. elim (Bool-cases (ltb (l''.max_l0_files * 2) (length files))) [
                | inl many ↦ rw many (compact_l0_to_l1-Leaves os signalled s)
                | inr few ↦ rw few s
              ]))))

after_reset-Leaves :
    (os : Os) (path : Bytes) (l : Lsm) (e : Option Error)
    → IsConsistent l
    → Leaves (after_reset os path l e)
unfolding after_reset
after_reset-Leaves os path l (some e) c = c
after_reset-Leaves os path l none c = publish-Leaves os path l c

-- flushMemtable leaves a consistent tree, whether it ends with an error or not.
pub flush_memtable-Leaves :
    (os : Os) (ring_ok : Bool) (l : Lsm) → IsConsistent l → Leaves (flush_memtable os ring_ok l)
unfolding flush_memtable
flush_memtable-Leaves os ring_ok l c = elim (Bool-cases (MemTable.count l.memtable == 0)) [
  | inl empty ↦ rw empty c
  | inr full ↦ rw full (
      Ensures-on_fail (λ x. Unit {0}) IsTree writing _ _ (Ensures-any writing)
        (λ e. record {
          sizes = c.sizes;
          counted = c.counted;
          valid = entries-IsValid l.memtable c.valid;
        })
        (λ p u.
          Ensures->>= IsTree IsTree (reset_wal os ring_ok _) _
            (reset_wal-Leaves os ring_ok _
              (record { sizes = c.sizes; counted = c.counted; valid = new-IsValid }))
            (λ q d. after_reset-Leaves os (flush_path l) q.0 q.1 d)))
]
  where
    writing : Outcome (Bytes × ℕ)
    writing = write_table os (flush_path l) (MemTable.entries l.memtable).0

write_batch-Leaves :
    (submit : Bytes → Option Error) (os : Os) (ts : ℤ) (kvs : List KeyValue) (l : Lsm)
    → IsConsistent l
    → Leaves (write_batch submit os ts kvs l)
unfolding write_batch
write_batch-Leaves submit os ts [] l c = c
write_batch-Leaves submit os ts (kv ∷ kvs) l c = by_wal l.wal refl
  where
    filled : Laws.IsValid (batch_log ts (kv ∷ kvs) l.memtable).1
    filled =
        rw (batch_log_lem ts (kv ∷ kvs) l.memtable)
          (reinsert-IsValid (batch_entries ts 0 (kv ∷ kvs)) l.memtable c.valid)

    by_wal : (w : Option Wal) → l.wal ≡ w → Leaves (write_batch submit os ts (kv ∷ kvs) l)
    by_wal none e =
        unfold write_batch in
        rw e (record {
          sizes = c.sizes;
          counted = c.counted;
          valid =
              rw (put_all-reinsert ts 0 (kv ∷ kvs) l.memtable)
                (reinsert-IsValid (batch_entries ts 0 (kv ∷ kvs)) l.memtable c.valid);
        })
    by_wal (some w) e =
        unfold write_batch in
        rw e (
          Ensures->>= (λ x. Unit {0}) IsTree
            (Wal.append_raw submit os (batch_log ts (kv ∷ kvs) l.memtable).0 w) _
            (Ensures-any (Wal.append_raw submit os (batch_log ts (kv ∷ kvs) l.memtable).0 w))
            (λ (w', r) u. elim (Option-cases r) [
              | inl n ↦ rw n (record { sizes = c.sizes; counted = c.counted; valid = filled })
              | inr (x, s) ↦ rw s (record { sizes = c.sizes; counted = c.counted; valid = filled })
            ]))

-- PutBatch leaves a consistent tree, with the flush that it may end with.
pub put_batch-Leaves :
    (submit : Bytes → Option Error) (os : Os) (ring_ok : Bool) (ts : ℤ) (kvs : List KeyValue)
    (l : Lsm)
    → IsConsistent l
    → Leaves (put_batch submit os ring_ok ts kvs l)
unfolding put_batch
put_batch-Leaves submit os ring_ok ts [] l c = c
put_batch-Leaves submit os ring_ok ts (kv ∷ kvs) l c =
    Ensures->>= IsTree IsTree (write_batch submit os ts (kv ∷ kvs) l) _
      (write_batch-Leaves submit os ts (kv ∷ kvs) l c)
      (λ p d. and_then-Leaves p _ d (λ l' e.
        elim (Bool-cases (leb l'.flush_threshold (MemTable.size l'.memtable))) [
          | inl full ↦ rw full (flush_memtable-Leaves os ring_ok l' e)
          | inr room ↦ rw room e
        ]))

-- Delete leaves a consistent tree.
pub delete-Leaves :
    (submit : Bytes → Option Error) (os : Os) (ts : ℤ) (key : Bytes) (l : Lsm)
    → IsConsistent l
    → Leaves (delete submit os ts key l)
delete-Leaves submit os ts key l c = by_wal l.wal refl
  where
    gone : Laws.IsValid (MemTable.delete key ts l.memtable)
    gone = delete-IsValid key ts l.memtable c.valid

    by_wal : (w : Option Wal) → l.wal ≡ w → Leaves (delete submit os ts key l)
    by_wal none e =
        unfold delete in rw e (record { sizes = c.sizes; counted = c.counted; valid = gone })
    by_wal (some w) e =
        unfold delete in
        rw e (
          Ensures->>= (λ x. Unit {0}) IsTree (Wal.append_entry submit os _ w) _
            (Ensures-any (Wal.append_entry submit os _ w))
            (λ (w', r) u. elim (Option-cases r) [
              | inl n ↦ rw n (record { sizes = c.sizes; counted = c.counted; valid = gone })
              | inr (x, s) ↦ rw s c
            ]))
