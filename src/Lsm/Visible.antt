-- ===== src/Lsm/Visible.antt =====
-- What Get reads after a write whose log record failed.
use lsm_tree_go.Common.{Bool, ◌≡◌, refl, ap, ◌∙◌, Option, some, List, [], ◌∷◌}
use lsm_tree_go.Common.Int.{ℤ, add_ℕ}
use lsm_tree_go.Common.Keys.{Bytes, key_eq_refl}
use lsm_tree_go.Common.Outcome.{Error, ok}
use lsm_tree_go.MemTable
use lsm_tree_go.MemTable.{MemTable}
use lsm_tree_go.MemTable.Laws.{get-put, written}
use lsm_tree_go.SsTable.Writer.{Os}
use lsm_tree_go.Wal.{Wal, append_raw}
use lsm_tree_go.Lsm.{Lsm, KeyValue, get, batch_log, batch_entries, reinsert, write_batch}
use lsm_tree_go.Lsm.Writes.{batch_log_lem}
use lsm_tree_go.Lsm.Flush.{put_batch, put}

-- What the memtable gives after a batch of one.
get-batch_log :
    (ts : ℤ) (key value : Bytes) (t : MemTable)
    → MemTable.get key (batch_log ts (record { key = key; value = value } ∷ []) t).1
      ≡ some (written key value (add_ℕ ts 0))
get-batch_log ts key value t =
    let kv : KeyValue = record { key = key; value = value } in
    ap (λ p. MemTable.get key p.1) (batch_log_lem ts (kv ∷ []) t)
    ∙ (unfold batch_entries reinsert in
        get-put key key value (add_ℕ ts 0) t ∙ rw (key_eq_refl key) refl)

-- A Put whose log record fails returns the error, and the value that it was to store is read all the same.
pub get-put_failed :
    (submit : Bytes → Option Error) (os : Os) (ring_ok : Bool) (ts : ℤ) (key value : Bytes)
    (l : Lsm) (w w' : Wal) (e : Error)
    → l.wal ≡ some w
    → append_raw submit os (batch_log ts (record { key = key; value = value } ∷ []) l.memtable).0 w
      ≡ ok (w', some e)
    → (l' : Lsm) × (put submit os ring_ok ts key value l ≡ ok (l', some e))
      × (get key l' ≡ ok (some value, l'))
get-put_failed submit os ring_ok ts key value l w w' e logged failed = (l', returned, read)
  where
    batch : List KeyValue
    batch = record { key = key; value = value } ∷ []

    l' : Lsm
    l' = record l { memtable = (batch_log ts batch l.memtable).1; wal = some w' }

    returned : put submit os ring_ok ts key value l ≡ ok (l', some e)
    returned = unfold put put_batch write_batch in rw (logged, failed) refl

    read : get key l' ≡ ok (some value, l')
    read = unfold get in rw (get-batch_log ts key value l.memtable) refl
