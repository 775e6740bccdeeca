-- ===== src/Lsm/Answers.antt =====
-- What each call of internal/lsm/lsm.go does to what Get answers.
use lsm_tree_go.Common.{
  ℕ, ◌+◌, ◌*◌, ◌<◌, ◌≡◌, refl, sym, ap, ◌∙◌, Bool, true, Option, none, some, List, [], ◌∷◌, length,
  leb, if◌then◌else◌, Bool-cases, Option-cases, inl, inr,
}
use lsm_tree_go.Common.Int.{ℤ, add_ℕ}
use lsm_tree_go.Common.Keys.{Bytes, key_eq}
use lsm_tree_go.Common.Ensures.{Ensures, Ensures->>=, Ensures-any}
use lsm_tree_go.Common.Map.{lookup}
use lsm_tree_go.Common.Outcome.{Error, Outcome, ok, fail, panic, ◌>>=◌, Outcome-eq_of_ok}
use lsm_tree_go.MemTable
use lsm_tree_go.MemTable.{Entry, MemTable}
use lsm_tree_go.MemTable.Laws.{get-put, get-delete, tombstone_for}
use lsm_tree_go.SsTable.Writer.{Os}
use lsm_tree_go.SsTable.Reader.{SsTable}
use lsm_tree_go.SsTable.Reader.Lookup.{reaches_key}
use lsm_tree_go.Wal
use lsm_tree_go.Wal.{Wal, sync_iouring}
use lsm_tree_go.Lsm.Writes.{IsPlain}
use lsm_tree_go.Lsm.{
  Lsm, KeyValue, visible, batch_entries, reinsert, batch_log, write_batch, delete, get,
  search_levels,
}
use lsm_tree_go.Lsm.Consistent.{IsConsistent}
use lsm_tree_go.Lsm.Compact.{and_then}
use lsm_tree_go.Lsm.Flush.{flush_memtable, put_batch}
use lsm_tree_go.Lsm.Flushed.{IsRunning}
use lsm_tree_go.Lsm.Reads.{ServesAll, ServesLevels, first_in}
use lsm_tree_go.Lsm.Searched.{answer, answer_found, answer_below}
use lsm_tree_go.Lsm.Served.{get-flush_memtable}
use lsm_tree_go.Lsm.Stored.{IsBatch}
use lsm_tree_go.Lsm.Writes.{batch_log_lem, put_all-reinsert}

-- What a map answers after pairs were put, given what it answered before.
unfoldable pub after_put : Bytes → List KeyValue → Outcome (Option Bytes) → Outcome (Option Bytes)
after_put key [] before = before
after_put key (kv ∷ kvs) before =
    after_put key kvs (if key_eq kv.key key then ok (some kv.value) else before)

-- A flush after which the key is read as before: see `Lsm.Served`.
pub record IsFlushable (key : Bytes) (l : Lsm) : Type 0 where
  pub files : List SsTable
  pub below : List (List SsTable)
  pub ess : List (List Entry)
  pub lss : List (List (List Entry))
  pub consistent : IsConsistent l
  pub split : l.levels ≡ files ∷ below
  pub room : length files < l.max_l0_files * 2
  pub batch : IsBatch (MemTable.entries l.memtable).0
  pub plain : (w : Wal) → l.wal ≡ some w → IsPlain w
  pub above : ServesAll key files ess
  pub under : ServesLevels key below lss
  pub fresh : first_in key ess ≡ none
  pub reaches : reaches_key key (MemTable.entries l.memtable).0 ≡ true

-- What the end of a PutBatch is allowed: where the memtable has grown to the threshold, its flush.
abbrev pub FlushesFor : Bytes → Os → Lsm → Type 0
FlushesFor key os l =
    leb l.flush_threshold (MemTable.size l.memtable) ≡ true → IsRunning os × IsFlushable key l

-- What the memtable has, over what is below it.
abbrev in_memtable : Option Entry → Outcome (Option Bytes) → Outcome (Option Bytes)
in_memtable none below = below
in_memtable (some e) below = ok (visible e)

module _ (key : Bytes) where
  after_reinsert :
      (ts : ℤ) (i : ℕ) (kvs : List KeyValue) (t : MemTable) (below : Outcome (Option Bytes))
      → in_memtable (MemTable.get key (reinsert (batch_entries ts i kvs) t)) below
        ≡ after_put key kvs (in_memtable (MemTable.get key t) below)
  unfolding reinsert batch_entries after_put
  after_reinsert ts i [] t below = refl
  after_reinsert ts i (kv ∷ kvs) t below =
      after_reinsert ts (i + 1) kvs (MemTable.put kv.key kv.value (add_ℕ ts i) t) below
      ∙ ap (after_put key kvs) put_one
    where
      put_one :
          in_memtable (MemTable.get key (MemTable.put kv.key kv.value (add_ℕ ts i) t)) below ≡ (
            if key_eq kv.key key
            then ok (some kv.value)
            else in_memtable (MemTable.get key t) below)
      put_one =
          rw (get-put kv.key key kv.value (add_ℕ ts i) t) (elim (Bool-cases (key_eq kv.key key)) [
            | inl same ↦ rw same refl
            | inr other ↦ rw other refl
          ])

  -- What the levels answer.
  base : Lsm → Outcome (Option Bytes)
  base l = answer key (record l { memtable = MemTable.new })

  answer-base : (l : Lsm) → answer key l ≡ in_memtable (MemTable.get key l.memtable) (base l)
  unfolding base
  answer-base l = elim (Option-cases (MemTable.get key l.memtable)) [
    | inl nothing ↦ rw nothing (
        answer_below key (record l { memtable = MemTable.new }) l refl refl
          (nothing ∙ (unfold MemTable.get lookup in refl)))
    | inr (e, found) ↦ rw found (answer_found key l e found)
  ]

  base-eq : (l l' : Lsm) → l'.levels ≡ l.levels → l'.num_levels ≡ l.num_levels → base l' ≡ base l
  unfolding base
  base-eq l l' p q =
      answer_below key (record l { memtable = MemTable.new })
        (record l' { memtable = MemTable.new }) p q refl

-- The levels are as they were, and the memtable is the given one.
abbrev Holds : Lsm → MemTable → Lsm → Type 0
Holds l t l' = (l'.memtable ≡ t) × (l'.levels ≡ l.levels) × (l'.num_levels ≡ l.num_levels)

write_batch-Holds :
    (submit : Bytes → Option Error) (os : Os) (ts : ℤ) (kvs : List KeyValue) (l : Lsm)
    → Ensures
        (λ q. Holds l (reinsert (batch_entries ts 0 kvs) l.memtable) q.0)
        (write_batch submit os ts kvs l)
unfolding write_batch
write_batch-Holds submit os ts [] l = unfold batch_entries reinsert in (refl, refl, refl)
write_batch-Holds submit os ts (kv ∷ kvs) l = elim (Option-cases l.wal) [
  | inl e ↦ rw e (put_all-reinsert ts 0 (kv ∷ kvs) l.memtable, refl, refl)
  | inr (w, e) ↦ rw e (
      Ensures->>= (λ x. Unit {0})
        (λ q. Holds l (reinsert (batch_entries ts 0 (kv ∷ kvs)) l.memtable) q.0)
        (Wal.append_raw submit os (batch_log ts (kv ∷ kvs) l.memtable).0 w) _
        (Ensures-any (Wal.append_raw submit os (batch_log ts (kv ∷ kvs) l.memtable).0 w))
        (λ (w', r) u.
          let filled = ap (λ p. p.1) (batch_log_lem ts (kv ∷ kvs) l.memtable) in
          elim (Option-cases r) [
            | inl n ↦ rw n (filled, refl, refl)
            | inr (x, s) ↦ rw s (filled, refl, refl)
          ]))
]

delete-Holds :
    (submit : Bytes → Option Error) (os : Os) (ts : ℤ) (k : Bytes) (l : Lsm)
    → Ensures
        (λ q. q.1 ≡ none → Holds l (MemTable.delete k ts l.memtable) q.0)
        (delete submit os ts k l)
unfolding delete
delete-Holds submit os ts k l = elim (Option-cases l.wal) [
  | inl e ↦ rw e (λ n. (refl, refl, refl))
  | inr (w, e) ↦ rw e (
      Ensures->>= (λ x. Unit {0}) (λ q. q.1 ≡ none → Holds l (MemTable.delete k ts l.memtable) q.0)
        (Wal.append_entry submit os (tombstone_for k ts) w) _
        (Ensures-any (Wal.append_entry submit os (tombstone_for k ts) w))
        (λ (w', r) u. elim (Option-cases r) [
          | inl n ↦ rw n (λ m. (refl, refl, refl))
          | inr (x, s) ↦ rw s (λ m. cc)
        ]))
]

get-Holds : (k : Bytes) (l : Lsm) → Ensures (λ q. Holds l l.memtable q.1) (get k l)
unfolding get
get-Holds k l = elim (Option-cases (MemTable.get k l.memtable)) [
  | inl nothing ↦ rw nothing (
      Ensures->>= (λ x. Unit {0}) (λ q. Holds l l.memtable q.1)
        (search_levels k l.num_levels l.levels l.stats) _
        (Ensures-any (search_levels k l.num_levels l.levels l.stats)) (λ p u. (refl, refl, refl)))
  | inr (e, found) ↦ rw found (refl, refl, refl)
]

-- A call whose next step ran returned no error.
invert :
    (r : Outcome (Lsm × Option Error)) (next : Lsm → Outcome (Lsm × Option Error)) (l' : Lsm)
    → (r >>= λ p. and_then p next) ≡ ok (l', none)
    → (m : Lsm) × (r ≡ ok (m, none)) × (next m ≡ ok (l', none))
invert (ok (m, none)) next l' h = (m, refl, h)
invert (ok (m, some e)) next l' h = cc
invert (fail e) next l' h = cc
invert panic next l' h = cc

module _ (key : Bytes) where
  answer-Holds :
      (l l' : Lsm) (t : MemTable)
      → Holds l t l'
      → answer key l' ≡ in_memtable (MemTable.get key t) (base key l)
  answer-Holds l l' t (m, p, q) =
      answer-base key l'
      ∙ (ap (λ u. in_memtable (MemTable.get key u) (base key l')) m
          ∙ ap (in_memtable (MemTable.get key t)) (base-eq key l l' p q))

  answer-wrote :
      (submit : Bytes → Option Error) (os : Os) (ts : ℤ) (kvs : List KeyValue) (l l' : Lsm)
      → write_batch submit os ts kvs l ≡ ok (l', none)
      → answer key l' ≡ after_put key kvs (answer key l)
  answer-wrote submit os ts kvs l l' h =
      let held : Holds l (reinsert (batch_entries ts 0 kvs) l.memtable) l' =
        rw h at (write_batch-Holds submit os ts kvs l) in
      answer-Holds l l' (reinsert (batch_entries ts 0 kvs) l.memtable) held
      ∙ (after_reinsert key ts 0 kvs l.memtable (base key l)
          ∙ ap (after_put key kvs) (sym (answer-base key l)))

  pub answer-deleted :
      (submit : Bytes → Option Error) (os : Os) (ts : ℤ) (k : Bytes) (l l' : Lsm)
      → delete submit os ts k l ≡ ok (l', none)
      → answer key l' ≡ (if key_eq k key then ok none else answer key l)
  answer-deleted submit os ts k l l' h =
      let held : none ≡ none → Holds l (MemTable.delete k ts l.memtable) l' =
        rw h at (delete-Holds submit os ts k l) in
      answer-Holds l l' (MemTable.delete k ts l.memtable) (held refl)
      ∙ rw (get-delete k key ts l.memtable) (elim (Bool-cases (key_eq k key)) [
        | inl same ↦ rw same refl
        | inr other ↦ rw other (sym (answer-base key l))
      ])

  answer-flushed :
      (os : Os) (ring_ok : Bool) (l l' : Lsm)
      → IsRunning os
      → IsFlushable key l
      → flush_memtable os ring_ok l ≡ ok (l', none)
      → answer key l' ≡ answer key l
  answer-flushed os ring_ok l l' run f h =
      let (sst, l1, reply, st, st1, done, emptied, placed, stored, listed, before, after) =
        get-flush_memtable os run ring_ok key l f.files f.below f.ess f.lss f.consistent f.split
          f.room f.batch f.plain f.above f.under f.fresh f.reaches in
      let same : l1 ≡ l' = ap (λ p. p.0) (Outcome-eq_of_ok _ _ (sym done ∙ h)) in
      rw (sym same, after, before) refl

  -- PutBatch: its write, and the flush that may come.
  pub answer-batched :
      (submit : Bytes → Option Error) (os : Os) (ring_ok : Bool) (ts : ℤ) (kvs : List KeyValue)
      (l l' : Lsm)
      → ((m : Lsm) → write_batch submit os ts kvs l ≡ ok (m, none) → FlushesFor key os m)
      → put_batch submit os ring_ok ts kvs l ≡ ok (l', none)
      → answer key l' ≡ after_put key kvs (answer key l)
  unfolding put_batch after_put
  answer-batched submit os ring_ok ts [] l l' f h =
      ap (λ q. answer key q.0) (sym (Outcome-eq_of_ok _ _ h))
  answer-batched submit os ring_ok ts (kv ∷ kvs) l l' f h =
      let (m, written, ended) = invert (write_batch submit os ts (kv ∷ kvs) l) _ l' h in
      let stored = answer-wrote submit os ts (kv ∷ kvs) l m written in
      elim (Bool-cases (leb m.flush_threshold (MemTable.size m.memtable))) [
        | inl full ↦
            let (run, flushable) = f m written full in
            answer-flushed os ring_ok m l' run flushable (rw full at ended) ∙ stored
        | inr room ↦
            ap (λ q. answer key q.0) (sym (Outcome-eq_of_ok _ _ (rw room at ended))) ∙ stored
      ]

  pub answer-read :
      (k : Bytes) (found : Option Bytes) (l l' : Lsm)
      → get k l ≡ ok (found, l')
      → answer key l' ≡ answer key l
  answer-read k found l l' h =
      let held : Holds l l.memtable l' = rw h at (get-Holds k l) in
      answer_below key l l' held.1 held.2 (ap (MemTable.get key) held.0)
