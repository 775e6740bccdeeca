-- ===== src/Lsm/Served.antt =====
-- What Get in internal/lsm/lsm.go reads before and after flushMemtable.
use lsm_tree_go.Common.{
  ◌*◌, ◌<◌, ◌≡◌, refl, sym, ap, ◌∙◌, Bool, true, Option, none, some, List, [], ◌∷◌, ◌++◌, length,
  set, Option-cases, inl, inr,
}
use lsm_tree_go.Common.Keys.{Bytes}
use lsm_tree_go.Common.Map.{lookup, insert}
use lsm_tree_go.Common.Outcome.{ok}
use lsm_tree_go.MemTable
use lsm_tree_go.MemTable.{Entry}
use lsm_tree_go.MemTable.Sorted.{find, entries-refines}
use lsm_tree_go.SsTable.Writer.{Os}
use lsm_tree_go.SsTable.Reader.{SsTable, all_entries}
use lsm_tree_go.SsTable.Reader.Scan.{all_entries-table}
use lsm_tree_go.SsTable.Reader.Opened.{table}
use lsm_tree_go.SsTable.Reader.Lookup.{reaches_key, get-find}
use lsm_tree_go.Wal.{Wal}
use lsm_tree_go.Lsm.Writes.{IsPlain}
use lsm_tree_go.Lsm.{Lsm, Stats, get}
use lsm_tree_go.Lsm.Consistent.{IsConsistent}
use lsm_tree_go.Lsm.Flush.{flush_path, flush_memtable}
use lsm_tree_go.Lsm.Flushed.{IsRunning, flush_memtable-ok}
use lsm_tree_go.Lsm.Stored.{IsBatch}
use lsm_tree_go.Lsm.Reads.{
  Serves, ServesAll, ServesLevels, or_else, first_in, first_below, shown, get_lem,
}

or_else-none : (o : Option Entry) → or_else o none ≡ o
or_else-none none = refl
or_else-none (some e) = refl

-- A table at the end of a level.
module _ (key : Bytes) (s : SsTable) (es : List Entry) where
  ServesAll-append :
      (files : List SsTable) (ess : List (List Entry))
      → ServesAll key files ess
      → Serves key s es
      → ServesAll key (files ++ s ∷ []) (ess ++ es ∷ [])
  ServesAll-append [] [] h g = (g, tt)
  ServesAll-append [] (x ∷ ess) h g = absurd h
  ServesAll-append (f ∷ files) [] h g = absurd h
  ServesAll-append (f ∷ files) (x ∷ ess) h g = (h.0, ServesAll-append files ess h.1 g)

  first_in-append :
      (ess : List (List Entry))
      → first_in key ess ≡ none
      → first_in key (ess ++ es ∷ []) ≡ find key es
  unfolding first_in
  first_in-append [] h = or_else-none (find key es)
  first_in-append (x ∷ ess) h = elim (Option-cases (find key x)) [
    | inl e ↦ rw e (first_in-append ess (rw e at h))
    | inr (y, e) ↦ let p : some y ≡ none = rw e at h in cc
  ]

  -- Once the memtable is empty the new table answers in its place.
  answer_moves :
      (ess : List (List Entry)) (lss : List (List (List Entry)))
      → first_in key ess ≡ none
      → or_else (find key es) (first_below key (ess ∷ lss))
        ≡ first_below key ((ess ++ es ∷ []) ∷ lss)
  unfolding first_below
  answer_moves ess lss h = rw (h, first_in-append ess h) refl

module _ (os : Os) (run : IsRunning os) (ring_ok : Bool) (key : Bytes) (l : Lsm)
    (files : List SsTable) (below : List (List SsTable)) (ess : List (List Entry))
    (lss : List (List (List Entry))) where
  pub get-flush_memtable :
      IsConsistent l
      → l.levels ≡ files ∷ below
      → length files < l.max_l0_files * 2
      → IsBatch (MemTable.entries l.memtable).0
      → ((w : Wal) → l.wal ≡ some w → IsPlain w)
      → ServesAll key files ess
      → ServesLevels key below lss
      → first_in key ess ≡ none
      → reaches_key key (MemTable.entries l.memtable).0 ≡ true
      → (sst : SsTable) × (l' : Lsm) × (answer : Option Bytes) × (st st' : Stats) × (flush_memtable
            os ring_ok l
          ≡ ok (l', none))
        × (l'.memtable ≡ MemTable.new)
        × (l'.levels ≡ (files ++ sst ∷ []) ∷ below)
        × (l'.disk ≡ insert sst.path sst.contents l.disk)
        × (all_entries sst ≡ ok (MemTable.entries l.memtable).0)
        × (get key l ≡ ok (answer, record l { stats = st }))
        × (get key l' ≡ ok (answer, record l' { stats = st' }))
  get-flush_memtable c split room b plain above under fresh reaches =
      let (si, f, l', done, flushed, storable, written) =
        flush_memtable-ok os run ring_ok l files c (rw split refl) room b plain in
      let es = (MemTable.entries l.memtable).0 in
      let sst : SsTable = table es si f (flush_path l) in
      let levels : l'.levels ≡ (files ++ sst ∷ []) ∷ below =
        flushed.levels ∙ ap (λ ls. set ls 0 (files ++ sst ∷ [])) split in
      let before = get_lem key l (ess ∷ lss) (sym c.counted) (rw split (above, under)) in
      let count : l'.num_levels ≡ length l'.levels =
        flushed.num_levels ∙ (sym c.counted ∙ (ap length split ∙ sym (ap length levels))) in
      let answers : ServesAll key (files ++ sst ∷ []) (ess ++ es ∷ []) =
        ServesAll-append key sst es files ess above
          (get-find es si f written (flush_path l) key reaches) in
      let after = get_lem key l' ((ess ++ es ∷ []) ∷ lss) count (rw levels (answers, under)) in
      let emptied : MemTable.get key l'.memtable ≡ none =
        rw flushed.memtable (unfold MemTable.get lookup in refl) in
      let found : MemTable.get key l.memtable ≡ find key es =
        sym ((entries-refines l.memtable c.valid).1 key) in
      let same : or_else (MemTable.get key l.memtable) (first_below key (ess ∷ lss))
          ≡ first_below key ((ess ++ es ∷ []) ∷ lss) =
        rw found (answer_moves key sst es ess lss fresh) in
      (
        sst,
        l',
        shown (first_below key ((ess ++ es ∷ []) ∷ lss)),
        before.0,
        after.0,
        done,
        flushed.memtable,
        levels,
        flushed.disk,
        all_entries-table es si f (flush_path l) written.entries,
        (rw same at before.1),
        (rw emptied at after.1),
      )
