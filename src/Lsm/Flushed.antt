-- ===== src/Lsm/Flushed.antt =====
-- flushMemtable where every system call succeeds, and what Get reads afterwards.
use lsm_tree_go.Common.{
  ℕ, ◌+◌, ◌*◌, ◌<◌, ◌≡◌, refl, ap, ◌∙◌, Bool, true, false, Option, none, some, List, [], ◌∷◌, ◌++◌,
  length, set, ltb, ◌==◌, arith, length-append, get_elem?, get_elem?-set_self,
  lt-length_of_get_elem?,
}
use lsm_tree_go.Common.Keys.{Bytes, key_eq_refl}
use lsm_tree_go.Common.Map.{lookup, insert, lookup-insert}
use lsm_tree_go.Common.Outcome.{ok}
use lsm_tree_go.MemTable
use lsm_tree_go.MemTable.{Entry, MemTable}
use lsm_tree_go.MemTable.Laws
use lsm_tree_go.MemTable.Sorted.{find, entries-refines}
use lsm_tree_go.SparseIndex.{SparseIndex}
use lsm_tree_go.Bloom.{Filter}
use lsm_tree_go.SsTable.Writer.{Os}
use lsm_tree_go.SsTable.Writer.Appends.{IsUp}
use lsm_tree_go.SsTable.Writer.Closed.{file_bytes}
use lsm_tree_go.SsTable.Reader.{SsTable}
use lsm_tree_go.SsTable.Reader.Opened.{table, open_no_verify-table, IsStorable}
use lsm_tree_go.SsTable.Reader.Lookup.{IsWritten}
use lsm_tree_go.Wal.{Wal}
use lsm_tree_go.Wal.Appends.{Grows}
use lsm_tree_go.Lsm.Writes.{IsPlain}
use lsm_tree_go.Lsm.{Lsm}
use lsm_tree_go.Lsm.Writes.{reset-ok}
use lsm_tree_go.Lsm.Manifest.{write_manifest, snapshot}
use lsm_tree_go.Lsm.Compact.{
  open_quickly, attach, level_at, size_at, set_level, set_size, data_sizes,
}
use lsm_tree_go.Lsm.Consistent.{IsConsistent, size_of_level}
use lsm_tree_go.Lsm.Flush.{flush_path, write_table, reset_wal, publish, after_reset, flush_memtable}
use lsm_tree_go.Lsm.Stored.{IsBatch, write_table-file_bytes}

-- A memtable that lists an entry is not empty.
count-pos :
    (t : MemTable)
    → Laws.IsValid t
    → 0 < length (MemTable.entries t).0
    → (MemTable.count t == 0) ≡ false
count-pos t v p = by_map t.m refl
  where
    nothing : t.m ≡ [] → (k : Bytes) → find k (MemTable.entries t).0 ≡ none
    nothing e k = (entries-refines t v).1 k ∙ (unfold MemTable.get lookup in ap (λ m. lookup k m) e)

    first_found : (es : List Entry) → 0 < length es → ((k : Bytes) → find k es ≡ none) → ⊥
    first_found [] q f = omega arith
    first_found (e ∷ es) q f =
        let g = f e.key in unfold find in ground (arith, g, key_eq_refl e.key)

    by_map : (m : List (Bytes × Entry)) → t.m ≡ m → (MemTable.count t == 0) ≡ false
    by_map [] e = absurd (first_found (MemTable.entries t).0 p (nothing e))
    by_map (x ∷ m) e = unfold MemTable.count in let n = ap length e in ground arith

-- Every call succeeds, those of the manifest too.
pub record IsRunning (os : Os) : Type 0 where
  pub up : IsUp os
  pub writes : os.write_ok ≡ true
  pub seeks : os.seek_ok ≡ true
  pub renames : os.rename_ok ≡ true

up-Grows : (os : Os) → IsUp os → Grows os
up-Grows os up = (up.munmap, up.truncate, up.mmap)

module _ (os : Os) (run : IsRunning os) (ring_ok : Bool) where
  reset_wal-ok :
      (l : Lsm)
      → ((w : Wal) → l.wal ≡ some w → IsPlain w)
      → (log : Option Wal) × (reset_wal os ring_ok l ≡ ok (record l { wal = log }, none))
  reset_wal-ok l h = by_wal l.wal refl
    where
      by_wal :
          (w : Option Wal)
          → l.wal ≡ w
          → (log : Option Wal) × (reset_wal os ring_ok l ≡ ok (record l { wal = log }, none))
      by_wal none e = (none, unfold reset_wal in rw e refl)
      by_wal (some w) e =
          let (w', done) =
            reset-ok os ring_ok w (up-Grows os run.up, run.seeks, run.writes) (h w e) in
          (some w', unfold reset_wal in rw (e, done) refl)

  write_manifest-ok :
      (l : Lsm) → write_manifest os l ≡ (record l { manifest = some (snapshot l.levels) }, none)
  write_manifest-ok l = unfold write_manifest in rw (run.writes, run.up.opened, run.renames) refl

  -- The tree with a table behind those of level 0.
  abbrev pub with_table : List SsTable → SsTable → Lsm → Lsm
  with_table files sst l =
      set_size 0 (data_sizes files + sst.data_size) (set_level 0 (files ++ sst ∷ []) l)

  module _ (l : Lsm) (files : List SsTable) (sst : SsTable) (path : Bytes) where
    abbrev published : Lsm
    published = record (with_table files sst l) {
      manifest = some (snapshot (with_table files sst l).levels);
      signalled = true;
    }

    publish-ok :
        open_quickly os path l.disk ≡ ok sst
        → IsConsistent l
        → get_elem? l.levels 0 ≡ some files
        → length files < l.max_l0_files * 2
        → publish os path l ≡ ok (published, none)
    unfolding set_size snapshot set_level
    publish-ok opens c h room =
        unfold publish in
        simp (opens, attached, write_manifest-ok (with_table files sst l), level, few)
      where
        attached : attach 0 sst l ≡ ok (with_table files sst l)
        attached = unfold attach level_at size_at in rw (h, size_of_level l 0 files c h) refl

        level : level_at 0 published ≡ ok (files ++ sst ∷ [])
        level =
            unfold level_at set_level set_size in
            rw
              (get_elem?-set_self l.levels 0 (files ++ sst ∷ [])
                (lt-length_of_get_elem? l.levels 0 files h))
              refl

        few : ltb (l.max_l0_files * 2) (length (files ++ sst ∷ [])) ≡ false
        few = let n = length-append files (sst ∷ []) in ground arith

-- What flushMemtable leaves of the tree `l` with a new table at the end of level 0.
pub record IsFlushed (l l' : Lsm) (files : List SsTable) (sst : SsTable) : Type 0 where
  pub memtable : l'.memtable ≡ MemTable.new
  pub levels : l'.levels ≡ set l.levels 0 (files ++ sst ∷ [])
  pub num_levels : l'.num_levels ≡ l.num_levels
  pub disk : l'.disk ≡ insert sst.path sst.contents l.disk
  pub manifest : l'.manifest ≡ some (snapshot l'.levels)

-- A flush of a batch into a level 0 that has room.
module _ (os : Os) (run : IsRunning os) (ring_ok : Bool) (l : Lsm) (files : List SsTable) where
  pub flush_memtable-ok :
      IsConsistent l
      → get_elem? l.levels 0 ≡ some files
      → length files < l.max_l0_files * 2
      → IsBatch (MemTable.entries l.memtable).0
      → ((w : Wal) → l.wal ≡ some w → IsPlain w)
      → (si : SparseIndex) × (f : Filter) × (l' : Lsm) × (flush_memtable os ring_ok l
          ≡ ok (l', none))
        × IsFlushed l l' files (table (MemTable.entries l.memtable).0 si f (flush_path l))
        × IsStorable (MemTable.entries l.memtable).0 si f
        × IsWritten (MemTable.entries l.memtable).0 si f
  unfolding set_level set_size
  flush_memtable-ok c h room b plain =
      let (si, f, size, done, storable, written) = write_table-file_bytes os run.up path listed b in
      let (log, empty) = reset_wal-ok os run ring_ok (stored si f size) plain in
      (
        si,
        f,
        left si f size log,
        returned si f size log done storable empty,
        is_flushed si f size log,
        storable,
        written,
      )
    where
      listed : List Entry
      listed = (MemTable.entries l.memtable).0

      path : Bytes
      path = flush_path l

      stored : SparseIndex → Filter → ℕ → Lsm
      stored si f size = record l {
        memtable = MemTable.new;
        next_id = l.next_id + 1;
        disk = insert path (file_bytes listed si (some f)) l.disk;
        stats = record l.stats { sstable_bytes_written = l.stats.sstable_bytes_written + size };
      }

      left : SparseIndex → Filter → ℕ → Option Wal → Lsm
      left si f size log =
          published os run ring_ok (record (stored si f size) { wal = log }) files
            (table listed si f path) path

      is_flushed :
          (si : SparseIndex) (f : Filter) (size : ℕ) (log : Option Wal)
          → IsFlushed l (left si f size log) files (table listed si f path)
      is_flushed si f size log = record {
        memtable = refl;
        levels = refl;
        num_levels = refl;
        disk = refl;
        manifest = refl;
      }

      returned :
          (si : SparseIndex) (f : Filter) (size : ℕ) (log : Option Wal)
          → write_table os path listed ≡ ok (file_bytes listed si (some f), size)
          → IsStorable listed si f
          → reset_wal os ring_ok (stored si f size)
            ≡ ok (record (stored si f size) { wal = log }, none)
          → flush_memtable os ring_ok l ≡ ok (left si f size log, none)
      returned si f size log done storable empty =
          let after : Lsm = record (stored si f size) { wal = log } in
          let opens : open_quickly os path after.disk ≡ ok (table listed si f path) =
            unfold open_quickly in
            rw (lookup-insert path path (file_bytes listed si (some f)) l.disk, key_eq_refl path)
              (open_no_verify-table listed si f storable os path run.up) in
          let consistent : IsConsistent after = record {
            sizes = c.sizes;
            counted = c.counted;
            valid = Laws.new-IsValid;
          } in
          let out =
            publish-ok os run ring_ok after files (table listed si f path) path opens consistent h
              room in
          unfold flush_memtable after_reset in
          simp (count-pos l.memtable c.valid b.some_entries, done, empty, out)
