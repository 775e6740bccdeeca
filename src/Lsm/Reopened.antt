-- ===== src/Lsm/Reopened.antt =====
-- Open on the manifest of writeManifest.
use lsm_tree_go.Common.{
  ℕ, suc, ◌<◌, Bool, false, ◌≡◌, refl, ap, true, some, List, [], ◌∷◌, map, length, All, ◌==◌, arith,
}
use lsm_tree_go.Common.Keys.{Bytes}
use lsm_tree_go.Common.Outcome.{ok}
use lsm_tree_go.SsTable.Writer.{Os}
use lsm_tree_go.SsTable.Reader.{SsTable}
use lsm_tree_go.Compaction.{Disk, join}
use lsm_tree_go.Lsm.{Lsm}
use lsm_tree_go.Wal.{sync_always}
use lsm_tree_go.Lsm.Compact.{data_sizes}
use lsm_tree_go.Lsm.Flush.{Options, fresh_tree, update_level_stats, open_log, open_tree}
use lsm_tree_go.Lsm.Manifest.{
  base_name, snapshot, write_manifest, open_path, open_named, open_levels, recover_orphans,
  concat_names, load_listed, load_existing_sstables,
}

-- Open of the table's name in the directory gives the table.
abbrev pub IsKept : Os → Bytes → Disk → SsTable → Type 0
IsKept os dir disk sst = open_path os (join dir (base_name sst.path)) disk ≡ ok sst

open_named-snapshot :
    (os : Os) (dir : Bytes) (disk : Disk) (files : List SsTable)
    → All (IsKept os dir disk) files
    → open_named os dir disk (map (λ sst. base_name sst.path) files) ≡ ok files
unfolding open_named
open_named-snapshot os dir disk [] h = refl
open_named-snapshot os dir disk (sst ∷ files) h =
    rw (h.0, open_named-snapshot os dir disk files h.1) refl

open_levels-snapshot :
    (os : Os) (dir : Bytes) (disk : Disk) (levels : List (List SsTable))
    → All (λ files. All (IsKept os dir disk) files) levels
    → open_levels os dir disk (snapshot levels) ≡ ok levels
unfolding open_levels snapshot
open_levels-snapshot os dir disk [] h = refl
open_levels-snapshot os dir disk (files ∷ levels) h =
    rw (open_named-snapshot os dir disk files h.0, open_levels-snapshot os dir disk levels h.1) refl

length-snapshot : (levels : List (List SsTable)) → length (snapshot levels) ≡ length levels
unfolding snapshot
length-snapshot [] = refl
length-snapshot (files ∷ levels) = ap suc (length-snapshot levels)

load_listed-snapshot :
    (os : Os) (l : Lsm) (levels : List (List SsTable))
    → length levels ≡ l.num_levels
    → All (λ files. All (IsKept os l.dir l.disk) files) levels
    → load_listed os l (some (snapshot levels))
      ≡ ok (recover_orphans (concat_names (snapshot levels)) (record l { levels = levels }))
unfolding load_listed
load_listed-snapshot os l levels n h =
    let fits : (length (snapshot levels) == l.num_levels) ≡ true =
      let s = length-snapshot levels in ground arith in
    rw (fits, open_levels-snapshot os l.dir l.disk levels h) refl

-- The options that a tree without a log is opened again with.
abbrev pub same_options : Lsm → Options
same_options l = record {
  dir = l.dir;
  flush_threshold = l.flush_threshold;
  num_levels = l.num_levels;
  wal_sync_mode = sync_always;
  no_wal = true;
}

-- Where writeManifest succeeds and Open of every table of the tree, by its name in the directory, gives the
-- table, Open of a tree without a log on these files and that manifest returns a tree with the same tables in
-- the same levels and in the same order, and their sizes.
pub open_tree-write_manifest :
    (os : Os) (ring_ok : Bool) (now : ℕ) (log : Bytes) (l : Lsm)
    → os.mkdir_ok ≡ true
    → os.write_ok ≡ true
    → os.open_ok ≡ true
    → os.rename_ok ≡ true
    → length l.levels ≡ l.num_levels
    → 0 < l.num_levels
    → All (λ files. All (IsKept os l.dir l.disk) files) l.levels
    → (l' : Lsm) × (open_tree os ring_ok
          (same_options l)
          now
          log
          l.disk
          (write_manifest os l).0.manifest
        ≡ ok l')
      × (l'.levels ≡ l.levels)
      × (l'.stats.level_sizes ≡ map data_sizes l.levels)
open_tree-write_manifest os ring_ok now log l m w o r n p k = (opened, same, kept, sizes)
  where
    fresh : Lsm
    fresh = fresh_tree (same_options l) now l.disk (some (snapshot l.levels))

    loaded : Lsm
    loaded = recover_orphans (concat_names (snapshot l.levels)) (record fresh { levels = l.levels })

    opened : Lsm
    opened = (write_manifest os (update_level_stats loaded)).0

    count : l.num_levels == 0 ≡ false
    count = ground arith

    listed : (write_manifest os l).0.manifest ≡ some (snapshot l.levels)
    listed = unfold write_manifest in rw (w, o, r) refl

    loads : load_existing_sstables os fresh ≡ ok loaded
    loads =
        unfold load_existing_sstables fresh_tree in
        load_listed-snapshot os fresh l.levels (unfold fresh_tree in rw count n)
          (unfold fresh_tree in k)

    same :
        open_tree os ring_ok (same_options l) now log l.disk (write_manifest os l).0.manifest
        ≡ ok opened
    same = rw listed (unfold open_tree open_log in simp (m, loads))

    kept : opened.levels ≡ l.levels
    kept = unfold write_manifest update_level_stats recover_orphans in rw (w, o, r) refl

    sizes : opened.stats.level_sizes ≡ map data_sizes l.levels
    sizes = unfold write_manifest update_level_stats recover_orphans in rw (w, o, r) refl
