-- ===== src/Lsm/Compact.antt =====
-- internal/lsm/lsm.go: compactL0ToL1, compactLevel and the round of compactionLoop. An error returned comes
-- with the state that is left, but for files that a compaction closed before it failed: no level has them.
use lsm_tree_go.Common.{
  ℕ, zero, suc, ◌+◌, ◌-◌, ◌/◌, Bool, false, ◌&&◌, ◌||◌, Option, none, some, List, [], ◌∷◌, ◌++◌,
  length, take, drop, set, get_elem?, ltb, leb, ◌==◌, if◌then◌else◌,
}
use lsm_tree_go.Common.Keys.{Bytes, key_lt}
use lsm_tree_go.Common.Map.{lookup, erase}
use lsm_tree_go.Common.Outcome.{Error, Outcome, ok, fail, os_error, or_panic, on_fail, ◌>>=◌}
use lsm_tree_go.SsTable.Writer.{Os}
use lsm_tree_go.SsTable.Reader.{SsTable, open_no_verify, min_key, max_key}
use lsm_tree_go.Compaction
use lsm_tree_go.Compaction.{Disk, level_size, do_compact}
use lsm_tree_go.Lsm.{Lsm}
use lsm_tree_go.Lsm.Manifest.{write_manifest}

-- `lsm.levels[i] = files`
unfoldable pub set_level : ℕ → List SsTable → Lsm → Lsm
set_level i files l = record l { levels = set l.levels i files }

-- `lsm.levels[i]`, and `lsm.stats.LevelSizes[i]`
unfoldable pub level_at : ℕ → Lsm → Outcome (List SsTable)
level_at i l = or_panic (get_elem? l.levels i)

unfoldable pub size_at : ℕ → Lsm → Outcome ℕ
size_at i l = or_panic (get_elem? l.stats.level_sizes i)

-- `lsm.stats.LevelSizes[i] = n`
unfoldable pub set_size : ℕ → ℕ → Lsm → Lsm
set_size i n l = record l { stats = record l.stats { level_sizes = set l.stats.level_sizes i n } }

-- The inner loop of updateLevelStats.
abbrev pub data_sizes : List SsTable → ℕ
data_sizes [] = 0
data_sizes (sst ∷ files) = sst.data_size + data_sizes files

-- sort.Slice by path; no two tables have one path.
unfoldable pub insert_by_path : SsTable → List SsTable → List SsTable
insert_by_path s [] = s ∷ []
insert_by_path s (t ∷ ts) = if key_lt t.path s.path then t ∷ insert_by_path s ts else s ∷ t ∷ ts

unfoldable pub sort_by_path : List SsTable → List SsTable
sort_by_path [] = []
sort_by_path (s ∷ ts) = insert_by_path s (sort_by_path ts)

-- How many of the sorted files are taken.
unfoldable pub batch_size : ℕ → ℕ → ℕ
batch_size files max_l0_files =
    let half = files / 2 in
    let n = if ltb half 1 then 1 else half in
    if ltb (max_l0_files / 2) n then max_l0_files / 2 else n

-- The loop over `toCompact[1:]`.
unfoldable pub key_range : List SsTable → Bytes → Bytes → Bytes × Bytes
key_range [] low high = (low, high)
key_range (s ∷ ts) low high =
    key_range ts (if key_lt (min_key s) low then min_key s else low)
      (if key_lt high (max_key s) then max_key s else high)

-- `sst.MaxKey() < minK || sst.MinKey() > maxK`
unfoldable pub is_apart : Bytes → Bytes → SsTable → Bool
is_apart low high s = key_lt (max_key s) low || key_lt high (min_key s)

unfoldable pub overlapping : Bytes → Bytes → List SsTable → List SsTable
overlapping low high [] = []
overlapping low high (s ∷ ts) =
    let rest = overlapping low high ts in if is_apart low high s then rest else s ∷ rest

unfoldable pub non_overlapping : Bytes → Bytes → List SsTable → List SsTable
non_overlapping low high [] = []
non_overlapping low high (s ∷ ts) =
    let rest = non_overlapping low high ts in if is_apart low high s then s ∷ rest else rest

-- `if cstats != nil`
unfoldable pub count_compaction : Option Compaction.Stats → Lsm → Lsm
count_compaction none l = l
count_compaction (some c) l = record l {
  stats = record l.stats {
    compaction_bytes_written = l.stats.compaction_bytes_written + c.bytes_written;
  };
  next_id = l.next_id + c.output_files;
}

-- The loop that closes and removes input files of level `i`.
unfoldable pub remove_files : ℕ → List SsTable → Lsm → Outcome Lsm
remove_files i [] l = ok l
remove_files i (sst ∷ files) l = do
  size ← size_at i l
  remove_files i files
      (set_size i (size - sst.data_size) (record l { disk = erase sst.path l.disk }))

-- OpenNoVerify of a path
unfoldable pub open_quickly : Os → Bytes → Disk → Outcome SsTable
open_quickly os path disk = by_file (lookup path disk)
  where
    by_file : Option Bytes → Outcome SsTable
    by_file none = fail os_error
    by_file (some contents) = open_no_verify os path contents

-- `append` of an opened table to level `i`, and its size
unfoldable pub attach : ℕ → SsTable → Lsm → Outcome Lsm
attach i sst l = do
  files ← level_at i l
  size ← size_at i l
  ok (set_size i (size + sst.data_size) (set_level i (files ++ sst ∷ []) l))

-- The loop over `outputPaths`; an error ends it.
unfoldable pub attach_outputs : Os → ℕ → List Bytes → Lsm → Outcome (Lsm × Option Error)
attach_outputs os i [] l = ok (l, none)
attach_outputs os i (path ∷ paths) l =
    on_fail (open_quickly os path l.disk) (λ e. ok (l, some e))
      (λ sst. attach i sst l >>= λ l'. attach_outputs os i paths l')

-- A step is left out once there is an error.
abbrev pub and_then :
    Lsm × Option Error → (Lsm → Outcome (Lsm × Option Error)) → Outcome (Lsm × Option Error)
and_then (l, some e) next = ok (l, some e)
and_then (l, none) next = next l

-- compactL0ToL1 from the removal of the inputs on: `remaining` and `apart` stay in the levels.
unfoldable pub replace_l0 :
    Os
    → List SsTable
    → List SsTable
    → List SsTable
    → List SsTable
    → List Bytes
    → Lsm
    → Outcome (Lsm × Option Error)
replace_l0 os to_compact remaining overlap apart paths l = do
  one ← remove_files 0 to_compact l
  two ← remove_files 1 overlap one
  attached ← attach_outputs os 1 paths (set_level 1 apart (set_level 0 remaining two))
  and_then attached (λ done. ok (write_manifest os done))

-- compactL0ToL1, given the files of level 0
unfoldable pub compact_l0_files : Os → Lsm → List SsTable → Outcome (Lsm × Option Error)
compact_l0_files os l [] = ok (l, none)
compact_l0_files os l (f ∷ fs) = do
  let sorted = sort_by_path (f ∷ fs)
  let n = batch_size (length sorted) l.max_l0_files
  let to_compact = take n sorted
  first ← or_panic (get_elem? to_compact 0)
  let (low, high) = key_range (drop 1 to_compact) (min_key first) (max_key first)
  l1 ← level_at 1 l
  let overlap = overlapping low high l1
  let apart = non_overlapping low high l1
  on_fail (do_compact os (to_compact ++ overlap) l.dir 1 l.next_id l.disk) (λ e. ok (l, some e))
      (λ (paths, stats, disk).
        replace_l0 os to_compact (drop n sorted) overlap apart paths
          (count_compaction stats (record l { disk = disk })))

-- compactL0ToL1
unfoldable pub compact_l0_to_l1 : Os → Lsm → Outcome (Lsm × Option Error)
compact_l0_to_l1 os l = level_at 0 l >>= λ files. compact_l0_files os l files

-- compactLevel from the removal of the inputs on; `rest` is what comes after the manifest.
unfoldable pub replace_level :
    Os
    → ℕ
    → List SsTable
    → List SsTable
    → List Bytes
    → (Lsm → Outcome (Lsm × Option Error))
    → Lsm
    → Outcome (Lsm × Option Error)
replace_level os level files next_files paths rest l = do
  one ← remove_files level files l
  two ← remove_files (level + 1) next_files (set_level level [] one)
  attached ← attach_outputs os (level + 1) paths (set_level (level + 1) [] two)
  and_then attached (λ done. and_then (write_manifest os done) rest)

-- The end of compactLevel: its own call for the next level, where that has grown too large.
unfoldable pub go_on : ℕ → Lsm → Outcome (Lsm × Option Error) → Outcome (Lsm × Option Error)
go_on next_level l again = do
  size ← size_at next_level l
  if ltb (level_size l.base_level_size next_level) size && ltb next_level (l.num_levels - 1)
      then again
      else ok (l, none)

-- compactLevel for a level that is neither the first nor the last.
unfoldable pub compact_into_next :
    Os → ℕ → (Lsm → Outcome (Lsm × Option Error)) → Lsm → Outcome (Lsm × Option Error)
compact_into_next os level rest l = do
  files ← level_at level l
  next_files ← level_at (level + 1) l
  if length files == 0 then ok (l, none) else compacted files next_files
  where
    compacted : List SsTable → List SsTable → Outcome (Lsm × Option Error)
    compacted files next_files =
        on_fail (do_compact os (files ++ next_files) l.dir (level + 1) l.next_id l.disk)
          (λ e. ok (l, some e))
          (λ (paths, stats, disk).
            replace_level os level files next_files paths rest
              (count_compaction stats (record l { disk = disk })))

-- compactLevel. Its own call is of the next level, so the number of levels is fuel enough.
unfoldable pub compact_level : ℕ → Os → ℕ → Lsm → Outcome (Lsm × Option Error)
compact_level zero os level l = ok (l, none)
compact_level (suc fuel) os level l =
    let body =
      compact_into_next os level (λ l'. go_on (level + 1) l' (compact_level fuel os (level + 1) l'))
        l in
    if ltb level 1 || leb (l.num_levels - 1) level then ok (l, none) else body

-- `for level := 1; level < lsm.numLevels-1; level++`, for the levels from `level` on; errors are left aside.
unfoldable pub compact_large : ℕ → Os → ℕ → Lsm → Outcome Lsm
compact_large zero os level l = ok l
compact_large (suc rounds) os level l = do
  size ← size_at level l
  done ←
      if ltb (level_size l.base_level_size level) size
      then compact_level l.num_levels os level l
      else ok (l, none)
  compact_large rounds os (level + 1) done.0

-- What compactionLoop does when `compactCh` has a signal.
unfoldable pub compaction_round : Os → Lsm → Outcome Lsm
compaction_round os l = do
  let taken = record l { signalled = false }
  files ← level_at 0 taken
  done ←
      if ltb taken.max_l0_files (length files) then compact_l0_to_l1 os taken else ok (taken, none)
  compact_large (l.num_levels - 2) os 1 done.0
