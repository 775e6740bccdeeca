-- ===== src/Lsm/Manifest.antt =====
-- internal/lsm/lsm.go: the manifest, and the tables that are found when the tree is opened.
use lsm_tree_go.Common.{
  ℕ, ◌-◌, Bool, not, ◌&&◌, Option, none, some, List, [], ◌∷◌, ◌++◌, map, length, drop, set,
  get_elem?, ltb, ◌==◌, if◌then◌else◌,
}
use lsm_tree_go.Common.Decimal.{atoi}
use lsm_tree_go.Common.Int.{ℤ, pos}
use lsm_tree_go.Common.Keys.{Bytes, key_eq}
use lsm_tree_go.Common.Map.{lookup, erase, keys, has_key}
use lsm_tree_go.Common.Outcome.{Error, Outcome, ok, fail, panic, os_error, on_fail, ◌>>=◌}
use lsm_tree_go.Common.Sort.{sort_strings}
use lsm_tree_go.SsTable.Writer.{Os}
use lsm_tree_go.SsTable.Reader.{SsTable, open_table}
use lsm_tree_go.Compaction.{Disk, join, sst_suffix}
use lsm_tree_go.Lsm.{Lsm}

-- filepath.Base of a path that does not end in a slash
unfoldable pub base_from : Bytes → Bytes → Bytes
base_from seen [] = seen
base_from seen (b ∷ bs) =
    let fresh = base_from [] bs in
    let longer = base_from (seen ++ b ∷ []) bs in if b == b'/' then fresh else longer

unfoldable pub base_name : Bytes → Bytes
base_name path = base_from [] path

-- `snapshot`
unfoldable pub snapshot : List (List SsTable) → List (List Bytes)
snapshot levels = map (map (λ sst. base_name sst.path)) levels

-- writeManifest: the new file takes the old one's place by the renaming, whatever comes after it.
unfoldable pub write_manifest : Os → Lsm → Lsm × Option Error
write_manifest os l =
    let written : Lsm = record l { manifest = some (snapshot l.levels) } in
    if not os.write_ok
    then (l, some os_error)
    else if not os.open_ok
    then (l, some os_error)
    else if not os.rename_ok
    then (l, some os_error)
    else (written, none)

unfoldable pub has_sst_suffix : Bytes → Bool
has_sst_suffix name = is_suffix (drop (length name - 4) name)
  where
    is_suffix : Bytes → Bool
    is_suffix tail = key_eq tail sst_suffix

-- os.ReadDir: the names in ascending order.
unfoldable pub dir_names : Disk → List Bytes
dir_names disk = sort_strings (map base_name (keys disk))

-- recoverOrphans: a table file that is not known is removed.
unfoldable pub remove_unknown : Bytes → List Bytes → List Bytes → Disk → Disk
remove_unknown dir known [] disk = disk
remove_unknown dir known (name ∷ names) disk =
    remove_unknown dir known names
      (if has_sst_suffix name && not (has_key name known) then erase (join dir name) disk else disk)

unfoldable pub recover_orphans : List Bytes → Lsm → Lsm
recover_orphans known l = record l { disk = remove_unknown l.dir known (dir_names l.disk) l.disk }

-- sstable.Open of a path
unfoldable pub open_path : Os → Bytes → Disk → Outcome SsTable
open_path os path disk = by_file (lookup path disk)
  where
    by_file : Option Bytes → Outcome SsTable
    by_file none = fail os_error
    by_file (some contents) = open_table os path contents

-- The files of one level of the manifest: one that does not open is left out.
unfoldable pub open_named : Os → Bytes → Disk → List Bytes → Outcome (List SsTable)
open_named os dir disk [] = ok []
open_named os dir disk (name ∷ names) =
    let rest = open_named os dir disk names in
    on_fail (open_path os (join dir name) disk) (λ e. rest)
      (λ sst. rest >>= λ ssts. ok (sst ∷ ssts))

unfoldable pub open_levels : Os → Bytes → Disk → List (List Bytes) → Outcome (List (List SsTable))
open_levels os dir disk [] = ok []
open_levels os dir disk (names ∷ levels) = do
  ssts ← open_named os dir disk names
  rest ← open_levels os dir disk levels
  ok (ssts ∷ rest)

unfoldable pub concat_names : List (List Bytes) → List Bytes
concat_names [] = []
concat_names (names ∷ levels) = names ++ concat_names levels

-- strings.SplitN at the first dash: what stands before it, if there is one.
unfoldable pub before_dash : Bytes → Bytes → Option Bytes
before_dash seen [] = none
before_dash seen (b ∷ bs) =
    let more = before_dash (seen ++ b ∷ []) bs in if b == b'-' then some seen else more

-- The level in a name, if it is one of the tree's.
unfoldable pub level_of_name : ℕ → Bytes → Option ℕ
level_of_name num_levels name = if has_sst_suffix name then by_part (before_dash [] name) else none
  where
    in_range : Option ℤ → Option ℕ
    in_range (some (pos n)) = if ltb n num_levels then some n else none
    in_range other = none

    by_part : Option Bytes → Option ℕ
    by_part none = none
    by_part (some part) = in_range (atoi part)

-- `lsm.levels[level] = append(lsm.levels[level], sst)`
unfoldable pub add_table : ℕ → SsTable → List (List SsTable) → Outcome (List (List SsTable))
add_table level sst levels = at_level (get_elem? levels level)
  where
    at_level : Option (List SsTable) → Outcome (List (List SsTable))
    at_level none = panic
    at_level (some files) = ok (set levels level (files ++ sst ∷ []))

-- The loop over the directory, where there is no manifest.
unfoldable pub scan_dir :
    Os → Bytes → ℕ → Disk → List Bytes → List (List SsTable) → Outcome (List (List SsTable))
scan_dir os dir num_levels disk [] levels = ok levels
scan_dir os dir num_levels disk (name ∷ names) levels =
    by_level (level_of_name num_levels name)
      (λ levels'. scan_dir os dir num_levels disk names levels')
  where
    by_level :
        Option ℕ
        → (List (List SsTable) → Outcome (List (List SsTable)))
        → Outcome (List (List SsTable))
    by_level none next = next levels
    by_level (some level) next =
        on_fail (open_path os (join dir name) disk) (λ e. next levels)
          (λ sst. add_table level sst levels >>= next)

-- loadExistingSSTables where there is no manifest that fits
unfoldable pub load_scanned : Os → Lsm → Outcome Lsm
load_scanned os l = do
  levels ← scan_dir os l.dir l.num_levels l.disk (dir_names l.disk) l.levels
  ok (record l { levels = levels })

-- loadExistingSSTables, given what the manifest reads as
unfoldable pub load_listed : Os → Lsm → Option (List (List Bytes)) → Outcome Lsm
load_listed os l none = load_scanned os l
load_listed os l (some files) =
    if length files == l.num_levels
    then (do
      levels ← open_levels os l.dir l.disk files
      ok (recover_orphans (concat_names files) (record l { levels = levels })))
    else load_scanned os l

-- loadExistingSSTables, for a tree whose levels are empty
unfoldable pub load_existing_sstables : Os → Lsm → Outcome Lsm
load_existing_sstables os l = load_listed os l l.manifest
