-- ===== src/Lsm/Info.antt =====
-- internal/lsm/lsm.go: what a tree tells of itself.
use lsm_tree_go.Common.{
  ℕ, ◌+◌, ◌-◌, Bool, true, false, not, List, [], ◌∷◌, map, length, drop, get_elem?, leb,
  if◌then◌else◌,
}
use lsm_tree_go.Common.Keys.{Bytes, key_lt}
use lsm_tree_go.Common.Outcome.{Outcome, ok, or_panic, ◌>>=◌}
use lsm_tree_go.MemTable
use lsm_tree_go.SsTable.Reader.{SsTable}
use lsm_tree_go.Lsm.{Lsm, Stats}
use lsm_tree_go.Lsm.Compact.{data_sizes}

-- Stats, with NumLevels: the sizes are added up anew.
unfoldable pub get_stats : Lsm → Stats × ℕ
get_stats l = (record l.stats { level_sizes = map data_sizes l.levels }, l.num_levels)

-- NumLevels
pub num_levels : Lsm → ℕ
num_levels l = l.num_levels

-- FilesPerLevel
unfoldable pub files_per_level : Lsm → List ℕ
files_per_level l = map (λ files. length files) l.levels

-- TotalDataSize
unfoldable pub sizes_of_levels : List (List SsTable) → ℕ
sizes_of_levels [] = 0
sizes_of_levels (files ∷ levels) = data_sizes files + sizes_of_levels levels

unfoldable pub total_data_size : Lsm → ℕ
total_data_size l = MemTable.size l.memtable + sizes_of_levels l.levels

-- `Entries()[i].Key` of a table's index
unfoldable pub index_key : SsTable → ℕ → Outcome Bytes
index_key sst i = or_panic (get_elem? sst.sparse_index.entries i) >>= λ e. ok e.key

-- A table with its first and its last index key.
pub record Span : Type 0 where
  pub first : Bytes
  pub last : Bytes

unfoldable pub spans : List SsTable → Outcome (List Span)
spans [] = ok []
spans (sst ∷ files) = do
  first ← index_key sst 0
  last ← index_key sst (length sst.sparse_index.entries - 1)
  rest ← spans files
  ok (record { first = first; last = last } ∷ rest)

-- sort.Slice by the first index key; tables of one level with the same one can come in any order.
unfoldable pub insert_span : Span → List Span → List Span
insert_span s [] = s ∷ []
insert_span s (t ∷ ts) = if key_lt t.first s.first then t ∷ insert_span s ts else s ∷ t ∷ ts

unfoldable pub sort_spans : List Span → List Span
sort_spans [] = []
sort_spans (s ∷ ts) = insert_span s (sort_spans ts)

-- `prevLast >= currFirst` of some neighbours
unfoldable pub has_overlap : List Span → Bool
has_overlap [] = false
has_overlap (s ∷ []) = false
has_overlap (s ∷ t ∷ ts) = if not (key_lt s.last t.first) then true else has_overlap (t ∷ ts)

unfoldable pub level_overlaps : List SsTable → Outcome Bool
level_overlaps files =
    if leb (length files) 1
    then ok false
    else (spans files >>= λ s. ok (has_overlap (sort_spans s)))

unfoldable pub some_level_overlaps : List (List SsTable) → Outcome Bool
some_level_overlaps [] = ok false
some_level_overlaps (files ∷ levels) =
    let rest = some_level_overlaps levels in
    level_overlaps files >>= λ found. if found then ok true else rest

-- HasOverlappingLevels: the levels from 1 on.
unfoldable pub has_overlapping_levels : Lsm → Outcome Bool
has_overlapping_levels l = some_level_overlaps (drop 1 l.levels)
