-- ===== src/SsTable/Reader/Scan.antt =====
-- `AllEntries` and the iterator give back the entries in order.
use lsm_tree_go.Common.{
  ℕ, zero, suc, ◌≤◌, ◌≡◌, refl, List, [], ◌∷◌, ◌++◌, length, All, some, arith, length-append,
  drop-append,
}
use lsm_tree_go.Common.Keys.{Bytes}
use lsm_tree_go.Common.Varint.{uvarint}
use lsm_tree_go.Common.Outcome.{ok, ◌>>=◌}
use lsm_tree_go.MemTable.{Entry}
use lsm_tree_go.SsTable.{entry_bytes, parse_entry, read_string}
use lsm_tree_go.SsTable.Codec.{IsGoEntry, parse_entry-entry_bytes, length-entry_bytes-pos}
use lsm_tree_go.SsTable.Writer.Appends.{table_bytes}
use lsm_tree_go.SsTable.Reader.{collect, all_entries}
use lsm_tree_go.SsTable.Reader.Opened.{table, slice_front}
use lsm_tree_go.SparseIndex.{SparseIndex}
use lsm_tree_go.Bloom.{Filter}
use lsm_tree_go.SsTable.Writer.Closed.{file_bytes, table_footer}
use lsm_tree_go.SsTable.Writer.{index_block, bloom_block}

collect_step :
    (fuel : ℕ) (e : Entry) (rest : Bytes)
    → IsGoEntry e
    → collect (suc fuel) (entry_bytes e ++ rest) ≡ (collect fuel rest >>= λ es. ok (e ∷ es))
unfolding collect
collect_step fuel e rest h = rw (parse_entry-entry_bytes e rest h, drop-append (entry_bytes e) rest)

collect-table_bytes :
    (es : List Entry) (fuel : ℕ)
    → All IsGoEntry es
    → length (table_bytes es) ≤ fuel
    → collect fuel (table_bytes es) ≡ ok es
unfolding table_bytes
collect-table_bytes [] zero h n = unfold collect in refl
collect-table_bytes [] (suc fuel) h n = unfold collect parse_entry read_string uvarint in refl
collect-table_bytes (e ∷ es) zero h n =
    absurd (omega (arith, length-append (entry_bytes e) (table_bytes es), length-entry_bytes-pos e))
collect-table_bytes (e ∷ es) (suc fuel) h n =
    rw (collect_step fuel e (table_bytes es) h.0, collect-table_bytes es fuel h.1 less)
  where
    less : length (table_bytes es) ≤ fuel
    less = omega (arith, length-append (entry_bytes e) (table_bytes es), length-entry_bytes-pos e)

-- `AllEntries` of a table of entries that fit Go's types gives back every entry, in order.
pub all_entries-table :
    (es : List Entry) (si : SparseIndex) (f : Filter) (path : Bytes)
    → All IsGoEntry es
    → all_entries (table es si f path) ≡ ok es
unfolding all_entries file_bytes
all_entries-table es si f path h = rw (
  slice_front (table_bytes es) (index_block si ++ (bloom_block (some f) ++ table_footer es si)),
  collect-table_bytes es (length (table_bytes es)) h (omega arith),
)
