-- ===== src/Examples.antt =====
-- The theorems at concrete inputs. Here: internal/memtable/entry.go, internal/sparseindex/sparseindex.go
-- and internal/bloom/bloom.go.
mod Tables
mod Logs
mod Merges
mod Trees
mod Flushes
mod Rings
use lsm_tree_go.Common.{
  ℕ, ◌*◌, ◌^◌, ◌≤◌, ◌<◌, ◌≡◌, refl, true, false, some, List, [], ◌∷◌, ◌++◌, if◌then◌else◌, arith,
}
use lsm_tree_go.Common.Int.{pos}
use lsm_tree_go.Common.Keys.{Bytes, key_lt, key_eq}
use lsm_tree_go.Common.Map.{has_key}
use lsm_tree_go.MemTable
use lsm_tree_go.MemTable.{Entry, MemTable}
use lsm_tree_go.MemTable.Laws.{
  written, tombstone_for, get-put, get-delete, put-IsValid, delete-IsValid,
}
use lsm_tree_go.MemTable.Laws
use lsm_tree_go.MemTable.Sorted.{find, IsSorted, entries-refines}
use lsm_tree_go.SparseIndex
use lsm_tree_go.SparseIndex.{SparseIndex, lookup_offset}
use lsm_tree_go.SparseIndex.Search.{floor_offset, index_keys}
use lsm_tree_go.SparseIndex.Floor.{lookup_offset-floor}
use lsm_tree_go.Bloom
use lsm_tree_go.Bloom.{Filter, next_power_of_2, serialize, deserialize, word_bytes}
use lsm_tree_go.Bloom.Members
use lsm_tree_go.Bloom.Members.{add_all, no_false_negatives}
use lsm_tree_go.Bloom.Power.{next_power_of_2_lem, new-IsValid}
use lsm_tree_go.Bloom.Stored.{deserialize-serialize}

abbrev pub key_a : Bytes
key_a = 97 ∷ []

abbrev pub key_b : Bytes
key_b = 98 ∷ []

abbrev pub entry_a : Entry
entry_a = record { key = key_a; value = 120 ∷ []; timestamp = pos 5; tombstone = false }

abbrev pub entry_b : Entry
entry_b = record { key = key_b; value = []; timestamp = pos 6; tombstone = true }

abbrev pub both : List Entry
both = entry_a ∷ entry_b ∷ []

abbrev one_put : MemTable
one_put = MemTable.put key_b [] (pos 1) MemTable.new

one_put-IsValid : Laws.IsValid one_put
one_put-IsValid = put-IsValid key_b [] (pos 1) MemTable.new Laws.new-IsValid

entries-refines_example :
    IsSorted (MemTable.entries one_put).0
    × ((k : Bytes) → find k (MemTable.entries one_put).0 ≡ MemTable.get k one_put)
entries-refines_example = entries-refines one_put one_put-IsValid

-- Two index entries.
abbrev small_index : SparseIndex
small_index = record {
  entries = record { key = key_a; offset = 0 } ∷ record { key = key_b; offset = 12 } ∷ [];
  step = 1;
}

lookup_offset-floor_example :
    lookup_offset small_index key_b ≡ floor_offset small_index.entries key_b 0
lookup_offset-floor_example =
    lookup_offset-floor small_index key_b (unfold index_keys key_lt in ((refl, tt), (tt, tt)))

-- One word, no bit set.
abbrev pub small_filter : Filter
small_filter = record { bits = 5 ∷ []; num_bits = 64; num_hash = 3 }

pub small_filter-IsValid : Members.IsValid small_filter
small_filter-IsValid = record { words = refl; nonempty = omega arith; small = omega arith }

no_false_negatives_example :
    (f' : Filter) × (add_all (key_a ∷ key_b ∷ []) small_filter ≡ some f')
    × Members.IsValid f'
    × ((j : Bytes) → has_key j (key_a ∷ key_b ∷ []) ≡ true → Bloom.may_contain j f' ≡ some true)
    × ((j : Bytes)
        → Bloom.may_contain j small_filter ≡ some true
        → Bloom.may_contain j f' ≡ some true)
no_false_negatives_example =
    no_false_negatives (key_a ∷ key_b ∷ []) small_filter small_filter-IsValid

next_power_of_2_lem_example :
    (k : ℕ) × (next_power_of_2 1000 ≡ 2 ^ k) × (k ≤ 63) × (1000 ≤ 2 ^ k) × (2 ^ k < 2 * 1000)
next_power_of_2_lem_example = next_power_of_2_lem 1000 (omega arith) (omega arith)

deserialize-serialize_example : deserialize (serialize small_filter ++ (7 ∷ [])) ≡ some small_filter
deserialize-serialize_example =
    deserialize-serialize small_filter (7 ∷ []) small_filter-IsValid (omega arith, tt) (omega arith)
