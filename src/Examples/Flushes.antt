-- ===== src/Examples/Flushes.antt =====
-- The theorem about flushMemtable in internal/lsm/lsm.go at a memtable of one entry.
use lsm_tree_go.Common.{◌≡◌, refl, false, some, List, ◌∷◌, []}
use lsm_tree_go.Common.Int.{pos}
use lsm_tree_go.Common.Keys.{key_eq}
use lsm_tree_go.Common.Outcome.{ok}
use lsm_tree_go.MemTable
use lsm_tree_go.MemTable.{Entry}
use lsm_tree_go.Wal.{Wal, sync_always}
use lsm_tree_go.Lsm.{Lsm}
use lsm_tree_go.MemTable.Laws
use lsm_tree_go.SparseIndex.{SparseIndex}
use lsm_tree_go.Lsm.Flushed.{IsRunning}
use lsm_tree_go.SsTable.Reader.{SsTable}
use lsm_tree_go.Lsm.{KeyValue, delete}
use lsm_tree_go.Lsm.Searched.{answer}
use lsm_tree_go.Lsm.History.{put, remove, map_answer, after_write}
use lsm_tree_go.Lsm.Answers.{after_put}
use lsm_tree_go.Examples.{key_a, key_b}
use lsm_tree_go.Examples.Tables.{up_os, up_os-IsUp}
use lsm_tree_go.Examples.Trees.{opened_tree, ring_log}

abbrev kept_log : Wal
kept_log = record ring_log { mode = sync_always }

abbrev full_entries : List Entry
full_entries = record { key = key_a; value = key_b; timestamp = pos 5; tombstone = false } ∷ []

abbrev full_tree : Lsm
full_tree = record opened_tree {
  memtable = MemTable.put key_a key_b (pos 5) MemTable.new;
  wal = some kept_log;
}

abbrev up_os-IsRunning : IsRunning up_os
up_os-IsRunning = record { up = up_os-IsUp; writes = refl; seeks = refl; renames = refl }

-- A tree without a log that flushes every PutBatch: a key is deleted and then put.
abbrev eager_tree : Lsm
eager_tree = record opened_tree { flush_threshold = 1 }

abbrev marked_tree : Lsm
marked_tree = record eager_tree { memtable = MemTable.delete key_a (pos 4) MemTable.new }

abbrev pairs : List KeyValue
pairs = record { key = key_a; value = key_b } ∷ []

abbrev put_tree : Lsm
put_tree = record eager_tree {
  memtable = MemTable.put key_a key_b (pos 5) (MemTable.delete key_a (pos 4) MemTable.new);
}

-- Which is the value that was put.
map_answer-pairs :
    map_answer key_a (put pairs ∷ remove key_a ∷ []) (answer key_a eager_tree) ≡ ok (some key_b)
unfolding map_answer after_write after_put key_eq
map_answer-pairs = refl
