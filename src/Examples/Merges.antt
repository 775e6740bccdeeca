-- ===== src/Examples/Merges.antt =====
-- The theorems about internal/compaction/compaction.go at a table of two entries.
use mathlib.Core.List.{Perm}
use lsm_tree_go.Common.{◌≡◌, false, Option, List, [], ◌∷◌, map, length, arith}
use lsm_tree_go.Common.Keys.{Bytes, key_eq}
use lsm_tree_go.Common.Outcome.{◌>>=◌}
use lsm_tree_go.MemTable.{Entry}
use lsm_tree_go.MemTable.Sorted.{find, IsSorted}
use lsm_tree_go.Compaction.{
  HeapEntry, State, no_entry, less, is_bottom_level, start, finish, merge_loop, do_compact,
}
use lsm_tree_go.Compaction.Heap.Laws.{IsHeap}
use lsm_tree_go.Compaction.Order.{InOrder}
use lsm_tree_go.Compaction.Pending.{pending}
use lsm_tree_go.Compaction.Merge.{IsMerge, emit_all, merge_loop-emit_all}
use lsm_tree_go.Compaction.Survivors.{write_all, unless_dropped}
use lsm_tree_go.Compaction.Newest.{IsNewest}
use lsm_tree_go.Compaction.Inputs.{
  Input, table_of, IsInput, entries_of, heads, heads-Filled, do_compact-IsNewest,
}
use lsm_tree_go.Examples.{key_a, both, small_filter}
use lsm_tree_go.Examples.Tables.{up_os, both_index, both-IsWritten}

abbrev one_input : Input
one_input = record { es = both; si = both_index; f = small_filter; path = key_a }

one_input-IsInput : IsInput one_input
one_input-IsInput = (both-IsWritten.sorted, both-IsWritten.entries)

do_compact-IsNewest_example :
    (out : List Entry) × IsSorted out
    × ((key : Bytes)
        → key_eq key [] ≡ false
        → (o : Option Entry) × IsNewest key (entries_of (one_input ∷ [])) o
          × (find key out ≡ unless_dropped (is_bottom_level 1) o))
    × (do_compact up_os (map table_of (one_input ∷ [])) key_a 1 7 [] ≡ (
        write_all up_os key_a 1 out (start 7 [])
        >>= finish up_os (length (map table_of (one_input ∷ [])))))
do_compact-IsNewest_example =
    do_compact-IsNewest up_os (one_input ∷ []) key_a 1 7 [] (one_input-IsInput, tt)
      (unfold entries_of in omega arith)

abbrev one_heap : List HeapEntry
one_heap = heads (one_input ∷ [])

one_heap-IsHeap : IsHeap no_entry less one_heap
one_heap-IsHeap = λ c p q r. absurd (omega arith)

one_heap-IsMerge : IsMerge one_heap
one_heap-IsMerge =
    (one_heap-IsHeap, (heads-Filled (one_input ∷ []) (one_input-IsInput, tt)).sources)

merge_loop-emit_all_example :
    (es : List Entry) × Perm es (pending one_heap)
    × InOrder es
    × ((st : State) → merge_loop up_os key_a 1 2 one_heap st ≡ emit_all up_os key_a 1 es st)
merge_loop-emit_all_example = merge_loop-emit_all up_os key_a 1 2 one_heap one_heap-IsMerge (
    rw (heads-Filled (one_input ∷ []) (one_input-IsInput, tt)).all
      (unfold entries_of in omega arith))
