-- ===== src/Compaction/Inputs.antt =====
-- DoCompact on tables as a writer leaves them.
use mathlib.Core.List.{Perm, not-mem-nil}
use mathlib.Core.List.Perm
use lsm_tree_go.Common.{
  ℕ, ◌≤◌, ◌<◌, ◌≡◌, refl, sym, ap, subst, ◌∙◌, false, Option, none, some, List, [], ◌∷◌, ◌++◌, All,
  map, length, arith, length-append,
}
use lsm_tree_go.Common.Keys.{Bytes, key_eq, key_eq→eq, key_lt_irrefl, key_lt_trans}
use lsm_tree_go.Common.Outcome.{Outcome, ok, fail, panic, ◌>>=◌}
use lsm_tree_go.Common.Sort.{IsBelow}
use lsm_tree_go.MemTable.{Entry}
use lsm_tree_go.MemTable.Sorted.{IsSorted, entry_keys}
use lsm_tree_go.SparseIndex.{SparseIndex}
use lsm_tree_go.Bloom.{Filter}
use lsm_tree_go.SsTable.Codec.{IsGoEntry}
use lsm_tree_go.SsTable.Writer.{Os}
use lsm_tree_go.SsTable.Writer.Appends.{table_bytes}
use lsm_tree_go.SsTable.Reader.{SsTable, EntryIter, iter, next}
use lsm_tree_go.SsTable.Reader.Opened.{table}
use lsm_tree_go.Compaction.{
  Disk, Stats, State, Output, merge_loop, HeapEntry, entry_less, first_entries, total_size,
  no_entry, less, is_bottom_level, start, finish, merge_heap, do_compact,
}
use lsm_tree_go.Compaction.Heap
use lsm_tree_go.Compaction.Heap.Laws.{init_lem, length-perm}
use lsm_tree_go.Compaction.Order.{IsFirst, InOrder, less-IsOrder}
use lsm_tree_go.Compaction.Pending.{
  remaining, remaining-Yields, AllSources, AllSources-perm, AllSources-cons, IsSource, pending,
  pending-perm,
}
use lsm_tree_go.Compaction.Merge.{emit_all, merge_loop-emit_all}
use lsm_tree_go.Compaction.Survivors.{survivors, write_all, emit_all-write_all}
use lsm_tree_go.Compaction.Cursor.{
  iter_behind, next-iter_behind, next-end, iter_behind-Yields, length-le-bytes,
}
use lsm_tree_go.Compaction.Newest.{IsNewest, survivors-IsNewest}
use lsm_tree_go.Compaction.Survivors.{unless_dropped}
use lsm_tree_go.MemTable.Sorted.{find}

pub record Input : Type 0 where
  pub es : List Entry
  pub si : SparseIndex
  pub f : Filter
  pub path : Bytes

abbrev pub table_of : Input → SsTable
table_of i = table i.es i.si i.f i.path

-- Sorted entries that fit Go's types.
abbrev pub IsInput : Input → Type 0
IsInput i = IsSorted i.es × All IsGoEntry i.es

-- All entries, table after table.
unfoldable pub entries_of : List Input → List Entry
entries_of [] = []
entries_of (i ∷ inputs) = i.es ++ entries_of inputs

-- Ascending keys are in the heap's order.
IsBelow-IsFirst : (e : Entry) (es : List Entry) → IsBelow e.key (entry_keys es) → IsFirst e es
unfolding entry_keys
IsBelow-IsFirst e [] h = tt
IsBelow-IsFirst e (y ∷ es) h = (not_before, IsBelow-IsFirst e es h.1)
  where
    not_before : entry_less y e ≡ false
    not_before =
        unfold entry_less in
        ground (
          arith,
          h.0,
          key_eq→eq y.key e.key,
          key_lt_irrefl e.key,
          key_lt_trans y.key e.key y.key,
          key_lt_irrefl y.key,
        )

IsSorted-InOrder : (es : List Entry) → IsSorted es → InOrder es
unfolding entry_keys
IsSorted-InOrder [] h = tt
IsSorted-InOrder (e ∷ es) h = (IsBelow-IsFirst e es h.0, IsSorted-InOrder es h.1)

-- The iterator behind the first entry of a table.
abbrev pub second : Input → Entry → EntryIter
second i e = iter_behind i.es i.si i.f i.path (e ∷ [])

-- The first item of a table that has one.
abbrev pub head_of : Input → List Entry → List HeapEntry → List HeapEntry
head_of i [] h = h
head_of i (e ∷ es) h = record { entry = e; iter = second i e } ∷ h

abbrev pub heads : List Input → List HeapEntry
heads [] = []
heads (i ∷ inputs) = head_of i i.es (heads inputs)

first-none : (i : Input) → i.es ≡ [] → next (iter (table_of i)) ≡ ok none
first-none i split = let e = next-end i.es i.si i.f i.path [] split in unfold table_bytes in e

first-some :
    (i : Input) (e : Entry) (es : List Entry)
    → i.es ≡ e ∷ es
    → IsGoEntry e
    → next (iter (table_of i)) ≡ ok (some (e, second i e))
first-some i e es split h =
    let n = next-iter_behind i.es i.si i.f i.path [] e es split h in unfold table_bytes in n

second-IsSource :
    (i : Input) (e : Entry) (es : List Entry)
    → i.es ≡ e ∷ es
    → IsInput i
    → IsSource (record { entry = e; iter = second i e }) × (remaining (second i e) ≡ es)
second-IsSource i e es split (sorted, fits) =
    let y = iter_behind-Yields i.es i.si i.f i.path (e ∷ []) es split (rw split at fits).1 in
    let short : length es ≤ length (table_bytes i.es) =
      let n = ap length split in omega (arith, length-le-bytes i.es) in
    let r = remaining-Yields (second i e) es short y in
    let order = IsSorted-InOrder (e ∷ es) (rw split at sorted) in (rw r (y, short, order), r)

-- What first_entries makes of the inputs.
pub record Filled (inputs : List Input) : Type 0 where
  pub filled : first_entries (map table_of inputs) ≡ ok (heads inputs)
  pub sources : AllSources (heads inputs)
  pub all : pending (heads inputs) ≡ entries_of inputs

pending-back :
    (back : HeapEntry) (es : List Entry) (h : List HeapEntry)
    → remaining back.iter ≡ es
    → pending (back ∷ h) ≡ (back.entry ∷ es) ++ pending h
unfolding pending
pending-back back es h r = ap (λ l. back.entry ∷ (l ++ pending h)) r

pub heads-Filled : (inputs : List Input) → All IsInput inputs → Filled inputs
heads-Filled [] h = record {
  filled = unfold first_entries in refl;
  sources = λ x m. absurd (not-mem-nil m);
  all = unfold pending entries_of in refl;
}
heads-Filled (i ∷ inputs) h = add (heads-Filled inputs h.1) i.es refl
  where
    add : Filled inputs → (es : List Entry) → i.es ≡ es → Filled (i ∷ inputs)
    add rest [] split = record {
      filled = unfold first_entries in rw (first-none i split, rest.filled, split) refl;
      sources = rw split rest.sources;
      all = unfold entries_of in rw split rest.all;
    }
    add rest (e ∷ es) split =
        let (source, r) = second-IsSource i e es split h.0 in
        let back : HeapEntry = record { entry = e; iter = second i e } in
        let joined : heads (i ∷ inputs) ≡ back ∷ heads inputs =
          ap (λ l. head_of i l (heads inputs)) split in
        record {
          filled =
              unfold first_entries in
              rw (first-some i e es split (rw split at h.0.1).0, rest.filled, split) refl;
          sources =
              subst (λ h. AllSources h) (sym joined)
                (AllSources-cons back (heads inputs) source rest.sources);
          all =
              ap pending joined
              ∙ (pending-back back es (heads inputs) r
                  ∙ (ap (λ l. (e ∷ es) ++ l) rest.all
                      ∙ (unfold entries_of in ap (λ l. l ++ entries_of inputs) (sym split))));
        }

entries-le-total :
    (inputs : List Input) → length (entries_of inputs) ≤ total_size (map table_of inputs)
unfolding entries_of
entries-le-total [] = omega arith
entries-le-total (i ∷ inputs) =
    omega
      (arith, entries-le-total inputs, length-append i.es (entries_of inputs), length-le-bytes i.es)

merge_heap-some :
    (os : Os) (tables : List SsTable) (dir : Bytes) (level id : ℕ) (disk : Disk)
    (h : List HeapEntry)
    → 0 < length h
    → merge_heap os tables dir level id disk h ≡ (
        merge_loop os dir level
          (total_size tables)
          (Heap.init no_entry less h)
          (record { last_key = []; out = start id disk })
        >>= λ st. finish os (length tables) st.out)
unfolding merge_heap
merge_heap-some os tables dir level id disk [] p = absurd (omega arith)
merge_heap-some os tables dir level id disk (x ∷ h) p = refl

do_compact-Filled :
    (os : Os) (inputs : List Input) (dir : Bytes) (level id : ℕ) (disk : Disk)
    → Filled inputs
    → do_compact os (map table_of inputs) dir level id disk
      ≡ merge_heap os (map table_of inputs) dir level id disk (heads inputs)
unfolding do_compact
do_compact-Filled os inputs dir level id disk b = rw b.filled refl

pending-pos : (h : List HeapEntry) → 0 < length (pending h) → 0 < length h
unfolding pending
pending-pos [] p = p
pending-pos (x ∷ h) p = omega arith

>>=-out :
    (r : Outcome State) (g : Output → Outcome (List Bytes × Option Stats × Disk))
    → (r >>= λ st. g st.out) ≡ ((r >>= λ st. ok st.out) >>= g)
>>=-out (ok st) g = refl
>>=-out (fail e) g = refl
>>=-out panic g = refl

do_compact-survivors :
    (os : Os) (inputs : List Input) (dir : Bytes) (level id : ℕ) (disk : Disk)
    → All IsInput inputs
    → 0 < length (entries_of inputs)
    → (es : List Entry) × Perm es (entries_of inputs)
      × InOrder es
      × (do_compact os (map table_of inputs) dir level id disk ≡ (
          write_all os dir level (survivors (is_bottom_level level) [] es) (start id disk)
          >>= finish os (length (map table_of inputs))))
do_compact-survivors os inputs dir level id disk h p =
    let b = heads-Filled inputs h in
    let (heap, perm) = init_lem no_entry less less-IsOrder (heads inputs) in
    let start_heap = Heap.init no_entry less (heads inputs) in
    let same : Perm (pending start_heap) (entries_of inputs) =
      rw b.all at (pending-perm {h = start_heap} {k = heads inputs} perm) in
    let n = length-perm same in
    let (es, whole, order, runs) =
      merge_loop-emit_all os dir level (total_size (map table_of inputs)) start_heap
        (heap, AllSources-perm (heads inputs) start_heap perm b.sources)
        (omega (arith, entries-le-total inputs)) in
    (
      es,
      Perm.trans whole same,
      order,
      (do_compact-Filled os inputs dir level id disk b
          ∙ (merge_heap-some os (map table_of inputs) dir level id disk (heads inputs)
                (pending-pos (heads inputs) (rw b.all p))
              ∙ (ap (λ r. r >>= λ s. finish os (length (map table_of inputs)) s.out) (runs st)
                  ∙ (>>=-out (emit_all os dir level es st)
                        (finish os (length (map table_of inputs)))
                      ∙ ap (λ r. r >>= finish os (length (map table_of inputs)))
                          (emit_all-write_all os dir level es st))))),
    )
  where
    st : State
    st = record { last_key = []; out = start id disk }

-- On tables of sorted entries that are not all empty, DoCompact does what it does to write one list of entries,
-- one after the other, and to finish. That list's keys ascend strictly, and for every key but the empty one it
-- has the newest entry of the tables, but on the bottom level no tombstone, and nothing else.
pub do_compact-IsNewest :
    (os : Os) (inputs : List Input) (dir : Bytes) (level id : ℕ) (disk : Disk)
    → All IsInput inputs
    → 0 < length (entries_of inputs)
    → (out : List Entry) × IsSorted out
      × ((key : Bytes)
          → key_eq key [] ≡ false
          → (o : Option Entry) × IsNewest key (entries_of inputs) o
            × (find key out ≡ unless_dropped (is_bottom_level level) o))
      × (do_compact os (map table_of inputs) dir level id disk ≡ (
          write_all os dir level out (start id disk) >>= finish os (length (map table_of inputs))))
do_compact-IsNewest os inputs dir level id disk h p =
    let (es, perm, order, runs) = do_compact-survivors os inputs dir level id disk h p in
    let (sorted, newest) =
      survivors-IsNewest (is_bottom_level level) es (entries_of inputs) order perm in
    (survivors (is_bottom_level level) [] es, sorted, newest, runs)
