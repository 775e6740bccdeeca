-- ===== src/Compaction/Merge.antt =====
-- The main loop of DoCompact, and the entries that it takes out of the heap.
use mathlib.Core.Logic.Or
use mathlib.Core.Path.{fun_ext}
use mathlib.Core.Bool.{Bool-set}
use mathlib.Core.List.{not-mem-nil, Perm, Mem, mem-cons, mem-cons_self, mem-cons_of_mem}
use mathlib.Core.List.Perm
use lsm_tree_go.Common.{
  ℕ, zero, suc, ◌≤◌, ◌<◌, ◌≡◌, refl, ap, false, Option, none, some, List, [], ◌∷◌, ◌++◌, length,
  arith,
}
use lsm_tree_go.Common.Keys.{Bytes}
use lsm_tree_go.Common.Outcome.{Outcome, ok, ◌>>=◌}
use lsm_tree_go.MemTable.{Entry}
use lsm_tree_go.SsTable.Writer.{Os}
use lsm_tree_go.SsTable.Reader.{EntryIter, next}
use lsm_tree_go.Compaction.{HeapEntry, State, no_entry, less, entry_less, emit, refill, merge_loop}
use lsm_tree_go.Compaction.Heap
use lsm_tree_go.Compaction.Heap.Laws.{IsHeap, IsLeast, length-perm, push_lem, pop_lem}
use lsm_tree_go.Compaction.Order.{IsFirst, InOrder, less-IsOrder}
use lsm_tree_go.Compaction.Pending.{
  after, AllSources-cons, Yields, remaining, remaining-Yields, AllSources, AllSources-perm, pending,
  pending-perm, IsFirst-perm, pending-IsFirst,
}

-- A heap of sources.
abbrev pub IsMerge : List HeapEntry → Type 0
IsMerge h = IsHeap no_entry less h × AllSources h

-- The loop's rounds for a list of entries.
unfoldable pub emit_all : Os → Bytes → ℕ → List Entry → State → Outcome State
emit_all os dir level [] st = ok st
emit_all os dir level (e ∷ es) st = emit os dir level e st >>= λ st'. emit_all os dir level es st'

-- The heap that a round leaves, once the iterator's next entry has been put back.
record Refilled (x : HeapEntry) (rest : List HeapEntry) : Type 0 where
  more : Option (Entry × EntryIter)
  now : next x.iter ≡ ok more
  merge : IsMerge (refill more rest)
  left : Perm (pending (refill more rest)) (remaining x.iter ++ pending rest)

refill-Refilled :
    (x : HeapEntry) (rest : List HeapEntry) (es : List Entry)
    → remaining x.iter ≡ es
    → Yields x.iter es
    → length es ≤ x.iter.sst.data_size
    → InOrder es
    → IsMerge rest
    → Refilled x rest
unfolding refill
refill-Refilled x rest [] r y n o (heap, sources) = record {
  more = none;
  now = y;
  merge = (heap, sources);
  left = rw r Perm.rfl;
}
refill-Refilled x rest (e ∷ es) r (now, same, y) n o (heap, sources) =
    let back : HeapEntry = record { entry = e; iter = after x.iter } in
    let short : length es ≤ (after x.iter).sst.data_size = rw same (omega arith) in
    let r' = remaining-Yields (after x.iter) es short y in
    let pushed = push_lem no_entry less less-IsOrder back rest heap in
    let all = AllSources-cons back rest (rw r' (y, short, o)) sources in
    record {
      more = some (e, after x.iter);
      now = now;
      merge = (
        pushed.0,
        AllSources-perm (back ∷ rest) (Heap.push no_entry less back rest) pushed.1 all,
      );
      left = Perm.trans (pending-perm pushed.1) (unfold pending in rw (r', r) Perm.rfl);
    }

-- What a round does: the least entry goes out, and the others are still pending.
record Round (h : List HeapEntry) (x : HeapEntry) (rest : List HeapEntry) : Type 0 where
  refilled : Refilled x rest
  same : Perm (x.entry ∷ pending (refill refilled.more rest)) (pending h)
  first : IsFirst x.entry (pending h)

least-mem :
    (x : HeapEntry) (h : List HeapEntry)
    → IsLeast no_entry less x h
    → (y : HeapEntry) → Mem y h
    → entry_less y.entry x.entry ≡ false
least-mem x [] l y m = absurd (not-mem-nil m)
least-mem x (z ∷ h) l y m =
    Or.elim (Bool-set _ _) (mem-cons.0 m) (λ e. rw e l.0) (least-mem x h l.1 y)

pop-Round :
    (h : List HeapEntry)
    → IsMerge h
    → 0 < length h
    → Round h (Heap.pop no_entry less h).0 (Heap.pop no_entry less h).1
pop-Round h (heap, sources) p =
    let x = (Heap.pop no_entry less h).0 in
    let rest = (Heap.pop no_entry less h).1 in
    let (left_heap, perm, least) = pop_lem no_entry less less-IsOrder h heap p in
    let all = AllSources-perm h (x ∷ rest) perm sources in
    let (y, n, (first, order)) = all x mem-cons_self in
    let r : Refilled x rest =
      refill-Refilled x rest (remaining x.iter) refl y n order
        (left_heap, λ z m. all z (mem-cons_of_mem x m)) in
    record {
      refilled = r;
      same = Perm.trans (Perm.cons x.entry r.left) (unfold pending in pending-perm perm);
      first = pending-IsFirst x.entry h sources (least-mem x h least);
    }

-- With as many rounds as there are entries, the loop puts all of them out, in order.
pub merge_loop-emit_all :
    (os : Os) (dir : Bytes) (level fuel : ℕ) (h : List HeapEntry)
    → IsMerge h
    → length (pending h) ≤ fuel
    → (es : List Entry) × Perm es (pending h)
      × InOrder es
      × ((st : State) → merge_loop os dir level fuel h st ≡ emit_all os dir level es st)
unfolding merge_loop emit_all
merge_loop-emit_all os dir level zero [] m n = ([], (unfold pending in Perm.rfl), tt, λ st. refl)
merge_loop-emit_all os dir level (suc fuel) [] m n =
    ([], (unfold pending in Perm.rfl), tt, λ st. refl)
merge_loop-emit_all os dir level zero (x ∷ h) m n = absurd (unfold pending in omega arith)
merge_loop-emit_all os dir level (suc fuel) (x ∷ h) m n =
    let least = Heap.pop no_entry less (x ∷ h) in
    let round = pop-Round (x ∷ h) m (omega arith) in
    let r = round.refilled in
    let (es, perm, order, runs) =
      merge_loop-emit_all os dir level fuel (refill r.more least.1) r.merge
        (let c = length-perm round.same in omega arith) in
    let whole = Perm.trans (Perm.cons least.0.entry perm) round.same in
    (
      least.0.entry ∷ es,
      whole,
      (
        (IsFirst-perm least.0.entry (pending (x ∷ h)) (least.0.entry ∷ es) whole round.first).1,
        order,
      ),
      λ st. rw r.now (ap (λ k. emit os dir level least.0.entry st >>= k) (fun_ext λ st'. runs st')),
    )
