-- ===== src/Compaction/Pending.antt =====
-- What a heap of iterators still has to give: the entries at hand and those behind them.
use mathlib.Core.List.{
  Perm, Permᴰ, perm_append_comm, append_assoc, Mem, mem-cons, mem-cons_self, mem-cons_of_mem,
  not-mem-nil,
}
use mathlib.Core.List.Perm
use mathlib.Core.Logic.{∥∥₁_elim}
use mathlib.Core.Logic.Or
use native.Mathlib.Decide.{ℕ_discrete}
use native.Mathlib.Bridge.{le_prop}
use mathlib.Core.Bool.{Bool-set}
use lsm_tree_go.Common.{
  ℕ, zero, suc, ◌≤◌, ◌≡◌, refl, ap, false, Option, none, some, List, [], ◌∷◌, ◌++◌, length, arith,
  All-append,
}
use lsm_tree_go.Common.Outcome.{Outcome, ok, fail, panic}
use lsm_tree_go.MemTable.{Entry}
use lsm_tree_go.SsTable.Reader.{EntryIter, next}
use lsm_tree_go.Compaction.{HeapEntry, entry_less}
use lsm_tree_go.Compaction.Order.{IsFirst, InOrder, IsFirst-trans}

abbrev moved : EntryIter → Outcome (Option (Entry × EntryIter)) → EntryIter
moved it (ok (some (e, it'))) = it'
moved it other = it

-- The iterator after a call of Next.
unfoldable pub after : EntryIter → EntryIter
after it = moved it (next it)

-- The iterator gives these entries, one call of Next after the other, and then no more.
abbrev pub Yields : EntryIter → List Entry → Type 0
Yields it [] = next it ≡ ok none
Yields it (e ∷ es) =
    (next it ≡ ok (some (e, after it))) × ((after it).sst ≡ it.sst) × Yields (after it) es

abbrev taken : Outcome (Option (Entry × EntryIter)) → (EntryIter → List Entry) → List Entry
taken (ok (some (e, it'))) more = e ∷ more it'
taken (ok none) more = []
taken (fail x) more = []
taken panic more = []

-- All that Next still gives, in `fuel` calls.
rest_of : ℕ → EntryIter → List Entry
rest_of zero it = []
rest_of (suc fuel) it = taken (next it) (λ it'. rest_of fuel it')

-- A record takes a byte at least, so there are no more entries than bytes.
pub remaining : EntryIter → List Entry
remaining it = rest_of it.sst.data_size it

rest_of-Yields :
    (fuel : ℕ) (it : EntryIter) (es : List Entry)
    → length es ≤ fuel
    → Yields it es
    → rest_of fuel it ≡ es
unfolding rest_of
rest_of-Yields zero it [] n y = refl
rest_of-Yields zero it (e ∷ es) n y = absurd (omega arith)
rest_of-Yields (suc fuel) it [] n y = rw y
rest_of-Yields (suc fuel) it (e ∷ es) n (now, same, y) =
    rw now (ap (λ l. e ∷ l) (rest_of-Yields fuel (after it) es (omega arith) y))

pub remaining-Yields :
    (it : EntryIter) (es : List Entry)
    → length es ≤ it.sst.data_size
    → Yields it es
    → remaining it ≡ es
unfolding remaining
remaining-Yields it es n y = rest_of-Yields it.sst.data_size it es n y

Yields-prop : (it : EntryIter) (es : List Entry) → IsProp (Yields it es)
Yields-prop it [] = hlevel ℕ_discrete
Yields-prop it (e ∷ es) = hlevel (ℕ_discrete, Yields-prop (after it) es)

IsFirst-prop : (e : Entry) (es : List Entry) → IsProp (IsFirst e es)
IsFirst-prop e [] = hlevel
IsFirst-prop e (x ∷ es) = hlevel (IsFirst-prop e es)

InOrder-prop : (es : List Entry) → IsProp (InOrder es)
InOrder-prop [] = hlevel
InOrder-prop (e ∷ es) = hlevel (IsFirst-prop e es, InOrder-prop es)

-- An entry at hand that comes before all that its iterator gives, in order.
abbrev pub IsSource : HeapEntry → Type 0
IsSource x =
    Yields x.iter (remaining x.iter)
    × (length (remaining x.iter) ≤ x.iter.sst.data_size)
    × InOrder (x.entry ∷ remaining x.iter)

IsSource-prop : (x : HeapEntry) → IsProp (IsSource x)
IsSource-prop x =
    hlevel
      (Yields-prop x.iter (remaining x.iter), le_prop, InOrder-prop (x.entry ∷ remaining x.iter))

abbrev pub AllSources : List HeapEntry → Type 0
AllSources h = (x : HeapEntry) → Mem x h → IsSource x

pub AllSources-cons :
    (x : HeapEntry) (h : List HeapEntry) → IsSource x → AllSources h → AllSources (x ∷ h)
AllSources-cons x h s hs =
    λ y m. Or.elim (IsSource-prop y) (mem-cons.0 m) (λ e. rw e s) (λ n. hs y n)

unfoldable pub pending : List HeapEntry → List Entry
pending [] = []
pending (x ∷ h) = x.entry ∷ (remaining x.iter ++ pending h)

pending-cons :
    (x : HeapEntry) (h k : List HeapEntry)
    → Perm (pending h) (pending k)
    → Perm (pending (x ∷ h)) (pending (x ∷ k))
unfolding pending
pending-cons x h k p = Perm.cons x.entry (Perm.append_left (remaining x.iter) p)

pending-swap :
    (x y : HeapEntry) (h : List HeapEntry) → Perm (pending (x ∷ y ∷ h)) (pending (y ∷ x ∷ h))
unfolding pending
pending-swap x y h =
    let xs = x.entry ∷ remaining x.iter in
    let ys = y.entry ∷ remaining y.iter in
    rw append_assoc at rw append_assoc at (Perm.append_right (pending h) (perm_append_comm xs ys))

pending-permᴰ : {h k : List HeapEntry} → Permᴰ h k → Perm (pending h) (pending k)
pending-permᴰ Permᴰ.nil = Perm.rfl
pending-permᴰ (Permᴰ.cons {b} {l₁} {l₂} e p) = rw e (pending-cons b l₁ l₂ (pending-permᴰ p))
pending-permᴰ (Permᴰ.swap {a'} {b'} {l} e f) = rw (e, f) (pending-swap b' a' l)
pending-permᴰ (Permᴰ.trans p q) = Perm.trans (pending-permᴰ p) (pending-permᴰ q)

pub pending-perm : {h k : List HeapEntry} → Perm h k → Perm (pending h) (pending k)
pending-perm p = ∥∥₁_elim p (hlevel) pending-permᴰ

pub AllSources-perm : (h k : List HeapEntry) → Perm k h → AllSources h → AllSources k
AllSources-perm h k p s = λ x m. s x ((Perm.mem_iff p).0 m)

-- A test that all entries of a list pass, those of a rearrangement pass.
pub IsFirst-mem : (e y : Entry) (es : List Entry) → IsFirst e es → Mem y es → entry_less y e ≡ false
IsFirst-mem e y [] h m = absurd (not-mem-nil m)
IsFirst-mem e y (x ∷ es) h m =
    Or.elim (Bool-set _ _) (mem-cons.0 m) (λ same. rw same h.0) (IsFirst-mem e y es h.1)

IsFirst-of_mem :
    (e : Entry) (es : List Entry) → ((y : Entry) → Mem y es → entry_less y e ≡ false) → IsFirst e es
IsFirst-of_mem e [] h = tt
IsFirst-of_mem e (x ∷ es) h =
    (h x mem-cons_self, IsFirst-of_mem e es (λ y m. h y (mem-cons_of_mem x m)))

pub IsFirst-perm : (e : Entry) (es fs : List Entry) → Perm fs es → IsFirst e es → IsFirst e fs
IsFirst-perm e es fs p h = IsFirst-of_mem e fs (λ y m. IsFirst-mem e y es h ((Perm.mem_iff p).0 m))

-- Where no entry at hand comes before `e`, none comes at all.
pub pending-IsFirst :
    (e : Entry) (h : List HeapEntry)
    → AllSources h
    → ((x : HeapEntry) → Mem x h → entry_less x.entry e ≡ false)
    → IsFirst e (pending h)
unfolding pending
pending-IsFirst e [] s f = tt
pending-IsFirst e (x ∷ h) s f =
    let (y, n, (first, order)) = s x mem-cons_self in
    let here = f x mem-cons_self in
    (
      here,
      All-append (λ y. entry_less y e ≡ false) (remaining x.iter) (pending h)
          (IsFirst-trans e x.entry (remaining x.iter) here first)
          (pending-IsFirst e h (λ z m. s z (mem-cons_of_mem x m))
            (λ z m. f z (mem-cons_of_mem x m))),
    )
