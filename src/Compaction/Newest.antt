-- ===== src/Compaction/Newest.antt =====
-- The entries that DoCompact writes, against those of its inputs.
use mathlib.Core.Logic.Or
use mathlib.Core.Bool.{Bool-set}
use mathlib.Core.List.{Perm, Mem, mem-cons, mem-cons_self, mem-cons_of_mem, not-mem-nil}
use mathlib.Core.List.Perm
use lsm_tree_go.Common.{
  ◌≡◌, refl, ap, ◌∙◌, Bool, true, false, ◌&&◌, Option, none, some, List, [], ◌∷◌, arith, Bool-cases,
  inl, inr,
}
use lsm_tree_go.Common.Int.{ltb_ℤ}
use lsm_tree_go.Common.Keys.{Bytes, key_lt, key_eq, key_eq→eq, key_eq_refl, key_cases}
use lsm_tree_go.Common.Sort.{IsBelow, IsBelow-trans}
use lsm_tree_go.MemTable.{Entry}
use lsm_tree_go.MemTable.Sorted.{find, entry_keys, IsSorted}
use lsm_tree_go.Compaction.{entry_less}
use lsm_tree_go.Compaction.Order.{InOrder, ltb_ℤ_irrefl}
use lsm_tree_go.Compaction.Pending.{IsFirst-mem}
use lsm_tree_go.Compaction.Survivors.{
  survivors, IsFrom, IsFirst-IsFrom, find-survivors, unless_dropped,
}

-- The entry for the key that no other of the list is newer than, or none if the list has none.
abbrev pub IsNewest : Bytes → List Entry → Option Entry → Type 0
IsNewest key es none = (y : Entry) → Mem y es → key_eq y.key key ≡ false
IsNewest key es (some e) =
    Mem e es
    × (e.key ≡ key)
    × ((y : Entry) → Mem y es → key_eq y.key key ≡ true → ltb_ℤ e.timestamp y.timestamp ≡ false)

pub IsNewest-perm :
    (key : Bytes) (es fs : List Entry) (o : Option Entry)
    → Perm es fs
    → IsNewest key es o
    → IsNewest key fs o
IsNewest-perm key es fs none p n = λ y m. n y ((Perm.mem_iff p).1 m)
IsNewest-perm key es fs (some e) p (m, k, n) =
    ((Perm.mem_iff p).0 m, k, λ y m' q. n y ((Perm.mem_iff p).1 m') q)

IsNewest-cons :
    (key : Bytes) (e : Entry) (es : List Entry) (o : Option Entry)
    → key_eq e.key key ≡ false
    → IsNewest key es o
    → IsNewest key (e ∷ es) o
IsNewest-cons key e es none other n =
    λ y m. Or.elim (Bool-set _ _) (mem-cons.0 m) (λ same. rw same other) (n y)
IsNewest-cons key e es (some x) other (m, k, n) = (
  mem-cons_of_mem e m,
  k,
  λ y m' q.
      Or.elim (Bool-set _ _) (mem-cons.0 m')
        (λ same. let r = ap (λ z. key_eq z.key key) same in absurd (cc)) (λ t. n y t q),
)

-- In order, the first entry for a key is the newest.
pub find-IsNewest : (key : Bytes) (es : List Entry) → InOrder es → IsNewest key es (find key es)
unfolding find
find-IsNewest key [] o = λ y m. absurd (not-mem-nil m)
find-IsNewest key (e ∷ es) o = elim (Bool-cases (key_eq e.key key)) [
  | inr other ↦ rw other (IsNewest-cons key e es (find key es) other (find-IsNewest key es o.1))
  | inl here ↦ rw here (mem-cons_self, key_eq→eq e.key key here, not_newer here)
]
  where
    not_newer :
        key_eq e.key key ≡ true
        → (y : Entry) → Mem y (e ∷ es)
        → key_eq y.key key ≡ true
        → ltb_ℤ e.timestamp y.timestamp ≡ false
    not_newer here y m q =
        Or.elim (Bool-set _ _) (mem-cons.0 m) (λ same. rw same (ltb_ℤ_irrefl e.timestamp))
          (λ t.
            let f = IsFirst-mem e y es o.0 t in
            unfold entry_less in
            ground (arith, f, here, q, key_eq→eq e.key key, key_eq→eq y.key key, key_eq_refl key))

-- The survivors' keys ascend, above the key last seen.
pub survivors-IsSorted :
    (bottom : Bool) (last : Bytes) (es : List Entry)
    → InOrder es
    → IsFrom last es
    → IsBelow last (entry_keys (survivors bottom last es)) × IsSorted (survivors bottom last es)
unfolding survivors entry_keys
survivors-IsSorted bottom last [] o f = (tt, tt)
survivors-IsSorted bottom last (e ∷ es) o f =
    let (above, sorted) = survivors-IsSorted bottom e.key es o.1 (IsFirst-IsFrom e es o.0) in
    elim (Bool-cases (key_eq e.key last)) [
      | inl same ↦ rw same (survivors-IsSorted bottom last es o.1 f.1)
      | inr new ↦
          let up : key_lt last e.key ≡ true = ground (
            arith,
            new,
            f.0,
            key_cases last e.key,
            key_eq→eq e.key last,
            key_eq→eq last e.key,
            key_eq_refl last,
            key_eq_refl e.key,
          ) in
          let higher = IsBelow-trans last e.key (entry_keys (survivors bottom e.key es)) up above in
          elim (Bool-cases (e.tombstone && bottom)) [
            | inl gone ↦ rw (new, gone) (higher, sorted)
            | inr stays ↦ rw (new, stays) ((up, higher), (above, sorted))
          ]
    ]

IsFrom-nil : (es : List Entry) → IsFrom [] es
IsFrom-nil [] = tt
IsFrom-nil (e ∷ es) = (nothing_below e.key, IsFrom-nil es)
  where
    nothing_below : (k : Bytes) → key_lt k [] ≡ false
    nothing_below [] = unfold key_lt in refl
    nothing_below (b ∷ k) = unfold key_lt in refl

-- The survivors of a rearrangement in order are sorted, and give for every key but the empty one the newest
-- entry, unless that is a tombstone that is dropped.
pub survivors-IsNewest :
    (bottom : Bool) (es fs : List Entry)
    → InOrder es
    → Perm es fs
    → IsSorted (survivors bottom [] es)
      × ((key : Bytes)
          → key_eq key [] ≡ false
          → (o : Option Entry) × IsNewest key fs o
            × (find key (survivors bottom [] es) ≡ unless_dropped bottom o))
survivors-IsNewest bottom es fs o p = (
  (survivors-IsSorted bottom [] es o (IsFrom-nil es)).1,
  λ key k. (
    find key es,
    IsNewest-perm key es fs (find key es) p (find-IsNewest key es o),
    find-survivors bottom [] key es o (IsFrom-nil es) ∙ rw k refl,
  ),
)
