-- ===== src/MemTable/Sorted.antt =====
-- `Entries`: the table as a strictly ascending list, which is what a flush writes.
use lsm_tree_go.Common.{
  ◌≡◌, refl, true, Option, none, some, List, [], ◌∷◌, map, arith, if◌then◌else◌, Option-cases, inl,
  inr,
}
use lsm_tree_go.Common.Keys.{Bytes, key_eq, key_eq→eq, key_eq_refl}
use lsm_tree_go.Common.Map.{lookup, keys, has_key, has_key-keys}
use lsm_tree_go.Common.Sort.{
  sort_strings, IsAscending, has_key-sort_strings, sort_strings-IsAscending,
}
use lsm_tree_go.MemTable.{Entry, MemTable, entry_at, refresh, entries, get}
use lsm_tree_go.MemTable.Laws.{IsValid}

-- The first entry with the key.
unfoldable pub find : Bytes → List Entry → Option Entry
find k [] = none
find k (e ∷ es) = if key_eq e.key k then some e else find k es

unfoldable pub entry_keys : List Entry → List Bytes
entry_keys [] = []
entry_keys (e ∷ es) = e.key ∷ entry_keys es

-- Keys strictly ascending: one entry for each key, in the order of the file.
abbrev pub IsSorted : List Entry → Type 0
IsSorted es = IsAscending (entry_keys es)

module _ (m : List (Bytes × Entry)) where
  abbrev IsKeyedAt : List Bytes → Type 0
  IsKeyedAt ks = (k : Bytes) → has_key k ks ≡ true → (entry_at m k).key ≡ k

  entry_keys-map : (ks : List Bytes) → IsKeyedAt ks → entry_keys (map (entry_at m) ks) ≡ ks
  unfolding entry_keys has_key
  entry_keys-map [] h = refl
  entry_keys-map (k ∷ ks) h =
      ground (arith, h k, key_eq_refl k, entry_keys-map ks (λ j p. h j (ground arith)))

  find-map :
      (j : Bytes) (ks : List Bytes)
      → IsKeyedAt ks
      → find j (map (entry_at m) ks) ≡ (if has_key j ks then some (entry_at m j) else none)
  unfolding find has_key
  find-map j [] h = refl
  find-map j (k ∷ ks) h =
      ground (arith, h k, key_eq_refl k, key_eq→eq k j, find-map j ks (λ i p. h i (ground arith)))

-- `Entries` lists the keys afresh, whether it sorts or takes the cached list.
pub entries-fresh :
    (t : MemTable) → IsValid t → (entries t).0 ≡ map (entry_at t.m) (sort_strings (keys t.m))
unfolding entries
entries-fresh t h = elim (Option-cases t.keys) [
  | inl none_yet ↦ ground arith
  | inr (ks, e) ↦ ground (arith, h.cached ks)
]

refresh-m : (t : MemTable) → (refresh t).1.m ≡ t.m
unfolding refresh
refresh-m t = ground arith

-- `Entries` changes only the cache, and the invariant holds afterwards.
pub entries-IsValid : (t : MemTable) → IsValid t → IsValid (entries t).1
unfolding entries
entries-IsValid t h = record {
  exact = ground (arith, h.exact);
  distinct = rw (refresh-m t) h.distinct;
  keyed = λ k e p. h.keyed k e (rw (refresh-m t) at p);
  cached = λ ks p d. ground (arith, h.cached ks);
}

module _ (t : MemTable) (h : IsValid t) where
  keyed_at : (k : Bytes) → has_key k (sort_strings (keys t.m)) ≡ true → (entry_at t.m k).key ≡ k
  unfolding entry_at
  keyed_at k p = elim (Option-cases (lookup k t.m)) [
    | inl e ↦ ground (arith, has_key-sort_strings k (keys t.m), has_key-keys k t.m)
    | inr (x, e) ↦ ground (arith, h.keyed k x)
  ]

  -- `Entries` of a valid table has strictly ascending keys, and finds for every key what `Get` finds.
  pub entries-refines : IsSorted (entries t).0 × ((k : Bytes) → find k (entries t).0 ≡ get k t)
  unfolding get entry_at
  entries-refines = (
    rw (entries-fresh t h, entry_keys-map t.m (sort_strings (keys t.m)) keyed_at)
        (sort_strings-IsAscending (keys t.m) h.distinct),
    λ k.
        rw (entries-fresh t h, find-map t.m k (sort_strings (keys t.m)) keyed_at)
          (ground (arith, has_key-sort_strings k (keys t.m), has_key-keys k t.m)),
  )
