-- ===== src/MemTable.antt =====
-- internal/memtable/entry.go: the in-memory table, with its cached list of keys.
-- `m` is the Go map; the pre-allocated capacity of `New` has no effect on the results.
pub mod Laws
pub mod Sorted
use lsm_tree_go.Common.{
  ℕ, ◌+◌, ◌-◌, Bool, true, false, ◌||◌, Option, none, some, List, [], map, length, if◌then◌else◌,
}
use lsm_tree_go.Common.Int.{ℤ, pos}
use lsm_tree_go.Common.Keys.{Bytes}
use lsm_tree_go.Common.Map.{lookup, insert, keys}
use lsm_tree_go.Common.Sort.{sort_strings}

pub record Entry : Type 0 where
  pub key : Bytes
  pub value : Bytes
  pub timestamp : ℤ
  pub tombstone : Bool

-- The zero value of the struct.
abbrev pub zero_entry : Entry
zero_entry = record { key = []; value = []; timestamp = pos 0; tombstone = false }

pub record MemTable : Type 0 where
  pub m : List (Bytes × Entry)
  pub keys : Option (List Bytes)
  pub size : ℕ
  pub dirty : Bool

-- New
abbrev pub new : MemTable
new = record { m = []; keys = none; size = 0; dirty = false }

-- `len(key) + len(value) + 16`
abbrev pub entry_size : Entry → ℕ
entry_size e = length e.key + length e.value + 16

-- The first half of `Put` and `Delete`: an old entry's size is taken off, a new key makes the cached
-- list stale.
unfoldable pub release : Bytes → MemTable → MemTable
release key t = elim (lookup key t.m) [
  | some old ↦ record t { size = t.size - (length key + length old.value + 16) }
  | none ↦ record t { dirty = true }
]

unfoldable pub put : Bytes → Bytes → ℤ → MemTable → MemTable
unfolding release
put key value timestamp t =
    let new_size = length key + length value + 16 in
    let t' = release key t in
    let e : Entry = record { key = key; value = value; timestamp = timestamp; tombstone = false } in
    record t' { m = insert key e t'.m; size = t'.size + new_size }

unfoldable pub delete : Bytes → ℤ → MemTable → MemTable
unfolding release
delete key timestamp t =
    let t' = release key t in
    let e : Entry = record { key = key; value = []; timestamp = timestamp; tombstone = true } in
    record t' { m = insert key e t'.m; size = t'.size + (length key + 16) }

unfoldable pub get : Bytes → MemTable → Option Entry
get key t = lookup key t.m

-- `m.m[k]`: a missing key reads as the zero entry.
unfoldable pub entry_at : List (Bytes × Entry) → Bytes → Entry
entry_at m k = elim (lookup k m) [ some e ↦ e | none ↦ zero_entry ]

-- The keys are collected and sorted again if a key has come in since, or if there is no list yet.
unfoldable pub refresh : MemTable → List Bytes × MemTable
refresh t =
    let fresh = sort_strings (keys t.m) in
    let rebuilt : MemTable = record t { keys = some fresh; dirty = false } in
    elim t.keys [
      | none ↦ (fresh, rebuilt)
      | some cached ↦ if t.dirty then (fresh, rebuilt) else (cached, t)
    ]

unfoldable pub entries : MemTable → List Entry × MemTable
unfolding refresh entry_at
entries t = let (ks, t') = refresh t in (map (entry_at t'.m) ks, t')

unfoldable pub size : MemTable → ℕ
size t = t.size

-- The number of keys, `len(m.m)`.
unfoldable pub count : MemTable → ℕ
count t = length t.m
