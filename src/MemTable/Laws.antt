-- ===== src/MemTable/Laws.antt =====
-- The memtable as a map from keys to their newest entries, and its size accounting.
use lsm_tree_go.Common.{
  ℕ, ◌+◌, ◌≤◌, ◌≡◌, refl, true, false, none, some, List, [], ◌∷◌, inl, inr, length, arith,
  if◌then◌else◌, Option-cases,
}
use lsm_tree_go.Common.Int.{ℤ}
use lsm_tree_go.Common.Keys.{Bytes, key_eq, key_eq→eq}
use lsm_tree_go.Common.Map.{
  lookup, insert, keys, Distinct, lookup-insert, insert-Distinct, keys-insert_present,
}
use lsm_tree_go.Common.Sort.{sort_strings}
use lsm_tree_go.MemTable.{Entry, MemTable, new, release, put, delete, get}

abbrev pub written : Bytes → Bytes → ℤ → Entry
written k v ts = record { key = k; value = v; timestamp = ts; tombstone = false }

abbrev pub tombstone_for : Bytes → ℤ → Entry
tombstone_for k ts = record { key = k; value = []; timestamp = ts; tombstone = true }

-- After a `Put` the key has the new entry, and every other key has what it had.
pub get-put :
    (k j v : Bytes) (ts : ℤ) (t : MemTable)
    → get j (put k v ts t) ≡ (if key_eq k j then some (written k v ts) else get j t)
unfolding get put
get-put k j v ts t = ground (arith, lookup-insert k j (written k v ts) t.m)

-- After a `Delete` the key has a tombstone, and every other key has what it had.
pub get-delete :
    (k j : Bytes) (ts : ℤ) (t : MemTable)
    → get j (delete k ts t) ≡ (if key_eq k j then some (tombstone_for k ts) else get j t)
unfolding get delete
get-delete k j ts t = ground (arith, lookup-insert k j (tombstone_for k ts) t.m)

-- The bytes that the entries of a map are charged with.
abbrev pub total_size : List (Bytes × Entry) → ℕ
total_size [] = 0
total_size ((k, e) ∷ m) = length k + length e.value + 16 + total_size m

total_size-insert_present :
    (k : Bytes) (e o : Entry) (m : List (Bytes × Entry))
    → lookup k m ≡ some o
    → total_size (insert k e m) + length o.value ≡ total_size m + length e.value
unfolding lookup insert
total_size-insert_present k e o [] h = cc
total_size-insert_present k e o ((j, w) ∷ m) h = ground (arith, total_size-insert_present k e o m)

total_size-insert_absent :
    (k : Bytes) (e : Entry) (m : List (Bytes × Entry))
    → lookup k m ≡ none
    → total_size (insert k e m) ≡ total_size m + (length k + length e.value + 16)
unfolding lookup insert
total_size-insert_absent k e [] h = omega arith
total_size-insert_absent k e ((j, w) ∷ m) h = ground (arith, total_size-insert_absent k e m)

-- An entry that is there is counted.
size_of_present :
    (k : Bytes) (o : Entry) (m : List (Bytes × Entry))
    → lookup k m ≡ some o
    → length k + length o.value + 16 ≤ total_size m
unfolding lookup
size_of_present k o [] h = cc
size_of_present k o ((j, w) ∷ m) h = ground (arith, size_of_present k o m, key_eq→eq j k)

-- What holds of every memtable that the program builds.
pub record IsValid (t : MemTable) : Type 0 where
  -- `size` is exact, so the subtraction in `Put` and `Delete` never passes below zero
  pub exact : t.size ≡ total_size t.m
  pub distinct : Distinct (keys t.m)
  -- an entry carries the key it is stored under
  pub keyed : (k : Bytes) (e : Entry) → lookup k t.m ≡ some e → e.key ≡ k
  -- a cached list that is not marked stale is the sorted list of the keys
  pub cached : (ks : List Bytes) → t.keys ≡ some ks → t.dirty ≡ false → ks ≡ sort_strings (keys t.m)

pub new-IsValid : IsValid new
unfolding lookup keys
new-IsValid = record { exact = refl; distinct = tt; keyed = λ k e h. cc; cached = λ ks h d. cc }

-- Writing an entry under its key, after `release`, keeps the invariant.
module _ (t : MemTable) (v : IsValid t) (e : Entry) where
  abbrev stored : MemTable
  stored = record (release e.key t) {
    m = insert e.key e t.m;
    size = (release e.key t).size + (length e.key + length e.value + 16);
  }

  stored-exact : stored.size ≡ total_size stored.m
  unfolding release
  stored-exact = elim (Option-cases (lookup e.key t.m)) [
    | inl absent ↦ ground (arith, v.exact, total_size-insert_absent e.key e t.m absent)
    | inr (o, there) ↦ ground (
      arith,
      v.exact,
      total_size-insert_present e.key e o t.m there,
      size_of_present e.key o t.m there,
    )
  ]

  stored-cached :
      (ks : List Bytes)
      → stored.keys ≡ some ks
      → stored.dirty ≡ false
      → ks ≡ sort_strings (keys stored.m)
  unfolding release
  stored-cached ks = elim (Option-cases (lookup e.key t.m)) [
    | inl absent ↦ λ h d. ground arith
    | inr (o, there) ↦ λ h d. ground (arith, keys-insert_present e.key e o t.m there, v.cached ks)
  ]

  stored-IsValid : IsValid stored
  stored-IsValid = record {
    exact = stored-exact;
    distinct = insert-Distinct e.key e t.m v.distinct;
    keyed = λ j x h. ground (arith, lookup-insert e.key j e t.m, key_eq→eq e.key j, v.keyed j x);
    cached = stored-cached;
  }

put-eq-stored :
    (k v : Bytes) (ts : ℤ) (t : MemTable) (h : IsValid t)
    → put k v ts t ≡ stored t h (written k v ts)
unfolding put
put-eq-stored k v ts t h = ground arith

delete-eq-stored :
    (k : Bytes) (ts : ℤ) (t : MemTable) (h : IsValid t)
    → delete k ts t ≡ stored t h (tombstone_for k ts)
unfolding delete
delete-eq-stored k ts t h = ground arith

-- `Put` keeps the invariant: exact size, distinct keys, keyed entries, a cached list that is right.
pub put-IsValid : (k v : Bytes) (ts : ℤ) (t : MemTable) → IsValid t → IsValid (put k v ts t)
put-IsValid k v ts t h = rw (put-eq-stored k v ts t h) (stored-IsValid t h (written k v ts))

-- `Delete` keeps the invariant: exact size, distinct keys, keyed entries, a cached list that is right.
pub delete-IsValid : (k : Bytes) (ts : ℤ) (t : MemTable) → IsValid t → IsValid (delete k ts t)
delete-IsValid k ts t h = rw (delete-eq-stored k ts t h) (stored-IsValid t h (tombstone_for k ts))
