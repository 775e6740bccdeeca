-- ===== src/Common/Map.antt =====
-- Go maps with string keys, as association lists. The program never depends on the order in which a
-- map is ranged over: it sorts what it collects.
use mathlib.Core.Path.{◌≡◌, refl}
use mathlib.Core.Bool.{Bool, true, false}
use mathlib.Core.Option.{Option, none, some}
use mathlib.Core.List.{List, [], ◌∷◌}
use native.Mathlib.Omega.{arith}
use lsm_tree_go.Common.Tests.{if◌then◌else◌}
use lsm_tree_go.Common.Keys.{Bytes, key_eq, key_eq→eq, key_eq_refl}

abbrev pub is_some {ℓ} : {A : Type ℓ} → Option A → Bool
is_some none = false
is_some (some a) = true

-- `k` stands in the list.
unfoldable pub has_key : Bytes → List Bytes → Bool
has_key k [] = false
has_key k (x ∷ xs) = if key_eq x k then true else has_key k xs

-- No key stands in the list twice.
abbrev pub Distinct : List Bytes → Type 0
Distinct [] = Unit
Distinct (x ∷ xs) = (has_key x xs ≡ false) × Distinct xs

module _ {ℓ} {V : Type ℓ} where
  -- m[k]
  unfoldable pub lookup : Bytes → List (Bytes × V) → Option V
  lookup k [] = none
  lookup k ((j, v) ∷ m) = if key_eq j k then some v else lookup k m

  -- m[k] = v
  unfoldable pub insert : Bytes → V → List (Bytes × V) → List (Bytes × V)
  insert k v [] = (k, v) ∷ []
  insert k v ((j, w) ∷ m) = if key_eq j k then (j, v) ∷ m else (j, w) ∷ insert k v m

  -- delete(m, k)
  unfoldable pub erase : Bytes → List (Bytes × V) → List (Bytes × V)
  erase k [] = []
  erase k ((j, v) ∷ m) = if key_eq j k then m else (j, v) ∷ erase k m

  unfoldable pub keys : List (Bytes × V) → List Bytes
  keys [] = []
  keys ((j, v) ∷ m) = j ∷ keys m

  pub lookup-insert :
      (k j : Bytes) (v : V) (m : List (Bytes × V))
      → lookup j (insert k v m) ≡ (if key_eq k j then some v else lookup j m)
  unfolding lookup insert
  lookup-insert k j v [] = refl
  lookup-insert k j v ((i, w) ∷ m) = ground (
    arith,
    key_eq→eq k j,
    key_eq→eq i k,
    key_eq→eq i j,
    key_eq_refl k,
    key_eq_refl i,
    lookup-insert k j v m,
  )

  -- A write to a key that is there leaves the keys as they are; a new one joins them.
  pub has_key-keys : (k : Bytes) (m : List (Bytes × V)) → has_key k (keys m) ≡ is_some (lookup k m)
  unfolding has_key keys lookup
  has_key-keys k [] = refl
  has_key-keys k ((j, v) ∷ m) = ground (arith, has_key-keys k m)

  pub keys-insert_present :
      (k : Bytes) (v o : V) (m : List (Bytes × V))
      → lookup k m ≡ some o
      → keys (insert k v m) ≡ keys m
  unfolding keys insert lookup
  keys-insert_present k v o [] h = cc
  keys-insert_present k v o ((j, w) ∷ m) h = ground (arith, keys-insert_present k v o m)

  has_key-keys-insert :
      (k j : Bytes) (v : V) (m : List (Bytes × V))
      → has_key j (keys (insert k v m)) ≡ (if key_eq k j then true else has_key j (keys m))
  has_key-keys-insert k j v m =
      ground (arith, has_key-keys j (insert k v m), lookup-insert k j v m, has_key-keys j m)

  pub insert-Distinct :
      (k : Bytes) (v : V) (m : List (Bytes × V))
      → Distinct (keys m)
      → Distinct (keys (insert k v m))
  unfolding keys insert has_key
  insert-Distinct k v [] h = (refl, tt)
  insert-Distinct k v ((j, w) ∷ m) h =
      ground (
        arith,
        insert-Distinct k v m h.1,
        has_key-keys-insert k j v m,
        key_eq→eq k j,
        key_eq_refl k,
      )
