-- ===== src/Common/Sort.antt =====
-- sort.Strings on distinct keys: an ascending list of the same keys.
use mathlib.Core.Path.{◌≡◌, refl}
use mathlib.Core.Bool.{true, false}
use mathlib.Core.List.{List, [], ◌∷◌}
use mathlib.Core.Logic.{inl, inr}
use native.Mathlib.Omega.{arith}
use lsm_tree_go.Common.Tests.{if◌then◌else◌}
use lsm_tree_go.Common.Lists.{All}
use lsm_tree_go.Common.Keys.{
  Bytes, key_lt, key_eq, key_eq_refl, key_lt_irrefl, key_lt_trans, key_cases,
}
use lsm_tree_go.Common.Map.{has_key, Distinct}

insert_string : Bytes → List Bytes → List Bytes
insert_string x [] = x ∷ []
insert_string x (y ∷ ys) = if key_lt x y then x ∷ y ∷ ys else y ∷ insert_string x ys

unfoldable pub sort_strings : List Bytes → List Bytes
unfolding insert_string
sort_strings [] = []
sort_strings (x ∷ xs) = insert_string x (sort_strings xs)

-- `k` is less than every key of the list.
abbrev pub IsBelow : Bytes → List Bytes → Type 0
IsBelow k ks = All (λ x. key_lt k x ≡ true) ks

-- Strictly ascending.
abbrev pub IsAscending : List Bytes → Type 0
IsAscending [] = Unit
IsAscending (x ∷ xs) = IsBelow x xs × IsAscending xs

pub IsBelow-trans :
    (a b : Bytes) (ks : List Bytes) → key_lt a b ≡ true → IsBelow b ks → IsBelow a ks
IsBelow-trans a b [] h p = tt
IsBelow-trans a b (x ∷ xs) h p = (key_lt_trans a b x h p.0, IsBelow-trans a b xs h p.1)

insert_string-IsBelow :
    (k x : Bytes) (ks : List Bytes)
    → key_lt k x ≡ true
    → IsBelow k ks
    → IsBelow k (insert_string x ks)
unfolding insert_string
insert_string-IsBelow k x [] h p = (h, tt)
insert_string-IsBelow k x (y ∷ ys) h p = ground (arith, insert_string-IsBelow k x ys h p.1)

insert_string-IsAscending :
    (x : Bytes) (ks : List Bytes)
    → has_key x ks ≡ false
    → IsAscending ks
    → IsAscending (insert_string x ks)
unfolding insert_string has_key
insert_string-IsAscending x [] h p = (tt, tt)
insert_string-IsAscending x (y ∷ ys) h p = elim (key_cases x y) [
  | inl lt ↦ rw lt ((lt, IsBelow-trans x y ys lt p.0), p)
  | inr (inl e) ↦ absurd (ground (arith, key_eq_refl x))
  | inr (inr gt) ↦ ground (
    arith,
    insert_string-IsAscending x ys,
    insert_string-IsBelow y x ys gt p.0,
    key_lt_trans x y x,
    key_lt_irrefl x,
  )
]

has_key-insert_string :
    (k x : Bytes) (ks : List Bytes)
    → has_key k (insert_string x ks) ≡ (if key_eq x k then true else has_key k ks)
unfolding insert_string has_key
has_key-insert_string k x [] = refl
has_key-insert_string k x (y ∷ ys) = ground (arith, has_key-insert_string k x ys)

-- Sorting keeps which keys are there.
pub has_key-sort_strings :
    (k : Bytes) (ks : List Bytes) → has_key k (sort_strings ks) ≡ has_key k ks
unfolding sort_strings has_key
has_key-sort_strings k [] = refl
has_key-sort_strings k (x ∷ xs) =
    ground (arith, has_key-insert_string k x (sort_strings xs), has_key-sort_strings k xs)

-- Distinct keys come out strictly ascending.
pub sort_strings-IsAscending : (ks : List Bytes) → Distinct ks → IsAscending (sort_strings ks)
unfolding sort_strings
sort_strings-IsAscending [] h = tt
sort_strings-IsAscending (x ∷ xs) h =
    insert_string-IsAscending x (sort_strings xs) (rw (has_key-sort_strings x xs) h.0)
      (sort_strings-IsAscending xs h.1)
