-- ===== src/Common/Keys.antt =====
-- Go strings as byte sequences, and `==`, `<` and `>` on them.
use Prim.Native.Nat.{ℕ}
use mathlib.Core.Path.{◌≡◌, refl}
use mathlib.Core.Logic.{◌⊎◌, inl, inr}
use mathlib.Core.Bool.{Bool, true, false}
use mathlib.Core.List.{List, [], ◌∷◌}
use native.Mathlib.Omega.{arith}
use lsm_tree_go.Common.Tests.{ltb, ◌==◌, if◌then◌else◌}

abbrev pub Bytes : Type 0
Bytes = List ℕ

-- `a < b`, byte by byte.
unfoldable pub key_lt : Bytes → Bytes → Bool
key_lt a [] = false
key_lt [] (y ∷ b) = true
key_lt (x ∷ a) (y ∷ b) =
    let rest = key_lt a b in if ltb x y then true else if x == y then rest else false

-- `a == b`
unfoldable pub key_eq : Bytes → Bytes → Bool
key_eq [] [] = true
key_eq [] (y ∷ b) = false
key_eq (x ∷ a) [] = false
key_eq (x ∷ a) (y ∷ b) = let rest = key_eq a b in if x == y then rest else false

pub key_eq→eq : (a b : Bytes) → key_eq a b ≡ true → a ≡ b
unfolding key_eq
key_eq→eq [] [] h = refl
key_eq→eq [] (y ∷ b) h = cc
key_eq→eq (x ∷ a) [] h = cc
key_eq→eq (x ∷ a) (y ∷ b) h = ground (arith, key_eq→eq a b)

pub key_eq_refl : (a : Bytes) → key_eq a a ≡ true
unfolding key_eq
key_eq_refl [] = refl
key_eq_refl (x ∷ a) = ground (arith, key_eq_refl a)

pub key_lt_irrefl : (a : Bytes) → key_lt a a ≡ false
unfolding key_lt
key_lt_irrefl [] = refl
key_lt_irrefl (x ∷ a) = ground (arith, key_lt_irrefl a)

pub key_lt_trans : (a b c : Bytes) → key_lt a b ≡ true → key_lt b c ≡ true → key_lt a c ≡ true
unfolding key_lt
key_lt_trans a [] c p q = cc
key_lt_trans a (y ∷ b) [] p q = cc
key_lt_trans [] (y ∷ b) (z ∷ c) p q = refl
key_lt_trans (x ∷ a) (y ∷ b) (z ∷ c) p q = ground (arith, key_lt_trans a b c)

pub key_cases : (a b : Bytes) → (key_lt a b ≡ true) ⊎ (a ≡ b) ⊎ (key_lt b a ≡ true)
unfolding key_lt
key_cases [] [] = inr (inl refl)
key_cases [] (y ∷ b) = inl refl
key_cases (x ∷ a) [] = inr (inr refl)
key_cases (x ∷ a) (y ∷ b) = ground (arith, key_cases a b)
