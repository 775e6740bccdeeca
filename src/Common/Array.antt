-- ===== src/Common/Array.antt =====
-- Lists as Go slices that are read and written at an index: `a[i]` and the swap of two places. `d` stands for
-- what lies out of range, which the callers never reach.
use mathlib.Core.List.{Perm}
use mathlib.Core.List.Perm
use lsm_tree_go.Common.Tests.{◌==◌, if◌then◌else◌}
use lsm_tree_go.Common.Lists.{length, take, set, length-set}
use Prim.Native.Nat.{ℕ, zero, suc, ◌<◌}
use mathlib.Core.Path.{◌≡◌, refl, ap}
use mathlib.Core.List.{List, [], ◌∷◌, ◌++◌}
use native.Mathlib.Omega.{arith}

module _ {ℓ} {A : Type ℓ} (d : A) where
  unfoldable pub item : List A → ℕ → A
  item [] i = d
  item (x ∷ xs) zero = x
  item (x ∷ xs) (suc i) = item xs i

  -- `a[i], a[j] = a[j], a[i]`
  unfoldable pub exchange : List A → ℕ → ℕ → List A
  exchange xs i j = set (set xs i (item xs j)) j (item xs i)

  item-set :
      (xs : List A) (i : ℕ) (v : A) (k : ℕ)
      → i < length xs
      → item (set xs i v) k ≡ (if i == k then v else item xs k)
  unfolding item
  item-set [] i v k h = absurd (omega arith)
  item-set (x ∷ xs) zero v zero h = refl
  item-set (x ∷ xs) zero v (suc k) h = ground arith
  item-set (x ∷ xs) (suc i) v zero h = ground arith
  item-set (x ∷ xs) (suc i) v (suc k) h = ground (arith, item-set xs i v k)

  pub item-append : (xs ys : List A) (k : ℕ) → k < length xs → item (xs ++ ys) k ≡ item xs k
  unfolding item
  item-append [] ys k h = absurd (omega arith)
  item-append (x ∷ xs) ys zero h = refl
  item-append (x ∷ xs) ys (suc k) h = item-append xs ys k (omega arith)

  pub item-append_last : (xs : List A) (y : A) → item (xs ++ y ∷ []) (length xs) ≡ y
  unfolding item
  item-append_last [] y = refl
  item-append_last (x ∷ xs) y = item-append_last xs y

  pub item-take : (xs : List A) (n k : ℕ) → k < n → item (take n xs) k ≡ item xs k
  unfolding item take
  item-take xs zero k h = absurd (omega arith)
  item-take [] (suc n) k h = refl
  item-take (x ∷ xs) (suc n) zero h = refl
  item-take (x ∷ xs) (suc n) (suc k) h = item-take xs n k (omega arith)

  -- A slice is all but its last item, and the last.
  pub take-item_last : (xs : List A) (n : ℕ) → length xs ≡ suc n → take n xs ++ item xs n ∷ [] ≡ xs
  unfolding item take
  take-item_last [] n h = absurd (omega arith)
  take-item_last (x ∷ []) zero h = refl
  take-item_last (x ∷ y ∷ xs) zero h = absurd (omega arith)
  take-item_last (x ∷ xs) (suc n) h = ap (λ l. x ∷ l) (take-item_last xs n (omega arith))

  pub length-exchange : (xs : List A) (i j : ℕ) → length (exchange xs i j) ≡ length xs
  unfolding exchange
  length-exchange xs i j = rw (length-set, length-set)

  -- What a write puts in and what it takes out.
  set-perm : (xs : List A) (i : ℕ) (v : A) → i < length xs → Perm (item xs i ∷ set xs i v) (v ∷ xs)
  unfolding item
  set-perm [] i v h = absurd (omega arith)
  set-perm (x ∷ xs) zero v h = Perm.swap v x xs
  set-perm (x ∷ xs) (suc i) v h =
      Perm.trans (Perm.swap x (item xs i) (set xs i v))
        (Perm.trans (Perm.cons x (set-perm xs i v (omega arith))) (Perm.swap v x xs))

  module _ (xs : List A) (i j : ℕ) (p : i < length xs) (q : j < length xs) where
    q' : j < length (set xs i (item xs j))
    q' = rw (length-set xs i (item xs j)) q

    pub item-exchange :
        (k : ℕ)
        → item (exchange xs i j) k
          ≡ (if j == k then item xs i else if i == k then item xs j else item xs k)
    unfolding exchange
    item-exchange k =
        rw (item-set (set xs i (item xs j)) j (item xs i) k q', item-set xs i (item xs j) k p)

    pub exchange-perm : Perm (exchange xs i j) xs
    unfolding exchange
    exchange-perm =
        let once = set-perm xs i (item xs j) p in
        let twice = set-perm (set xs i (item xs j)) j (item xs i) q' in
        let moved : item (set xs i (item xs j)) j ≡ item xs j =
          ground (arith, item-set xs i (item xs j) j) in
        Perm.cons_inv (Perm.trans (rw moved at twice) once)
