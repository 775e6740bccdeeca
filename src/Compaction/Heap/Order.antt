-- ===== src/Compaction/Heap/Order.antt =====
-- The order of a slice of container/heap, and what the order says of the first item.
use lsm_tree_go.Common.{ℕ, zero, suc, ◌≤◌, ◌<◌, ◌≡◌, Bool, true, false, List, arith}
use lsm_tree_go.Common.Array.{item}
use lsm_tree_go.Compaction.Heap.{parent}

-- What Less has to be: a strict order whose incomparable items can stand for one another.
pub record IsOrder {ℓ} {A : Type ℓ} (less : A → A → Bool) : Type ℓ where
  pub irrefl : (a : A) → less a a ≡ false
  pub asym : (a b : A) → less a b ≡ true → less b a ≡ false
  pub not_less_trans : (a b c : A) → less b a ≡ false → less c b ≡ false → less c a ≡ false

module _ {ℓ} {A : Type ℓ} (d : A) (less : A → A → Bool) where
  -- The item at `i` may stand above that at `j`.
  abbrev pub Above : List A → ℕ → ℕ → Type 0
  Above h i j = less (item d h j) (item d h i) ≡ false

  -- Among the first `n`, every parent at `lo` or later stands above its children.
  abbrev pub IsHeapFrom : ℕ → ℕ → List A → Type 0
  IsHeapFrom lo n h = (c : ℕ) → 0 < c → c < n → lo ≤ parent c → Above h (parent c) c

  module _ (o : IsOrder less) where
    first-Above_fuel :
        (fuel n : ℕ) (h : List A) (i : ℕ) → IsHeapFrom 0 n h → i < fuel → i < n → Above h 0 i
    first-Above_fuel zero n h i s f p = absurd (omega arith)
    first-Above_fuel (suc fuel) n h zero s f p = o.irrefl (item d h 0)
    first-Above_fuel (suc fuel) n h (suc i) s f p =
        o.not_less_trans (item d h 0) (item d h (parent (suc i))) (item d h (suc i))
          (first-Above_fuel fuel n h (parent (suc i)) s (omega arith) (omega arith))
          (s (suc i) (omega arith) p (omega arith))

    -- No item of a heap is less than the first.
    pub first-Above : (n : ℕ) (h : List A) (i : ℕ) → IsHeapFrom 0 n h → i < n → Above h 0 i
    first-Above n h i s p = first-Above_fuel (suc i) n h i s (omega arith) p
