-- ===== src/Compaction/Heap.antt =====
-- container/heap, as internal/compaction/compaction.go uses it for the type mergeHeap: a slice in heap order
-- by `less`, with Init, Push and Pop. Every index stays in range; `d` is what item would read past it.
pub mod Order
pub mod Sift
pub mod Laws
use lsm_tree_go.Common.{
  ℕ, zero, suc, ◌+◌, ◌-◌, ◌*◌, ◌/◌, Bool, true, false, ◌&&◌, List, [], ◌∷◌, ◌++◌, length, take, ltb,
  ◌==◌, if◌then◌else◌,
}
use lsm_tree_go.Common.Array.{item, exchange}

-- For 0 it is 0, as -1 / 2 is for an int.
abbrev pub parent : ℕ → ℕ
parent j = (j - 1) / 2

module _ {ℓ} {A : Type ℓ} (d : A) (less : A → A → Bool) where
  -- up: every round halves the index.
  unfoldable pub up : ℕ → List A → ℕ → List A
  up zero h j = h
  up (suc fuel) h j =
      let rise = up fuel (exchange d h (parent j) j) (parent j) in
      if parent j == j then h else if less (item d h j) (item d h (parent j)) then rise else h

  -- The child of `i` that down compares with it: the right one if it is there and less than the left.
  unfoldable pub lesser_child : List A → ℕ → ℕ → ℕ
  lesser_child h i n =
      let left = 2 * i + 1 in
      if ltb (left + 1) n && less (item d h (left + 1)) (item d h left) then left + 1 else left

  -- down, among the first `n` items: every round doubles the index.
  unfoldable pub down : ℕ → List A → ℕ → ℕ → List A
  down zero h i n = h
  down (suc fuel) h i n =
      let j = lesser_child h i n in
      let sink = down fuel (exchange d h i j) j n in
      if ltb (2 * i + 1) n then if less (item d h j) (item d h i) then sink else h else h

  -- The loop of Init, from `n/2 - 1` down to 0.
  unfoldable pub sift_all : ℕ → List A → List A
  sift_all zero h = h
  sift_all (suc i) h = sift_all i (down (length h) h i (length h))

  -- Init
  unfoldable pub init : List A → List A
  init h = sift_all (length h / 2) h

  -- Push of mergeHeap
  abbrev pub append_last : A → List A → List A
  append_last x h = h ++ x ∷ []

  -- Pop of mergeHeap: the last item, and the slice without it.
  abbrev pub take_last : List A → A × List A
  take_last h = let n = length h - 1 in (item d h n, take n h)

  -- heap.Push
  unfoldable pub push : A → List A → List A
  push x h = up (length h + 1) (append_last x h) (length h)

  -- heap.Pop, of a slice that is not empty: the item taken out, and the rest.
  unfoldable pub pop : List A → A × List A
  pop h = let n = length h - 1 in take_last (down (length h) (exchange d h 0 n) 0 n)
