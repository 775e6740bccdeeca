-- ===== src/SparseIndex/Search.antt =====
-- `Lookup` against a plain scan of the index.
use lsm_tree_go.Common.{
  ℕ, zero, suc, ◌+◌, ◌/◌, ◌≤◌, ◌<◌, ◌≡◌, Bool, true, false, List, [], ◌∷◌, arith, ltb,
  if◌then◌else◌, Bool-cases, inl, inr,
}
use lsm_tree_go.Common.Keys.{Bytes, key_lt}
use lsm_tree_go.SparseIndex.{IndexEntry, search_loop, sort_search}

-- `r` is the first index at which the test passes, or `n`.
abbrev pub IsFirst : (ℕ → Bool) → ℕ → ℕ → Type 0
IsFirst f n r = (r ≤ n) × ((i : ℕ) → i < r → f i ≡ false) × ((i : ℕ) → r ≤ i → i < n → f i ≡ true)

abbrev pub IsMonotone : (ℕ → Bool) → ℕ → Type 0
IsMonotone f n = (i j : ℕ) → i ≤ j → j < n → f i ≡ true → f j ≡ true

module _ (f : ℕ → Bool) (n : ℕ) (mono : IsMonotone f n) where
  miss_below : (h k : ℕ) → h < n → k ≤ h → f h ≡ false → f k ≡ false
  miss_below h k hn kh miss = elim (Bool-cases (f k)) [
    | inl hit ↦ cc (mono k h kh hn hit)
    | inr e ↦ e
  ]

  -- The fuel covers the range that is left.
  search_loop-IsFirst :
      (fuel i j : ℕ)
      → i ≤ j
      → j ≤ n
      → j ≤ i + fuel
      → ((k : ℕ) → k < i → f k ≡ false)
      → ((k : ℕ) → j ≤ k → k < n → f k ≡ true)
      → IsFirst f n (search_loop fuel f i j)
  unfolding search_loop
  search_loop-IsFirst zero i j ij jn enough below above =
      (omega arith, below, λ k p q. above k (omega arith) q)
  search_loop-IsFirst (suc fuel) i j ij jn enough below above = elim (Bool-cases (ltb i j)) [
    | inr done ↦ rw done (omega arith, below, λ k p q. above k (ground arith) q)
    | inl go ↦ elim (Bool-cases (f ((i + j) / 2))) [
      | inl hit ↦
          rw (go, hit)
            (search_loop-IsFirst fuel i ((i + j) / 2) (ground arith) (ground arith) (ground arith)
              below (λ k p q. mono ((i + j) / 2) k p q hit))
      | inr miss ↦
          rw (go, miss)
            (search_loop-IsFirst fuel ((i + j) / 2 + 1) j (ground arith) jn (ground arith)
              (λ k p. miss_below ((i + j) / 2) k (ground arith) (omega arith) miss) above)
    ]
  ]

  -- The binary search ends, and finds the first index at which the test passes.
  pub sort_search-IsFirst : IsFirst f n (sort_search n f)
  unfolding sort_search
  sort_search-IsFirst =
      search_loop-IsFirst n 0 n (omega arith) (omega arith) (omega arith)
        (λ k p. absurd (omega arith)) (λ k p q. absurd (omega arith))

unfoldable pub index_keys : List IndexEntry → List Bytes
index_keys [] = []
index_keys (e ∷ es) = e.key ∷ index_keys es

-- The plain scan: the offset of the last entry whose key is at most `key`, or the given start.
unfoldable pub floor_offset : List IndexEntry → Bytes → ℕ → ℕ
floor_offset [] key start = start
floor_offset (e ∷ es) key start =
    let later = floor_offset es key e.offset in if key_lt key e.key then start else later
