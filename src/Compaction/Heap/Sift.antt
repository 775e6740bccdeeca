-- ===== src/Compaction/Heap/Sift.antt =====
-- up and down restore the heap order, and keep the items.
use mathlib.Core.List.{Perm}
use mathlib.Core.List.Perm
use lsm_tree_go.Common.{
  ℕ, zero, suc, ◌+◌, ◌*◌, ◌≤◌, ◌<◌, ◌≡◌, ◌≢◌, ◌⊎◌, inl, inr, refl, Bool, true, ◌&&◌, List, length,
  arith, ltb, ◌==◌, Bool-cases,
}
use lsm_tree_go.Common.Array.{item, exchange, item-exchange, exchange-perm, length-exchange}
use lsm_tree_go.Compaction.Heap.{parent, lesser_child, down, up}
use lsm_tree_go.Compaction.Heap.Order.{IsOrder, Above, IsHeapFrom}

child_cases : (c i : ℕ) → 0 < c → parent c ≡ i → (c ≡ 2 * i + 1) ⊎ (c ≡ 2 * i + 1 + 1)
child_cases c i p e = ground arith

module _ {ℓ} {A : Type ℓ} (d : A) (less : A → A → Bool) (o : IsOrder less) where
  -- A heap from `lo` among the first `n`, of the same items, with the items from `n` on where they were.
  abbrev pub Sifted : ℕ → ℕ → List A → List A → Type ℓ
  Sifted lo n h r =
      IsHeapFrom d less lo n r × Perm r h × ((k : ℕ) → n ≤ k → item d r k ≡ item d h k)

  -- Only the edges below `i` may be out of order.
  pub record IsSunkTo (lo n : ℕ) (h : List A) (i : ℕ) : Type 0 where
    pub edges : (c : ℕ) → 0 < c → c < n → lo ≤ parent c → parent c ≢ i → Above d less h (parent c) c
    pub bridge :
        (c : ℕ) → 0 < c → c < n → parent c ≡ i → 0 < i → lo ≤ parent i → Above d less h (parent i) c

  record IsLesserChild (h : List A) (i n m : ℕ) : Type 0 where
    inside : m < n
    child : (m ≡ 2 * i + 1) ⊎ (m ≡ 2 * i + 2)
    least : (c : ℕ) → 0 < c → c < n → parent c ≡ i → Above d less h m c

  lesser_child-IsLesserChild :
      (h : List A) (i n : ℕ) → 2 * i + 1 < n → IsLesserChild h i n (lesser_child d less h i n)
  unfolding lesser_child
  lesser_child-IsLesserChild h i n p =
      let right_asym = o.asym (item d h (2 * i + 1 + 1)) (item d h (2 * i + 1)) in
      let self = o.irrefl (item d h (2 * i + 1)) in
      let self' = o.irrefl (item d h (2 * i + 1 + 1)) in
      elim (Bool-cases
        (ltb (2 * i + 1 + 1) n && less (item d h (2 * i + 1 + 1)) (item d h (2 * i + 1)))) [
          | inl right ↦ rw right (record {
            inside = ground arith;
            child = inr (omega arith);
            least = λ c q r e. ground (arith, child_cases c i q e);
          })
          | inr left ↦ rw left (record {
            inside = p;
            child = inl refl;
            least = λ c q r e. ground (arith, child_cases c i q e);
          })
        ]

  exchange-IsSunkTo :
      (lo n : ℕ) (h : List A) (i m : ℕ)
      → n ≤ length h
      → IsSunkTo lo n h i
      → IsLesserChild h i n m
      → less (item d h m) (item d h i) ≡ true
      → IsSunkTo lo n (exchange d h i m) m
  exchange-IsSunkTo lo n h i m le s l below =
      let at = item-exchange d h i m (omega arith) (omega arith) in
      record {
        edges = λ c p q r t. ground (
          arith,
          at c,
          at (parent c),
          s.edges c,
          s.bridge m,
          l.least c,
          o.asym (item d h m) (item d h i),
        );
        bridge = λ c p q r t u. ground (arith, at c, at (parent m), s.edges c);
      }

  Sifted-exchange :
      (lo n i j : ℕ) (h r : List A)
      → i < n
      → j < n
      → n ≤ length h
      → Sifted lo n (exchange d h i j) r
      → Sifted lo n h r
  Sifted-exchange lo n i j h r p q le (heap, perm, kept) = (
    heap,
    Perm.trans perm (exchange-perm d h i j (omega arith) (omega arith)),
    λ k t. ground (arith, kept k, item-exchange d h i j (omega arith) (omega arith) k),
  )

  -- down makes a heap where only the edges below `i` were out of order.
  pub down_restores :
      (fuel lo n : ℕ) (h : List A) (i : ℕ)
      → n ≤ length h
      → n ≤ i + fuel
      → IsSunkTo lo n h i
      → Sifted lo n h (down d less fuel h i n)
  unfolding down
  down_restores zero lo n h i le f s =
      ((λ c p q r. s.edges c p q r (ground arith)), Perm.rfl, λ k t. refl)
  down_restores (suc fuel) lo n h i le f s = elim (Bool-cases (ltb (2 * i + 1) n)) [
    | inr leaf ↦ rw leaf ((λ c p q r. s.edges c p q r (ground arith)), Perm.rfl, λ k t. refl)
    | inl inner ↦
        let l = lesser_child-IsLesserChild h i n (ground arith) in
        elim (Bool-cases (less (item d h (lesser_child d less h i n)) (item d h i))) [
          | inr settled ↦
              rw (inner, settled)
                (
                  (λ c p q r. ground (
                    arith,
                    s.edges c,
                    l.least c,
                    o.not_less_trans (item d h i) (item d h (lesser_child d less h i n))
                        (item d h c),
                  )),
                  Perm.rfl,
                  λ k t. refl,
                )
          | inl below ↦
              rw (inner, below)
                (Sifted-exchange lo n i (lesser_child d less h i n) h _ (omega arith) l.inside le (
                  down_restores fuel lo n (exchange d h i (lesser_child d less h i n))
                    (lesser_child d less h i n)
                    (rw (length-exchange d h i (lesser_child d less h i n)) le) (omega arith)
                    (exchange-IsSunkTo lo n h i (lesser_child d less h i n) le s l below)))
        ]
  ]

  -- Only the edge above `j` may be out of order.
  pub record IsRaisedTo (h : List A) (j : ℕ) : Type 0 where
    pub inside : j < length h
    pub edges : (c : ℕ) → 0 < c → c < length h → c ≢ j → Above d less h (parent c) c
    pub bridge : (c : ℕ) → 0 < c → c < length h → parent c ≡ j → 0 < j → Above d less h (parent j) c

  exchange-IsRaisedTo :
      (h : List A) (j : ℕ)
      → IsRaisedTo h j
      → 0 < j
      → less (item d h j) (item d h (parent j)) ≡ true
      → IsRaisedTo (exchange d h (parent j) j) (parent j)
  exchange-IsRaisedTo h j s pos below =
      let at = item-exchange d h (parent j) j (omega (arith, s.inside)) s.inside in
      let size = length-exchange d h (parent j) j in
      let swapped = o.asym (item d h j) (item d h (parent j)) below in
      record {
        inside = omega (arith, s.inside);
        edges = λ c p q t. ground (
          arith,
          at c,
          at (parent c),
          s.edges c,
          s.edges j,
          s.bridge c,
          o.not_less_trans (item d h j) (item d h (parent j)) (item d h c),
        );
        bridge = λ c p q t u. ground (
          arith,
          at c,
          at (parent (parent j)),
          s.edges c,
          s.edges (parent j),
          o.not_less_trans (item d h (parent (parent j))) (item d h (parent j)) (item d h c),
        );
      }

  -- up makes a heap where only the edge above `j` was out of order.
  pub up_restores :
      (fuel : ℕ) (h : List A) (j : ℕ)
      → j < fuel
      → IsRaisedTo h j
      → IsHeapFrom d less 0 (length h) (up d less fuel h j) × Perm (up d less fuel h j) h
  unfolding up
  up_restores zero h j f s = absurd (omega arith)
  up_restores (suc fuel) h j f s = elim (Bool-cases (parent j == j)) [
    | inl root ↦ rw root ((λ c p q r. s.edges c p q (ground arith)), Perm.rfl)
    | inr inner ↦ elim (Bool-cases (less (item d h j) (item d h (parent j)))) [
      | inr settled ↦ rw (inner, settled) ((λ c p q r. ground (arith, s.edges c)), Perm.rfl)
      | inl below ↦
          let pos : 0 < j = ground arith in
          let size = length-exchange d h (parent j) j in
          let (heap, perm) =
            up_restores fuel (exchange d h (parent j) j) (parent j) (omega arith)
              (exchange-IsRaisedTo h j s pos below) in
          rw (inner, below)
            (
              rw size at heap,
              Perm.trans perm (exchange-perm d h (parent j) j (omega (arith, s.inside)) s.inside),
            )
    ]
  ]
