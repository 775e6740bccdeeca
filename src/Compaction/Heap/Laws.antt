-- ===== src/Compaction/Heap/Laws.antt =====
-- Init, Push and Pop of container/heap, and the heap order.
use mathlib.Core.List.{Perm, append-nil, perm_middle}
use mathlib.Core.List.Perm
use mathlib.Core.Logic.{∥∥₁_elim}
use mathlib.Core.List.{Permᴰ}
use native.Mathlib.Nat.{ℕ_set}
use lsm_tree_go.Common.{
  ℕ, zero, suc, ◌+◌, ◌-◌, ◌/◌, ◌<◌, ◌≡◌, ◌∙◌, ap, refl, Bool, false, List, [], ◌∷◌, ◌++◌, length,
  take, arith, length-append, All,
}
use lsm_tree_go.Common.Array.{
  item, exchange, item-exchange, exchange-perm, length-exchange, item-append, item-take,
  take-item_last,
}
use lsm_tree_go.Compaction.Heap.{parent, down, sift_all, init, push, pop}
use lsm_tree_go.Compaction.Heap.Order.{IsOrder, IsHeapFrom, first-Above}
use lsm_tree_go.Compaction.Heap.Sift.{Sifted, down_restores, up_restores}

length-permᴰ {ℓ} : {A : Type ℓ} {xs ys : List A} → Permᴰ xs ys → length xs ≡ length ys
length-permᴰ Permᴰ.nil = refl
length-permᴰ (Permᴰ.cons x p) = ap suc (length-permᴰ p)
length-permᴰ (Permᴰ.swap x y) = refl
length-permᴰ (Permᴰ.trans p q) = length-permᴰ p ∙ length-permᴰ q

pub length-perm {ℓ} : {A : Type ℓ} {xs ys : List A} → Perm xs ys → length xs ≡ length ys
length-perm p = ∥∥₁_elim p (ℕ_set _ _) length-permᴰ

module _ {ℓ} {A : Type ℓ} (d : A) (less : A → A → Bool) where
  -- The whole slice is in heap order.
  abbrev pub IsHeap : List A → Type 0
  IsHeap h = IsHeapFrom d less 0 (length h) h

  -- No item of the list is less than `x`.
  abbrev pub IsLeast : A → List A → Type 0
  IsLeast x h = All (λ y. less y x ≡ false) h

  IsLeast-of_items :
      (x : A) (h : List A) → ((i : ℕ) → i < length h → less (item d h i) x ≡ false) → IsLeast x h
  unfolding item
  IsLeast-of_items x [] p = tt
  IsLeast-of_items x (y ∷ h) p =
      (p 0 (omega arith), IsLeast-of_items x h (λ i q. p (suc i) (omega arith)))

  module _ (o : IsOrder less) where
    sift_all_restores :
        (i : ℕ) (h : List A)
        → IsHeapFrom d less i (length h) h
        → IsHeapFrom d less 0 (length h) (sift_all d less i h) × Perm (sift_all d less i h) h
    unfolding sift_all
    sift_all_restores zero h s = (s, Perm.rfl)
    sift_all_restores (suc i) h s =
        let (heap, perm, kept) =
          down_restores d less o (length h) i (length h) h i (omega arith) (omega arith) (record {
            edges = λ c p q r t. s c p q (ground arith);
            bridge = λ c p q r t u. absurd (omega arith);
          }) in
        let (heap', perm') =
          sift_all_restores i (down d less (length h) h i (length h))
            (rw (length-perm perm) heap) in
        (rw (length-perm perm) at heap', Perm.trans perm' perm)

    -- Init makes a heap of the same items.
    pub init_lem : (h : List A) → IsHeap (init d less h) × Perm (init d less h) h
    unfolding init
    init_lem h =
        let (heap, perm) = sift_all_restores (length h / 2) h (λ c p q r. absurd (omega arith)) in
        (rw (length-perm perm) heap, perm)

    -- Push adds an item to a heap.
    pub push_lem :
        (x : A) (h : List A) → IsHeap h → IsHeap (push d less x h) × Perm (push d less x h) (x ∷ h)
    unfolding push
    push_lem x h s =
        let longer = length-append h (x ∷ []) in
        let (heap, perm) =
          up_restores d less o (length h + 1) (h ++ x ∷ []) (length h) (omega arith) (record {
            inside = omega arith;
            edges = λ c p q t.
                ground
                  (arith, s c, item-append d h (x ∷ []) c, item-append d h (x ∷ []) (parent c));
            bridge = λ c p q t u. absurd (omega arith);
          }) in
        (
          rw (length-perm perm) heap,
          Perm.trans perm (rw (append-nil h) at (perm_middle {a = x} h [])),
        )

    module _ (h : List A) (n : ℕ) (size : length h ≡ suc n) (s : IsHeap h) where
      abbrev swapped : List A
      swapped = exchange d h 0 n

      abbrev sunk : List A
      sunk = down d less (length h) swapped 0 n

      sunk-Sifted : Sifted d less o 0 n swapped sunk
      sunk-Sifted =
          let at = item-exchange d h 0 n (omega arith) (omega arith) in
          let same = length-exchange d h 0 n in
          down_restores d less o (length h) 0 n swapped 0 (omega arith) (omega arith) (record {
            edges = λ c p q r t. ground (arith, at c, at (parent c), s c);
            bridge = λ c p q r t u. absurd (omega arith);
          })

      taken : item d sunk n ≡ item d h 0
      taken = ground (
        arith,
        sunk-Sifted.2 n (omega arith),
        item-exchange d h 0 n (omega arith) (omega arith) n,
      )

      sunk-perm : Perm sunk h
      sunk-perm = Perm.trans sunk-Sifted.1 (exchange-perm d h 0 n (omega arith) (omega arith))

      whole : take n sunk ++ item d h 0 ∷ [] ≡ sunk
      whole = rw taken at (take-item_last d sunk n (length-perm sunk-perm ∙ size))

      rest_size : length (take n sunk) ≡ n
      rest_size =
          let a = length-append (take n sunk) (item d h 0 ∷ []) in
          let b = ap length whole in let c = length-perm sunk-perm in omega arith

      popped : IsHeap (take n sunk) × Perm (item d h 0 ∷ take n sunk) h × IsLeast (item d h 0) h
      popped = (
        (λ c p q r. ground (
          arith,
          sunk-Sifted.0 c,
          item-take d sunk n c,
          item-take d sunk n (parent c),
          rest_size,
        )),
        Perm.trans
            (Perm.symm
              (rw (append-nil (take n sunk)) at (perm_middle {a = item d h 0} (take n sunk) [])))
            (rw whole sunk-perm),
        IsLeast-of_items (item d h 0) h (λ i p. first-Above d less o (length h) h i s p),
      )

    -- Pop takes out an item that no other is less than, and leaves a heap of the others.
    pub pop_lem :
        (h : List A)
        → IsHeap h
        → 0 < length h
        → IsHeap (pop d less h).1
          × Perm ((pop d less h).0 ∷ (pop d less h).1) h
          × IsLeast (pop d less h).0 h
    unfolding pop
    pop_lem h s p =
        let size : length h ≡ suc (length h - 1) = omega arith in
        rw (length-perm (sunk-perm h (length h - 1) size s), taken h (length h - 1) size s)
          (popped h (length h - 1) size s)
