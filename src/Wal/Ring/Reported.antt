-- ===== src/Wal/Ring/Reported.antt =====
-- What reap of internal/wal/io_uring_linux.go reports of the completions it takes.
use lsm_tree_go.Common.{
  ℕ, zero, suc, ◌+◌, ◌-◌, ◌^◌, ◌<◌, ◌≡◌, refl, ◌∙◌, true, false, some, get_elem?, ◌==◌, arith, ◌⊎◌,
  inl, inr,
}
use lsm_tree_go.Common.Int.{pos, negsuc}
use lsm_tree_go.Wal.Ring.States.{ℤ-cases, release_buf-shared}
use lsm_tree_go.Wal.Ring.{
  Cqe, Ring, Enter, returned, release_buf, collect, batch, harvest, reap_round, reap, store_cq_head,
  add_word, sub_word, cqe_place,
}

-- Rounds of the inner loop on a completion without an error.
collect_good :
    (n i head : ℕ) (r : Ring) (c : Cqe) (v : ℕ)
    → get_elem? r.shared.cqes (cqe_place head r) ≡ some c
    → c.res ≡ pos v
    → (r' : Ring) × (collect n i head r ≡ returned r' 0) × (r'.shared ≡ r.shared)
unfolding collect
collect_good zero i head r c v h good = (r, refl, refl)
collect_good (suc n) i head r c v h good =
    let same = release_buf-shared c.user_data r in
    let (r', e, kept) =
      collect_good n (i + 1) head (release_buf c.user_data r) c v (rw same h) good in
    (r', rw (h, good) e, kept ∙ same)

collect_bad :
    (n head : ℕ) (r : Ring) (c : Cqe) (e : ℕ)
    → get_elem? r.shared.cqes (cqe_place head r) ≡ some c
    → c.res ≡ negsuc e
    → 0 < n
    → collect n 0 head r ≡ returned (store_cq_head (add_word head 1) r) (suc e)
unfolding collect
collect_bad zero head r c e h bad p = absurd (omega arith)
collect_bad (suc n) head r c e h bad p = rw (h, bad) refl

module _ (enter : Enter) (fuel count : ℕ) (r : Ring) (c : Cqe)
    (head_word : r.shared.cq_head < 2 ^ 32) (tail_word : r.shared.cq_tail < 2 ^ 32)
    (first : get_elem? r.shared.cqes (cqe_place r.shared.cq_head r) ≡ some c) where
  -- Where `count` completions, one or more, are there to be read, reap returns the errno of the first of them if
  -- that failed, one completion taken, and else returns no error with all of them taken, whatever the others say.
  pub reap-first :
      0 < count
      → sub_word r.shared.cq_tail r.shared.cq_head ≡ count
      → (r' : Ring) × (((v : ℕ) × (c.res ≡ pos v)
            × (reap (suc (suc fuel)) enter count r ≡ returned r' 0)
            × (r'.shared.cq_head ≡ r.shared.cq_tail))
          ⊎ ((e : ℕ) × (c.res ≡ negsuc e)
              × (reap (suc (suc fuel)) enter count r ≡ returned r' (suc e))
              × (r'.shared.cq_head ≡ add_word r.shared.cq_head 1)))
  unfolding reap reap_round harvest collect
  reap-first p here = elim (ℤ-cases c.res) [
    | inl (v, good) ↦
        let (r', done, kept) = collect_good count 0 r.shared.cq_head r c v first good in
        (
          store_cq_head (add_word r.shared.cq_head count) r',
          inl (v, good, rw (some_wanted, some_there, all, done, none_left) refl, omega arith),
        )
    | inr (e, bad) ↦
        let stopped = collect_bad count r.shared.cq_head r c e first bad p in
        (
          store_cq_head (add_word r.shared.cq_head 1) r,
          inr (e, bad, rw (some_wanted, some_there, all, stopped) refl, refl),
        )
  ]
    where
      some_wanted : (count == 0) ≡ false
      some_wanted = ground arith

      some_there : (r.shared.cq_head == r.shared.cq_tail) ≡ false
      some_there = ground arith

      all : batch count r.shared.cq_head r.shared.cq_tail ≡ count
      all = unfold batch in ground arith

      none_left : (count - count == 0) ≡ true
      none_left = ground arith
