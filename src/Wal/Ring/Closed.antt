-- ===== src/Wal/Ring/Closed.antt =====
-- What newIORing and close of internal/wal/io_uring_linux.go leave open.
use lsm_tree_go.Common.{
  ℕ, zero, suc, ◌+◌, ◌-◌, ◌<◌, ◌≡◌, refl, ap, ◌∙◌, true, false, Option, none, some, List, [], ◌∷◌,
  length, get_elem?, ltb, ◌==◌, arith, Bool-cases, Option-cases, ◌⊎◌, inl, inr,
}
use lsm_tree_go.Common.Bits.{bit_and}
use lsm_tree_go.Common.Outcome.{Outcome, ok, fail, panic, os_error}
use lsm_tree_go.Wal.Ring.{
  Shared, Ring, Resource, ring_file, sq_map, cq_map, sqe_map, Enter, Run, running, blocked,
  panicked, returned, and_then, entered, store_cq_head, release_buf, collect, batch, harvest, wait,
  reap_round, reap, flush, add_word, cqe_place,
}
use lsm_tree_go.Wal.Ring.States.{IsKernel, IsSettled, ℕ-cases, ℤ-cases}
use lsm_tree_go.Wal.Ring.Reaped.{flush_lem, submitted}
use lsm_tree_go.Wal.Ring.Queue.{IsRing, queued}
use lsm_tree_go.Wal.Ring.Setup.{
  Kernel, Params, release, let_go, close, map_ring, new_ring, fresh_ring, in_bounds, off_sq_ring,
  off_cq_ring, off_sqes, sq_ring_size, cq_ring_size, sqes_size, setup_no_sqarray,
}
use lsm_tree_go.Wal.Ring.{ring_depth}

-- The ring that a method returns is the same one.
abbrev IsSame : ℕ → List Resource → Ring → Type 0
IsSame ring_fd maps r = (r.ring_fd ≡ ring_fd) × (r.maps ≡ maps)

abbrev Ends : (Ring → Type 0) → Run → Type 0
Ends P running = Unit {0}
Ends P blocked = Unit {0}
Ends P panicked = Unit {0}
Ends P (returned r e) = P r

Ends-and_then :
    (P : Ring → Type 0) (run : Run) (next : Ring → Run)
    → Ends P run
    → ((r : Ring) → P r → Ends P (next r))
    → Ends P (and_then run next)
Ends-and_then P running next h go = tt
Ends-and_then P blocked next h go = tt
Ends-and_then P panicked next h go = tt
Ends-and_then P (returned r zero) next h go = go r h
Ends-and_then P (returned r (suc e)) next h go = h

module _ (n : ℕ) (maps : List Resource) where
  abbrev Same : Ring → Type 0
  Same r = IsSame n maps r

  release_buf-Same : (u : ℕ) (r : Ring) → Same r → Same (release_buf u r)
  unfolding release_buf
  release_buf-Same u r h = elim (ℕ-cases (bit_and u 0x7fffffff)) [
    | inl e ↦ rw e h
    | inr (i, e) ↦ elim (Bool-cases (ltb i (length r.write_bufs))) [
      | inl hit ↦ rw (e, hit) h
      | inr out ↦ rw (e, out) h
    ]
  ]

  collect-Ends : (k i head : ℕ) (r : Ring) → Same r → Ends Same (collect k i head r)
  unfolding collect
  collect-Ends zero i head r h = h
  collect-Ends (suc k) i head r h =
      elim (Option-cases (get_elem? r.shared.cqes (cqe_place head r))) [
        | inl out ↦ rw out tt
        | inr (c, e) ↦ elim (ℤ-cases c.res) [
          | inl (v, good) ↦
              rw (e, good)
                (collect-Ends k (i + 1) head (release_buf c.user_data r)
                  (release_buf-Same c.user_data r h))
          | inr (x, bad) ↦ rw (e, bad) h
        ]
      ]

  module _ (enter : Enter) where
    harvest-Ends :
        (again : ℕ → Ring → Run) (count head : ℕ) (r : Ring)
        → ((c : ℕ) (r' : Ring) → Same r' → Ends Same (again c r'))
        → Same r
        → Ends Same (harvest again count head r)
    unfolding harvest
    harvest-Ends again count head r go h =
        let k = batch count head r.shared.cq_tail in
        Ends-and_then Same (collect k 0 head r)
          (λ r'. again (count - k) (store_cq_head (add_word head k) r')) (collect-Ends k 0 head r h)
          (λ r' h'. go (count - k) (store_cq_head (add_word head k) r') h')

    wait-Ends :
        (again : ℕ → Ring → Run) (count : ℕ) (r : Ring)
        → ((c : ℕ) (r' : Ring) → Same r' → Ends Same (again c r'))
        → Same r
        → Ends Same (wait again enter count r)
    unfolding wait
    wait-Ends again count r go h = by_reply (enter r.calls 0 count r.shared) refl
      where
        by_reply :
            (o : Option (ℕ × Shared))
            → enter r.calls 0 count r.shared ≡ o
            → Ends Same (wait again enter count r)
        by_reply none e = unfold wait in rw e tt
        by_reply (some (zero, s)) e =
            unfold wait in rw e (harvest-Ends again count r.shared.cq_head (entered r s) go h)
        by_reply (some (suc x, s)) e = elim (Bool-cases (x == 3)) [
          | inl interrupted ↦ unfold wait in rw (e, interrupted) (go count (entered r s) h)
          | inr broken ↦ unfold wait in rw (e, broken) h
        ]

    reap-Ends : (fuel count : ℕ) (r : Ring) → Same r → Ends Same (reap fuel enter count r)
    unfolding reap reap_round
    reap-Ends zero count r h = tt
    reap-Ends (suc fuel) count r h =
        let again : ℕ → Ring → Run = λ c r'. reap fuel enter c r' in
        elim (Bool-cases (count == 0)) [
          | inl nothing ↦ rw nothing h
          | inr more ↦ elim (Bool-cases (r.shared.cq_head == r.shared.cq_tail)) [
            | inl empty ↦
                rw (more, empty) (wait-Ends again count r (λ c r' h'. reap-Ends fuel c r' h') h)
            | inr posted ↦
                rw (more, posted)
                  (harvest-Ends again count r.shared.cq_head r (λ c r' h'. reap-Ends fuel c r' h')
                    h)
          ]
        ]

    flush-Ends : (fuel : ℕ) (r : Ring) → Same r → Ends Same (flush fuel enter r)
    unfolding flush
    flush-Ends fuel r h = elim (Bool-cases (queued r == 0)) [
      | inl nothing ↦ rw nothing h
      | inr more ↦ by_reply more (enter r.calls (queued r) (queued r) r.shared) refl
    ]
      where
        by_reply :
            (queued r == 0) ≡ false
            → (o : Option (ℕ × Shared)) → enter r.calls (queued r) (queued r) r.shared ≡ o
            → Ends Same (flush fuel enter r)
        by_reply more none e = unfold flush in rw (more, e) tt
        by_reply more (some (zero, s)) e =
            unfold flush in rw (more, e) (reap-Ends fuel (queued r) (entered r s) h)
        by_reply more (some (suc x, s)) e = unfold flush in rw (more, e) h

-- All that a ring has open, in front of what else is.
abbrev pub opened : List Resource → List Resource
opened held = sqe_map ∷ cq_map ∷ sq_map ∷ ring_file ∷ held

-- Let io_uring_enter leave the program's words and entries as they are, take as many entries of those it is
-- given as it likes, complete no entry that it did not take, leave a completion to a caller that waited with
-- success, keep a caller waiting for ever only for completions that are not to come, and be interrupted in
-- its first `quiet` calls at most. Take a ring of 256 entries in which every entry taken so far is completed
-- and read, and as many rounds as there are queued entries and calls that can be interrupted, and one more.
-- Then close of a ring with all three mappings and a positive descriptor lets go of the mappings and of the
-- descriptor, and of nothing else, whether its flush returns an error or not; or its flush waits for ever,
-- its call having taken fewer entries than were queued.
pub close-opened :
    (enter : Enter) (taken : ℕ → ℕ → ℕ → Shared → ℕ) (quiet fuel : ℕ) (r : Ring)
    (held : List Resource)
    → IsKernel enter taken quiet
    → IsRing r
    → IsSettled r
    → queued r + quiet < fuel
    → r.maps ≡ sq_map ∷ cq_map ∷ sqe_map ∷ []
    → 0 < r.ring_fd
    → (close fuel enter r (opened held) ≡ some held)
      ⊎ ((close fuel enter r (opened held) ≡ none) × (submitted taken r < queued r))
unfolding close
close-opened enter taken quiet fuel r held k i settled f maps positive =
    elim (flush_lem enter taken quiet k fuel r i settled f) [
      | inl (r', done, l, all_read, all_taken) ↦ inl (rw done (ap some (gone r' 0 done)))
      | inr (inl (r', e, done, l)) ↦ inl (rw done (ap some (gone r' (suc e) done)))
      | inr (inr (stuck, lacking)) ↦ inr ((rw stuck refl), lacking)
    ]
  where
    gone : (r' : Ring) (e : ℕ) → flush fuel enter r ≡ returned r' e → let_go r' (opened held) ≡ held
    gone r' e done =
        let same : IsSame r.ring_fd r.maps r' =
          rw done at (flush-Ends r.ring_fd r.maps enter fuel r (refl, refl)) in
        let p : ltb 0 r'.ring_fd ≡ true = let q = same.0 in ground arith in
        let all : r'.maps ≡ sq_map ∷ cq_map ∷ sqe_map ∷ [] = same.1 ∙ maps in
        unfold let_go release in simp (p, all)

abbrev pub Opens : Kernel → ℕ → List Resource → List Resource × Outcome Ring → Type 0
Opens k fd held out =
    (out ≡ (held, fail os_error))
    ⊎ ((ring_fd : ℕ) × (p : Params) × (flags : ℕ) × (k.setup ring_depth flags ≡ (0, ring_fd, p))
        × (((in_bounds p ≡ true) × (out ≡ (opened held, ok (fresh_ring k fd ring_fd p))))
            ⊎ ((in_bounds p ≡ false) × (out ≡ (opened held, panic)))))

map_ring-Opens :
    (k : Kernel) (fd ring_fd : ℕ) (p : Params) (held : List Resource) (flags : ℕ)
    → k.setup ring_depth flags ≡ (0, ring_fd, p)
    → Opens k fd held (map_ring k fd ring_fd p (ring_file ∷ held))
unfolding map_ring release
map_ring-Opens k fd ring_fd p held flags answer =
    elim (Bool-cases (k.mmap_ok off_sq_ring (sq_ring_size p))) [
      | inr no_sq ↦ rw no_sq (inl refl)
      | inl sq ↦ elim (Bool-cases (k.mmap_ok off_cq_ring (cq_ring_size p))) [
        | inr no_cq ↦ rw (sq, no_cq) (inl refl)
        | inl cq ↦ elim (Bool-cases (k.mmap_ok off_sqes (sqes_size p))) [
          | inr no_sqes ↦ rw (sq, cq, no_sqes) (inl refl)
          | inl sqes ↦ elim (Bool-cases (in_bounds p)) [
            | inl inside ↦
                rw (sq, cq, sqes, inside) (inr (ring_fd, p, flags, answer, inl (inside, refl)))
            | inr outside ↦
                rw (sq, cq, sqes, outside) (inr (ring_fd, p, flags, answer, inr (outside, refl)))
          ]
        ]
      ]
    ]

-- newIORing returns an error and leaves open what was open before, or the kernel answered one of its two calls
-- with a descriptor and parameters and all three mappings and the descriptor are open besides: where the
-- offsets lie in the mappings it returns the new ring with them, and else it panics.
pub new_ring-opened :
    (k : Kernel) (fd : ℕ) (held : List Resource) → Opens k fd held (new_ring k fd held)
unfolding new_ring
new_ring-opened k fd held = by_first (k.setup ring_depth setup_no_sqarray) refl
  where
    by_second :
        (x : ℕ) (ring_fd : ℕ) (p : Params)
        → k.setup ring_depth 0 ≡ (x, ring_fd, p)
        → (e : ℕ) → (n : ℕ × Params) → k.setup ring_depth setup_no_sqarray ≡ (suc e, n.0, n.1)
        → Opens k fd held (new_ring k fd held)
    by_second zero ring_fd p h e n g = rw (g, h) (map_ring-Opens k fd ring_fd p held 0 h)
    by_second (suc x) ring_fd p h e n g = rw (g, h) (inl refl)

    by_first :
        (a : ℕ × ℕ × Params)
        → k.setup ring_depth setup_no_sqarray ≡ a
        → Opens k fd held (new_ring k fd held)
    by_first (zero, ring_fd, p) h = rw h (map_ring-Opens k fd ring_fd p held setup_no_sqarray h)
    by_first (suc e, ring_fd, p) h =
        let b = k.setup ring_depth 0 in by_second b.0 b.1 b.2 refl e (ring_fd, p) h
