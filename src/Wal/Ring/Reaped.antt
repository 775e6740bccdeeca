-- ===== src/Wal/Ring/Reaped.antt =====
-- How flush and reap of internal/wal/io_uring_linux.go end.
use lsm_tree_go.Common.{
  ℕ, zero, suc, ◌+◌, ◌-◌, ◌^◌, ◌≤◌, ◌<◌, ◌≡◌, ◌≢◌, refl, ap, ◌∙◌, subst, false, Option, some, none,
  ◌==◌, arith, Bool-cases, ◌⊎◌, inl, inr,
}
use lsm_tree_go.Wal.Ring.{
  Shared, Ring, Enter, Run, returned, blocked, entered, store_cq_head, batch, harvest, wait,
  reap_round, reap, flush, add_word, sub_word,
}
use lsm_tree_go.Wal.Ring.Queue.{IsRing, queued}
use lsm_tree_go.Wal.Ring.States.{
  IsKernel, Leaves, IsAt, IsSettled, owed, readable, later, now, store_cq_head-IsAt, entered-IsAt,
  collect_cases,
}

-- Of `count` completions to read, all but `short` are owed, and those that can be read are.
abbrev IsDue : ℕ → ℕ → Ring → Type 0
IsDue short count r = (readable r.shared ≤ owed r.shared) × (count ≡ owed r.shared + short)

module _ (enter : Enter) (taken : ℕ → ℕ → ℕ → Shared → ℕ) (quiet : ℕ)
    (k : IsKernel enter taken quiet) (fd offset head tail : ℕ) (fits : sub_word tail head ≤ 256)
    (head_word : head < 2 ^ 32) (short : ℕ) where
  -- The method returns no error and all is settled, or it returns one, or it waits for what is not owed.
  abbrev pub Ended : ℕ → Run → Type 0
  Ended calls run =
      ((r : Ring) × (run ≡ returned r 0)
        × IsAt fd offset head tail calls r
        × IsSettled r
        × (short ≡ 0))
      ⊎ ((r : Ring) × (e : ℕ) × (run ≡ returned r (suc e)) × IsAt fd offset head tail calls r)
      ⊎ ((run ≡ blocked) × (0 < short))

  -- A next round that ends, from fewer completions or after an interrupted call.
  abbrev GoesOn : ℕ → ℕ → (ℕ → Ring → Run) → Type 0
  GoesOn bound calls again =
      (count c : ℕ) (r : Ring)
      → calls ≤ c
      → count + (quiet - c) < bound
      → count < 2 ^ 32
      → IsAt fd offset head tail c r
      → IsDue short count r
      → Ended calls (again count r)

  harvest-Ended :
      (calls count : ℕ) (again : ℕ → Ring → Run) (r : Ring)
      → GoesOn (count + (quiet - calls)) calls again
      → 0 < count
      → count < 2 ^ 32
      → r.shared.cq_tail ≢ r.shared.cq_head
      → IsAt fd offset head tail calls r
      → IsDue short count r
      → Ended calls (harvest again count r.shared.cq_head r)
  unfolding harvest
  harvest-Ended calls count again r go p q some_there a d =
      elim (collect_cases n 0 r.shared.cq_head r a) [
        | inl (r', done, a', same) ↦ rw done (
            go (count - n) calls (store_cq_head (add_word r.shared.cq_head n) r') (omega arith)
              (let b = bounds in omega arith) (omega arith)
              (store_cq_head-IsAt (add_word r.shared.cq_head n) r' (omega arith) a')
              (still_due r' same))
        | inr (r', e, done, a') ↦ rw done (inr (inl (r', e, refl, a')))
      ]
    where
      n : ℕ
      n = batch count r.shared.cq_head r.shared.cq_tail

      bounds : (0 < n) × (n ≤ count) × (n ≤ readable r.shared)
      bounds = unfold batch in ground (arith, a.ring.cq_head_word, a.ring.cq_tail_word)

      still_due :
          (r' : Ring)
          → r'.shared ≡ r.shared
          → IsDue short (count - n) (store_cq_head (add_word r.shared.cq_head n) r')
      still_due r' same =
          let h = ap Shared.sq_head same in
          let t = ap Shared.cq_tail same in
          let b = bounds in
          let i = a.ring in
          (
            omega (arith, h, t, b, d, i.cq_head_word, i.cq_tail_word, i.head_word),
            omega (arith, h, t, b, d, i.cq_head_word, i.cq_tail_word, i.head_word),
          )

  -- After a call that takes nothing.
  module _ (count : ℕ) (r : Ring) (calls : ℕ) (a : IsAt fd offset head tail calls r)
      (d : IsDue short count r) (e : ℕ) (s : Shared)
      (reply : enter r.calls 0 count r.shared ≡ some (e, s)) where
    left : Leaves r.shared 0 s
    left =
        let l = k.leaves r.calls 0 count r.shared e s reply in
        let none_taken : taken r.calls 0 count r.shared ≡ 0 =
          omega (arith, k.at_most r.calls 0 count r.shared) in
        rw none_taken at l

    head_kept : s.sq_head ≡ r.shared.sq_head
    head_kept = omega (arith, left.sq_head, a.ring.head_word)

    entered_at : IsAt fd offset head tail (suc r.calls) (entered r s)
    entered_at = entered-IsAt s r head 0 left (head_kept ∙ a.at_head) head_word fits (now r a)

    entered-IsDue : IsDue short count (entered r s)
    entered-IsDue = (left.due d.0, omega (arith, d.1, head_kept, left.cq_head))

  wait-Ended :
      (calls count : ℕ) (again : ℕ → Ring → Run) (r : Ring)
      → GoesOn (count + (quiet - calls)) calls again
      → 0 < count
      → count < 2 ^ 32
      → IsAt fd offset head tail calls r
      → IsDue short count r
      → Ended calls (wait again enter count r)
  unfolding wait
  wait-Ended calls count again r go p q a d = by_reply (enter r.calls 0 count r.shared) refl
    where
      by_reply :
          (o : Option (ℕ × Shared))
          → enter r.calls 0 count r.shared ≡ o
          → Ended calls (wait again enter count r)
      by_reply none h =
          let w = k.waits r.calls 0 count r.shared h in
          let n = k.at_most r.calls 0 count r.shared in
          unfold wait in rw h (inr (inr (refl, omega (arith, w, n, d.1, a.ring.head_word))))
      by_reply (some (zero, s)) h =
          let l = left count r calls a d 0 s h in
          let here =
            later (entered r s) (omega (arith, a.called)) (entered_at count r calls a d 0 s h) in
          let due = entered-IsDue count r calls a d 0 s h in
          let next =
            harvest-Ended calls count again (entered r s) go p q
              (k.posted r.calls count r.shared s p h) here due in
          unfold wait in
          rw h (subst (λ w. Ended calls (harvest again count w (entered r s))) l.cq_head next)
      by_reply (some (suc x, s)) h = elim (Bool-cases (x == 3)) [
        | inl interrupted ↦
            let early : r.calls < quiet =
              let u = k.uninterrupted r.calls 0 count r.shared (suc x) s in ground (arith, u, h) in
            unfold wait in
            rw (h, interrupted)
              (go count (suc r.calls) (entered r s) (omega (arith, a.called))
                (omega (arith, a.called)) q (entered_at count r calls a d (suc x) s h)
                (entered-IsDue count r calls a d (suc x) s h))
        | inr broken ↦
            unfold wait in
            rw (h, broken)
              (inr (
                inl (
                  entered r s,
                  x,
                  refl,
                  later (entered r s) (omega (arith, a.called))
                      (entered_at count r calls a d (suc x) s h),
                )))
      ]

  reap_round-Ended :
      (calls count : ℕ) (again : ℕ → Ring → Run) (r : Ring)
      → GoesOn (count + (quiet - calls)) calls again
      → count < 2 ^ 32
      → IsAt fd offset head tail calls r
      → IsDue short count r
      → Ended calls (reap_round again enter count r)
  unfolding reap_round
  reap_round-Ended calls count again r go q a d = elim (Bool-cases (count == 0)) [
    | inl nothing ↦
        let i = a.ring in
        let zero_count : count ≡ 0 = ground arith in
        let settled : IsSettled r = (
          omega (arith, d, zero_count, i.head_word, i.cq_head_word),
          omega (arith, d, zero_count, i.head_word, i.cq_head_word, i.cq_tail_word),
        ) in
        rw nothing (inl (r, refl, a, settled, omega (arith, d.1)))
    | inr more ↦ elim (Bool-cases (r.shared.cq_head == r.shared.cq_tail)) [
      | inl empty ↦ rw (more, empty) (wait-Ended calls count again r go (ground arith) q a d)
      | inr posted ↦
          rw (more, posted)
            (harvest-Ended calls count again r go (ground arith) q (λ e. ground arith) a d)
    ]
  ]

  weaker : (c calls : ℕ) (run : Run) → calls ≤ c → Ended c run → Ended calls run
  weaker c calls run h (inl (r, done, a, settled, whole)) =
      inl (r, done, later r h a, settled, whole)
  weaker c calls run h (inr (inl (r, e, done, a))) = inr (inl (r, e, done, later r h a))
  weaker c calls run h (inr (inr stuck)) = inr (inr stuck)

  pub reap-Ended :
      (fuel calls count : ℕ) (r : Ring)
      → count + (quiet - calls) < fuel
      → count < 2 ^ 32
      → IsAt fd offset head tail calls r
      → IsDue short count r
      → Ended calls (reap fuel enter count r)
  unfolding reap
  reap-Ended zero calls count r f q a d = absurd (omega arith)
  reap-Ended (suc fuel) calls count r f q a d =
      reap_round-Ended calls count (λ n r'. reap fuel enter n r') r
        (λ n c r' le less q' a' d'.
          weaker c calls (reap fuel enter n r') le (reap-Ended fuel c n r' (omega arith) q' a' d'))
        q a d

-- What flush leaves of a ring, whether it returns an error or not.
pub record IsLeft (r r' : Ring) : Type 0 where
  pub ring : IsRing r'
  pub same_fd : r'.fd ≡ r.fd
  pub same_offset : r'.offset ≡ r.offset
  pub same_tail : r'.shared.sq_tail ≡ r.shared.sq_tail

-- How many entries the call of flush takes.
abbrev pub submitted : (ℕ → ℕ → ℕ → Shared → ℕ) → Ring → ℕ
submitted taken r = taken r.calls (queued r) (queued r) r.shared

abbrev pub Flushed : Ring → (ℕ → ℕ → ℕ → Shared → ℕ) → Run → Type 0
Flushed r taken run =
    ((r' : Ring) × (run ≡ returned r' 0)
      × IsLeft r r'
      × IsSettled r'
      × (r'.shared.sq_head ≡ r.shared.sq_tail))
    ⊎ ((r' : Ring) × (e : ℕ) × (run ≡ returned r' (suc e)) × IsLeft r r')
    ⊎ ((run ≡ blocked) × (submitted taken r < queued r))

module _ (enter : Enter) (taken : ℕ → ℕ → ℕ → Shared → ℕ) (quiet : ℕ)
    (k : IsKernel enter taken quiet) where
  -- Let io_uring_enter leave the program's words and entries as they are, take as many entries of those it is
  -- given as it likes, complete no entry that it did not take, leave a completion to a caller that waited with
  -- success, keep a caller waiting for ever only for completions that are not to come, and be interrupted in
  -- its first `quiet` calls at most. Take a ring of 256 entries in which every entry taken so far is completed
  -- and read, and as many rounds as there are queued entries and calls that can be interrupted, and one more.
  -- Then flush returns no error, and all queued entries were taken, completed and read; or it returns an
  -- error; or it waits for ever, and its call has taken fewer entries than were queued. Where it returns, the
  -- ring has its file and offset.
  pub flush_lem :
      (fuel : ℕ) (r : Ring)
      → IsRing r
      → IsSettled r
      → queued r + quiet < fuel
      → Flushed r taken (flush fuel enter r)
  unfolding flush
  flush_lem fuel r i settled f = elim (Bool-cases (queued r == 0)) [
    | inl nothing ↦
        let all_taken : r.shared.sq_head ≡ r.shared.sq_tail =
          let h = i.head_word in let t = i.tail_word in ground arith in
        rw nothing (
          inl (
            r,
            refl,
            record { ring = i; same_fd = refl; same_offset = refl; same_tail = refl },
            settled,
            all_taken,
          ))
    | inr some_queued ↦ by_reply some_queued (enter r.calls n n r.shared) refl
  ]
    where
      n : ℕ
      n = queued r

      m : ℕ
      m = submitted taken r

      start : IsAt r.fd r.offset r.shared.sq_head r.shared.sq_tail r.calls r
      start = record {
        ring = i;
        same_fd = refl;
        same_offset = refl;
        at_head = refl;
        at_tail = refl;
        called = omega arith;
      }

      head' : ℕ
      head' = add_word r.shared.sq_head m

      fits : sub_word r.shared.sq_tail head' ≤ 256
      fits = omega (arith, i.room, k.at_most r.calls n n r.shared, i.head_word, i.tail_word)

      after :
          (e : ℕ) (s : Shared)
          → enter r.calls n n r.shared ≡ some (e, s)
          → IsAt r.fd r.offset head' r.shared.sq_tail (suc r.calls) (entered r s)
      after e s h =
          let l = k.leaves r.calls n n r.shared e s h in
          entered-IsAt s r head' m l l.sq_head (omega arith) fits start

      left_by : {w c : ℕ} (r' : Ring) → IsAt r.fd r.offset w r.shared.sq_tail c r' → IsLeft r r'
      left_by r' b = record {
        ring = b.ring;
        same_fd = b.same_fd;
        same_offset = b.same_offset;
        same_tail = b.at_tail;
      }

      by_reply :
          (queued r == 0) ≡ false
          → (o : Option (ℕ × Shared)) → enter r.calls n n r.shared ≡ o
          → Flushed r taken (flush fuel enter r)
      by_reply more none h =
          let w = k.waits r.calls n n r.shared h in
          unfold flush in
          rw (more, h)
            (inr (
              inr (
                refl,
                omega (arith, w, settled, i.head_word, i.room, k.at_most r.calls n n r.shared),
              )))
      by_reply more (some (suc e, s)) h =
          unfold flush in
          rw (more, h) (inr (inl (entered r s, e, refl, left_by (entered r s) (after (suc e) s h))))
      by_reply more (some (zero, s)) h =
          let l = k.leaves r.calls n n r.shared 0 s h in
          let few = k.at_most r.calls n n r.shared in
          let due : IsDue (n - m) n (entered r s) = (
            l.due (omega (arith, settled, i.cq_head_word)),
            omega (arith, settled, l.sq_head, l.cq_head, few, i.room, i.head_word),
          ) in
          unfold flush in
          rw (more, h)
            (elim (reap-Ended enter taken quiet k r.fd r.offset head' r.shared.sq_tail fits
              (omega arith) (n - m) fuel (suc r.calls) n (entered r s) (omega arith)
              (omega (arith, i.room)) (after 0 s h) due) [
                | inl (r', done, b, all_read, whole) ↦ inl (
                  r',
                  done,
                  left_by r' b,
                  all_read,
                  omega (arith, b.at_head, whole, few, i.head_word, i.tail_word),
                )
                | inr (inl (r', e, done, b)) ↦ inr (inl (r', e, done, left_by r' b))
                | inr (inr (stuck, lacking)) ↦ inr (inr (stuck, omega arith))
              ])
