-- ===== src/Wal/Ring/Submitted.antt =====
-- submitWrite of internal/wal/io_uring_linux.go as a step of a queue of requests.
use mathlib.Core.List.{append_assoc}
use lsm_tree_go.Common.{
  ℕ, suc, ◌+◌, ◌%◌, ◌^◌, ◌≤◌, ◌<◌, ◌≡◌, ◌≢◌, refl, sym, ap, ◌∙◌, false, Option, some, List, [], ◌∷◌,
  ◌++◌, length, take, set, get_elem?, ltb, ◌==◌, if◌then◌else◌, arith, length-set, get_elem?-some,
  get_elem?-set_self, get_elem?-set_ne, Bool-cases, ◌⊎◌, inl, inr,
}
use lsm_tree_go.Common.Keys.{Bytes}
use lsm_tree_go.Wal.Ring.{
  Sqe, Ring, Shared, Run, Enter, returned, blocked, add_word, sub_word, sqe_place, prepare,
  write_sqe, fsync_sqe, enqueue, submit_write,
}
use lsm_tree_go.Wal.Ring.Queue.{
  Request, write_fixed, fsync, request, requests_from, requests, queued, IsRing, place-mod,
  requests_from-set, requests_from-suc,
}
use lsm_tree_go.Wal.Ring.States.{IsKernel, IsSettled}
use lsm_tree_go.Wal.Ring.Reaped.{flush_lem, submitted}

-- What submitWrite asks the kernel for.
abbrev pub asked : Ring → Bytes → List (Option Request)
asked r bytes =
    some (write_fixed (r.fd % 2 ^ 32) (r.offset % 2 ^ 64) bytes) ∷ some (fsync (r.fd % 2 ^ 32)) ∷ []

take-length {ℓ} : {A : Type ℓ} (xs : List A) → take (length xs) xs ≡ xs
unfolding take
take-length [] = refl
take-length (x ∷ xs) = ap (λ l. x ∷ l) (take-length xs)

request-write :
    (fd offset u : ℕ) (bytes : Bytes) (s : Sqe)
    → length bytes < 2 ^ 32
    → request (some (write_sqe fd offset bytes u s))
      ≡ some (write_fixed (fd % 2 ^ 32) (offset % 2 ^ 64) bytes)
unfolding request write_sqe
request-write fd offset u bytes s h =
    let whole : length bytes % 2 ^ 32 ≡ length bytes = omega arith in
    rw (whole, take-length bytes) refl

request-fsync :
    (fd u : ℕ) (s : Sqe) → request (some (fsync_sqe fd u s)) ≡ some (fsync (fd % 2 ^ 32))
unfolding request fsync_sqe
request-fsync fd u s = refl

-- The step on a ring with two places free.
module _ (r : Ring) (i : IsRing r) (bytes : Bytes) (some_bytes : 0 < length bytes)
    (short : length bytes < 2 ^ 32) (room : queued r + 2 ≤ 256) where
  abbrev tail : ℕ
  tail = r.shared.sq_tail

  abbrev place : ℕ
  place = tail % 256

  abbrev second : ℕ
  second = (tail + 1) % 256

  abbrev idx : ℕ
  idx = r.wb_tail % 256

  -- The ring that is left, given what the two places held.
  abbrev queue_up : Sqe → Sqe → Ring
  queue_up s s' = record r {
    write_bufs = set r.write_bufs idx (some bytes);
    wb_tail = r.wb_tail + 1;
    sq_local_tail = add_word tail 2;
    offset = r.offset + length bytes;
    shared = record r.shared {
      sqes =
          set (set r.shared.sqes place (write_sqe r.fd r.offset bytes (idx + 1) s)) second
            (fsync_sqe r.fd (idx + 1) s');
      sq_tail = add_word tail 2;
    };
  }

  place-tail : (tail : ℕ) → sqe_place tail r ≡ tail % 256
  place-tail t = rw i.mask (omega (arith, place-mod t))

  apart : place ≢ second
  apart e = omega arith

  enqueue-queue_up :
      (s s' : Sqe)
      → get_elem? r.shared.sqes place ≡ some s
      → get_elem? r.shared.sqes second ≡ some s'
      → enqueue bytes r ≡ returned (queue_up s s') 0
  unfolding enqueue prepare
  enqueue-queue_up s s' first next =
      let p1 : sqe_place tail r ≡ place = place-tail tail in
      let p2 : sqe_place (add_word tail 1) r ≡ second =
        place-tail (add_word tail 1) ∙ omega arith in
      let kept : get_elem? (set r.shared.sqes place (write_sqe r.fd r.offset bytes (idx + 1) s))
            second
          ≡ some s' =
        get_elem?-set_ne r.shared.sqes place second (write_sqe r.fd r.offset bytes (idx + 1) s)
          apart
        ∙ next in
      let nonempty : (length bytes == 0) ≡ false = ground arith in
      simp (i.local, i.buffers, nonempty, p1, first, p2, kept)

  queued-suc : sub_word (add_word tail 2) r.shared.sq_head ≡ suc (suc (queued r))
  queued-suc = omega (arith, i.head_word, i.tail_word)

  queue_up-IsRing : (s s' : Sqe) → IsRing (queue_up s s')
  queue_up-IsRing s s' = record {
    mask = i.mask;
    entries = i.entries;
    places = length-set _ second _ ∙ (length-set _ place _ ∙ i.places);
    head_word = i.head_word;
    tail_word = omega arith;
    local = refl;
    room = omega (arith, queued-suc);
    buffers = length-set r.write_bufs idx (some bytes) ∙ i.buffers;
    cq_head_word = i.cq_head_word;
    cq_tail_word = i.cq_tail_word;
    completions = i.completions;
    few = i.few;
  }

  requests-queue_up : (s s' : Sqe) → requests (queue_up s s') ≡ requests r ++ asked r bytes
  requests-queue_up s s' =
      let w = write_sqe r.fd r.offset bytes (idx + 1) s in
      let f = fsync_sqe r.fd (idx + 1) s' in
      let one = set r.shared.sqes place w in
      let two = set one second f in
      let head = r.shared.sq_head in
      let n = queued r in
      let at_place : place ≡ (head + n) % 256 = omega (arith, i.head_word, i.tail_word) in
      let at_second : second ≡ (head + suc n) % 256 = omega (arith, i.head_word, i.tail_word) in
      let front : requests_from two 255 head n ≡ requests_from r.shared.sqes 255 head n =
        requests_from-set one head n 1 second f (omega arith) (omega arith)
        ∙ requests_from-set r.shared.sqes head n 0 place w (omega arith) (omega arith) in
      let inside : place < length r.shared.sqes = omega (arith, i.places) in
      let last_two : second < length one =
        omega (arith, i.places, length-set r.shared.sqes place w) in
      let write_there : get_elem? two place ≡ some w =
        get_elem?-set_ne one second place f (λ e. apart (sym e))
        ∙ get_elem?-set_self r.shared.sqes place w inside in
      let sync_there : get_elem? two second ≡ some f = get_elem?-set_self one second f last_two in
      simp (
        queued-suc,
        i.mask,
        requests_from-suc two head (suc n) second at_second,
        requests_from-suc two head n place at_place,
        front,
        write_there,
        sync_there,
        request-write r.fd r.offset (idx + 1) bytes s short,
        request-fsync r.fd (idx + 1) s',
        append_assoc,
      )

  pub enqueue-requests :
      (r' : Ring) × (enqueue bytes r ≡ returned r' 0)
      × IsRing r'
      × (requests r' ≡ requests r ++ asked r bytes)
      × (r'.offset ≡ r.offset + length bytes)
      × (get_elem? r'.write_bufs (r.wb_tail % 256) ≡ some (some bytes))
      × ((r'.shared.sq_head ≡ r.shared.sq_head)
          × (r'.shared.cq_head ≡ r.shared.cq_head)
          × (r'.shared.cq_tail ≡ r.shared.cq_tail))
  unfolding enqueue
  enqueue-requests =
      let (s, first) = get_elem?-some r.shared.sqes place (omega (arith, i.places)) in
      let (s', next) = get_elem?-some r.shared.sqes second (omega (arith, i.places)) in
      (
        queue_up s s',
        enqueue-queue_up s s' first next,
        queue_up-IsRing s s',
        requests-queue_up s s',
        refl,
        get_elem?-set_self r.write_bufs idx (some bytes) (omega (arith, i.buffers)),
        (refl, refl, refl),
      )

-- What is still queued when submitWrite adds to it: nothing, where there was no room for two more.
abbrev pub left_queued : Ring → List (Option Request)
left_queued r = if ltb 256 (queued r + 2) then [] else requests r

abbrev pub Submits : (ℕ → ℕ → ℕ → Shared → ℕ) → Bytes → Ring → Run → Type 0
Submits taken bytes r run =
    ((r' : Ring) × (run ≡ returned r' 0)
      × IsRing r'
      × IsSettled r'
      × (requests r' ≡ left_queued r ++ asked r bytes)
      × (r'.offset ≡ r.offset + length bytes)
      × ((slot : ℕ) × (get_elem? r'.write_bufs slot ≡ some (some bytes))))
    ⊎ ((r' : Ring) × (e : ℕ) × (run ≡ returned r' (suc e))
        × IsRing r'
        × (256 < queued r + 2)
        × (r'.offset ≡ r.offset))
    ⊎ ((run ≡ blocked) × (256 < queued r + 2) × (submitted taken r < queued r))

module _ (enter : Enter) (taken : ℕ → ℕ → ℕ → Shared → ℕ) (quiet : ℕ)
    (k : IsKernel enter taken quiet) (fuel : ℕ) (bytes : Bytes) (r : Ring) where
  -- Let io_uring_enter leave the program's words and entries as they are, take as many entries of those it is
  -- given as it likes, complete no entry that it did not take, leave a completion to a caller that waited with
  -- success, keep a caller waiting for ever only for completions that are not to come, and be interrupted in
  -- its first `quiet` calls at most. Take a ring of 256 entries in which every entry taken so far is completed
  -- and read, and as many rounds as there are queued entries and calls that can be interrupted, and one more.
  -- Then submitWrite of one byte or more and fewer than 2^32 returns no error, and the queue is what was left
  -- in it, a request that the kernel reads as IORING_OP_WRITE_FIXED of the bytes at the ring's offset, and an
  -- fsync, in this order, the offset has grown by their number, and the ring holds the buffer; or there was no
  -- room for two more entries, flush returned an error, and the offset is as it was; or there was no room, and
  -- flush waits for ever, its call having taken fewer entries than were queued.
  pub submit_write-requests :
      IsRing r
      → IsSettled r
      → queued r + quiet < fuel
      → 0 < length bytes
      → length bytes < 2 ^ 32
      → Submits taken bytes r (submit_write fuel enter bytes r)
  unfolding submit_write
  submit_write-requests i settled f some_bytes short = elim (Bool-cases (ltb 256 (queued r + 2))) [
    | inl full ↦ elim (flush_lem enter taken quiet k fuel r i settled f) [
      | inl (r1, done, l, settled1, all_taken) ↦
          let empty : queued r1 ≡ 0 = omega (arith, all_taken, l.same_tail, i.tail_word) in
          let (r', went, ring', asks, moved, held, same) =
            enqueue-requests r1 l.ring bytes some_bytes short (omega arith) in
          let step : submit_write fuel enter bytes r ≡ returned r' 0 =
            unfold submit_write in rw (gate, full, done) went in
          let none_left : requests r1 ≡ [] = unfold requests_from in rw empty refl in
          let asked_same : asked r1 bytes ≡ asked r bytes = rw (l.same_fd, l.same_offset) refl in
          inl (
            r',
            step,
            ring',
            settled_by r1 r' same settled1,
            rw (full, sym asked_same) (asks ∙ ap (λ q. q ++ asked r1 bytes) none_left),
            moved ∙ ap (λ o. o + length bytes) l.same_offset,
            (r1.wb_tail % 256, held),
          )
      | inr (inl (r1, e, done, l)) ↦
          inr (inl (r1, e, (rw (gate, full, done) refl), l.ring, ground arith, l.same_offset))
      | inr (inr (stuck, lacking)) ↦
          inr (inr ((rw (gate, full, stuck) refl), ground arith, lacking))
    ]
    | inr roomy ↦
        let (r', done, ring, asks, moved, held, same) =
          enqueue-requests r i bytes some_bytes short (ground arith) in
        inl (
          r',
          rw (gate, roomy) done,
          ring,
          settled_by r r' same settled,
          rw roomy asks,
          moved,
          (r.wb_tail % 256, held),
        )
  ]
    where
      settled_by :
          (r1 r' : Ring)
          → (r'.shared.sq_head ≡ r1.shared.sq_head)
            × (r'.shared.cq_head ≡ r1.shared.cq_head)
            × (r'.shared.cq_tail ≡ r1.shared.cq_tail)
          → IsSettled r1
          → IsSettled r'
      settled_by r1 r' (h, c, t) (p, q) = (omega arith, omega arith)

      gate :
          ltb r.sq_entries (add_word (sub_word r.sq_local_tail r.shared.sq_head) 2)
          ≡ ltb 256 (queued r + 2)
      gate =
          rw (i.local, i.entries)
            (let same : add_word (queued r) 2 ≡ queued r + 2 = omega (arith, i.room) in
              rw same refl)
