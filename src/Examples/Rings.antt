-- ===== src/Examples/Rings.antt =====
-- The theorems about internal/wal/io_uring_linux.go and asyncWriter of internal/wal/wal.go at small inputs.
use lsm_tree_go.Common.{
  ℕ, suc, ◌<◌, ◌≡◌, refl, true, false, none, some, [], ◌∷◌, replicate, ◌==◌, arith, ◌⊎◌,
}
use lsm_tree_go.Common.Int.{pos, negsuc}
use lsm_tree_go.Common.Outcome.{Error, ok, fail}
use lsm_tree_go.Wal
use lsm_tree_go.Wal.{Wal, sync_async}
use lsm_tree_go.Wal.Flusher.{
  Async, write, send, receive, close_channel, finish, step, started, flush, IsReached, begun,
  stepped, written-synced,
}
use lsm_tree_go.Wal.Ring.{
  Sqe, Cqe, Shared, Ring, ring_file, sq_map, cq_map, sqe_map, Enter, returned, reap, submit_write,
  add_word, sub_word,
}
use lsm_tree_go.Wal.Ring
use lsm_tree_go.Wal.Ring.Queue.{IsRing, queued}
use lsm_tree_go.Wal.Ring.States.{IsKernel, Leaves}
use lsm_tree_go.Common.{Option, Bool, subst, ap, ltb, false}
use lsm_tree_go.Wal.Ring.Reaped.{Flushed, flush_lem, submitted}
use lsm_tree_go.Wal.Ring.Reported.{reap-first}
use lsm_tree_go.Wal.Ring.Submitted.{Submits, submit_write-requests}
use lsm_tree_go.Wal.Ring.Setup.{Kernel, Params, close, new_ring}
use lsm_tree_go.Wal.Ring.Closed.{opened, Opens, close-opened, new_ring-opened}
use lsm_tree_go.Wal.Ring.Layout.{init, offsets, size_of, sqe_fields, cqe_fields}
use lsm_tree_go.Examples.{key_a}
use lsm_tree_go.Examples.Tables.{up_os}
use lsm_tree_go.Examples.Trees.{ring_log}

-- A kernel that takes every entry and completes it at once.
abbrev all_taken : ℕ → ℕ → ℕ → Shared → ℕ
all_taken c n m s = n

abbrev completed : ℕ → Shared → Shared
completed n s = record s { sq_head = add_word s.sq_head n; cq_tail = add_word s.sq_head n }

abbrev reply_unless : Bool → Shared → Option (ℕ × Shared)
reply_unless true s = none
reply_unless false s = some (0, s)

abbrev prompt_kernel : Enter
prompt_kernel c n m s =
    reply_unless (ltb (sub_word (add_word s.sq_head n) s.cq_head) m) (completed n s)

replied :
    (no : Bool) (e : ℕ) (s s' : Shared)
    → reply_unless no s ≡ some (e, s')
    → (no ≡ false) × (e ≡ 0) × (s ≡ s')
replied true e s s' h = (cc, cc, cc)
replied false e s s' h = (cc, cc, cc)

completed-Leaves : (n : ℕ) (s : Shared) → Leaves s n (completed n s)
completed-Leaves n s = record {
  sqes = refl;
  sq_tail = refl;
  sq_mask = refl;
  cq_head = refl;
  cq_mask = refl;
  places = refl;
  cq_tail_word = omega arith;
  sq_head = refl;
  due = λ h. omega arith;
}

prompt_kernel-IsKernel : IsKernel prompt_kernel all_taken 0
prompt_kernel-IsKernel = record {
  at_most = λ c n m s. omega arith;
  leaves = λ c n m s e s' h.
      let r = replied (ltb (sub_word (add_word s.sq_head n) s.cq_head) m) e (completed n s) s' h in
      subst (Leaves s n) r.2 (completed-Leaves n s);
  posted = λ c m s s' p h same.
      let r = replied (ltb (sub_word (add_word s.sq_head 0) s.cq_head) m) 0 (completed 0 s) s' h in
      let t = ap Shared.cq_tail r.2 in
      let k = ap Shared.cq_head r.2 in let g = r.0 in ground (arith, t, k, g);
  waits = λ c n m s h. waiting (ltb (sub_word (add_word s.sq_head n) s.cq_head) m) n m s refl h;
  uninterrupted = λ c n m s e s' q h.
      let r = replied (ltb (sub_word (add_word s.sq_head n) s.cq_head) m) e (completed n s) s' h in
      omega (arith, r.1);
}
  where
    waiting :
        (no : Bool) (n m : ℕ) (s : Shared)
        → ltb (sub_word (add_word s.sq_head n) s.cq_head) m ≡ no
        → reply_unless no (completed n s) ≡ none
        → sub_word (add_word s.sq_head n) s.cq_head < m
    waiting true n m s e h = ground (arith, e)
    waiting false n m s e h = cc

abbrev blank_sqe : Sqe
blank_sqe = record {
  opcode = 0;
  flags = 0;
  ioprio = 0;
  fd = 0;
  off = 0;
  addr = [];
  len = 0;
  rw_flags = 0;
  user_data = 0;
  buf_index = 0;
  personality = 0;
  file_index = 0;
  addr3 = 0;
  pad2 = 0;
}

-- A write that went well, and a sync that did not.
abbrev good_cqe : Cqe
good_cqe = record { user_data = 1; res = pos 1; flags = 0 }

abbrev bad_cqe : Cqe
bad_cqe = record { user_data = 2147483649; res = negsuc 4; flags = 0 }

-- All places are taken, and the tail has gone round 2^32.
abbrev full_ring : Ring
full_ring = record {
  ring_fd = 9;
  maps = sq_map ∷ cq_map ∷ sqe_map ∷ [];
  shared = record {
    sq_head = 4294967295;
    sq_tail = 255;
    sq_mask = 255;
    sqes = replicate 256 blank_sqe;
    cq_head = 4294967295;
    cq_tail = 4294967295;
    cq_mask = 1;
    cqes = good_cqe ∷ bad_cqe ∷ [];
  };
  sq_entries = 256;
  cq_entries = 2;
  fd = 8;
  offset = 1;
  sq_local_tail = 255;
  write_bufs = replicate 256 none;
  wb_head = 0;
  wb_tail = 0;
  calls = 0;
}

full_ring-IsRing : IsRing full_ring
full_ring-IsRing = record {
  mask = refl;
  entries = refl;
  places = refl;
  head_word = omega arith;
  tail_word = omega arith;
  local = refl;
  room = omega arith;
  buffers = refl;
  cq_head_word = omega arith;
  cq_tail_word = omega arith;
  completions = omega arith;
  few = omega arith;
}

flush_lem_example : Flushed full_ring all_taken (Ring.flush 300 prompt_kernel full_ring)
flush_lem_example =
    flush_lem prompt_kernel all_taken 0 prompt_kernel-IsKernel 300 full_ring full_ring-IsRing
      (refl, refl) (omega arith)

submit_write-requests_example :
    Submits all_taken key_a full_ring (submit_write 300 prompt_kernel key_a full_ring)
submit_write-requests_example =
    submit_write-requests prompt_kernel all_taken 0 prompt_kernel-IsKernel 300 key_a full_ring
      full_ring-IsRing (refl, refl) (omega arith) (omega arith) (omega arith)

-- A ring with two completions to read.
abbrev read_ring : Ring
read_ring = record full_ring { shared = record full_ring.shared { cq_head = 0; cq_tail = 2 } }

reap-first_example :
    (r' : Ring) × (((v : ℕ) × (good_cqe.res ≡ pos v)
        × (reap 2 prompt_kernel 2 read_ring ≡ returned r' 0)
        × (r'.shared.cq_head ≡ 2))
      ⊎ ((e : ℕ) × (good_cqe.res ≡ negsuc e)
          × (reap 2 prompt_kernel 2 read_ring ≡ returned r' (suc e))
          × (r'.shared.cq_head ≡ add_word 0 1)))
reap-first_example =
    reap-first prompt_kernel 0 2 read_ring good_cqe (omega arith) (omega arith) refl (omega arith)
      refl

close-opened_example :
    (close 300 prompt_kernel full_ring (opened (ring_file ∷ [])) ≡ some (ring_file ∷ []))
    ⊎ ((close 300 prompt_kernel full_ring (opened (ring_file ∷ [])) ≡ none)
        × (submitted all_taken full_ring < queued full_ring))
close-opened_example =
    close-opened prompt_kernel all_taken 0 300 full_ring (ring_file ∷ []) prompt_kernel-IsKernel
      full_ring-IsRing (refl, refl) (omega arith) refl (omega arith)

-- Answers of the size that Linux gives.
abbrev params : Params
params = record {
  sq_entries = 256;
  cq_entries = 512;
  flags = 4096;
  sq_thread_cpu = 0;
  sq_thread_idle = 0;
  features = 0;
  wq_fd = 0;
  resv = 0 ∷ 0 ∷ 0 ∷ [];
  sq_off = record {
    head = 0;
    tail = 4;
    ring_mask = 16;
    ring_entries = 24;
    flags = 36;
    dropped = 32;
    array = 8256;
    resv1 = 0;
    resv2 = 0;
  };
  cq_off = record {
    head = 8;
    tail = 12;
    ring_mask = 20;
    ring_entries = 28;
    overflow = 44;
    cqes = 64;
    flags = 40;
    resv1 = 0;
    resv2 = 0;
  };
}

-- A kernel that has no mapping of the completions to give.
abbrev short_kernel : Kernel
short_kernel = record {
  setup = λ depth flags. (0, 9, params);
  mmap_ok = λ offset size. size == 9280;
  memory = λ p. full_ring.shared;
  enter = prompt_kernel;
}

new_ring-opened_example :
    Opens short_kernel 8 (ring_file ∷ []) (new_ring short_kernel 8 (ring_file ∷ []))
new_ring-opened_example = new_ring-opened short_kernel 8 (ring_file ∷ [])

-- Two bytes are written and synced before the loop ends.
abbrev ended_loop : Async
ended_loop = record {
  written = 5;
  synced = 5;
  in_flight = 0;
  signal = false;
  closed = true;
  dirty = true;
  flush_err = none;
  done = true;
}

ended_loop-IsReached : IsReached ended_loop
unfolding step started flush
ended_loop-IsReached =
    let one = stepped (started 3) _ (write 2) (begun 3) refl in
    let two = stepped _ _ send one refl in
    let three = stepped _ _ receive two refl in
    let four = stepped _ _ close_channel three refl in stepped _ ended_loop (finish true) four refl

abbrev ended_log : Wal
ended_log = record ring_log { mode = sync_async }

written-synced_example :
    (ended_loop.synced ≡ ended_loop.written)
    ⊎ ((e : Error) × (ended_loop.flush_err ≡ some e) × (Wal.close up_os ended_log ≡ fail e))
written-synced_example =
    written-synced ended_loop up_os ended_log ended_loop-IsReached refl refl refl refl

init_ok : init ≡ ok tt
unfolding init offsets size_of sqe_fields cqe_fields
init_ok = refl
