-- ===== src/Wal/Ring.antt =====
-- internal/wal/io_uring_linux.go: the ring that the log writes through in the io_uring mode. Memory shared with
-- the kernel is a record of its words and entries, which the kernel changes in its io_uring_enter only; a
-- pointer to a buffer is the buffer's bytes. A word is a number below 2^32, with its wrap-around written out.
pub mod Queue
pub mod States
pub mod Reaped
pub mod Reported
pub mod Setup
pub mod Closed
pub mod Layout
pub mod Submitted
use Prim.Native.Nat.{bit_and, bit_or}
use lsm_tree_go.Common.{
  ℕ, zero, suc, ◌+◌, ◌-◌, ◌*◌, ◌%◌, ◌^◌, Bool, true, false, Option, none, some, List, [], ◌∷◌,
  length, set, get_elem?, ltb, ◌==◌, ◌||◌, if◌then◌else◌,
}
use lsm_tree_go.Common.Int.{ℤ, pos, negsuc}
use lsm_tree_go.Common.Keys.{Bytes}

abbrev pub op_fsync : ℕ
op_fsync = 3

abbrev pub op_write : ℕ
op_write = 5

-- `iouringDepth`
abbrev pub ring_depth : ℕ
ring_depth = 256

-- `a + b` and `a - b` on uint32
abbrev pub add_word : ℕ → ℕ → ℕ
add_word a b = (a + b) % 2 ^ 32

abbrev pub sub_word : ℕ → ℕ → ℕ
sub_word a b = (a + 2 ^ 32 - b) % 2 ^ 32

-- io_uring_sqe. `addr` is what it points to, and `fd` the bits of an int32.
pub record Sqe : Type 0 where
  pub opcode : ℕ
  pub flags : ℕ
  pub ioprio : ℕ
  pub fd : ℕ
  pub off : ℕ
  pub addr : Bytes
  pub len : ℕ
  pub rw_flags : ℕ
  pub user_data : ℕ
  pub buf_index : ℕ
  pub personality : ℕ
  pub file_index : ℕ
  pub addr3 : ℕ
  pub pad2 : ℕ

-- io_uring_cqe
pub record Cqe : Type 0 where
  pub user_data : ℕ
  pub res : ℤ
  pub flags : ℕ

-- The words that sqHead to cqMask point to, the entries of `sqes`, and those of `cqRing` from cqesOff on.
pub record Shared : Type 0 where
  pub sq_head : ℕ
  pub sq_tail : ℕ
  pub sq_mask : ℕ
  pub sqes : List Sqe
  pub cq_head : ℕ
  pub cq_tail : ℕ
  pub cq_mask : ℕ
  pub cqes : List Cqe

-- What is open, or mapped.
pub data Resource : Type 0 where
  ring_file sq_map cq_map sqe_map : Resource

-- iouring. `maps` are the mappings whose field is not nil, and `calls` counts the calls of io_uring_enter.
pub record Ring : Type 0 where
  pub ring_fd : ℕ
  pub maps : List Resource
  pub shared : Shared
  pub sq_entries : ℕ
  pub cq_entries : ℕ
  pub fd : ℕ
  pub offset : ℕ
  pub sq_local_tail : ℕ
  pub write_bufs : List (Option Bytes)
  pub wb_head : ℕ
  pub wb_tail : ℕ
  pub calls : ℕ

-- io_uring_enter with IORING_ENTER_GETEVENTS: the number of the call, to_submit and min_complete give the errno,
-- 0 if there is none, and the memory afterwards; `none` is a call that does not return.
abbrev pub Enter : Type 0
Enter = ℕ → ℕ → ℕ → Shared → Option (ℕ × Shared)

-- How a method ends: it has returned with an errno, 0 for nil, or it has panicked, or it waits in a call that does
-- not return, or it still runs.
pub data Run : Type 0 where
  running : Run
  blocked : Run
  panicked : Run
  returned : Ring → ℕ → Run

-- `if err != nil { return err }`
abbrev pub and_then : Run → (Ring → Run) → Run
and_then running next = running
and_then blocked next = blocked
and_then panicked next = panicked
and_then (returned r zero) next = next r
and_then (returned r (suc e)) next = returned r (suc e)

-- The ring after a system call.
abbrev pub entered : Ring → Shared → Ring
entered r s = record r { shared = s; calls = r.calls + 1 }

-- `atomic.StoreUint32(r.cqHead, head)`
abbrev pub store_cq_head : ℕ → Ring → Ring
store_cq_head head r = record r { shared = record r.shared { cq_head = head } }

-- The buffer that a completion names is let go.
unfoldable pub release_buf : ℕ → Ring → Ring
release_buf user_data r = by_index (bit_and user_data 0x7fffffff)
  where
    by_index : ℕ → Ring
    by_index zero = r
    by_index (suc idx) =
        if ltb idx (length r.write_bufs)
        then record r { write_bufs = set r.write_bufs idx none; wb_head = r.wb_head + 1 }
        else r

-- The place in `cqRing` that each round of reap's inner loop looks at; an offset is a word too.
abbrev pub cqe_place : ℕ → Ring → ℕ
cqe_place head r = bit_and head r.shared.cq_mask % 2 ^ 28

-- The inner loop of reap, for `n` more rounds from `i` on.
unfoldable pub collect : ℕ → ℕ → ℕ → Ring → Run
collect zero i head r = returned r 0
collect (suc n) i head r =
    by_cqe (get_elem? r.shared.cqes (cqe_place head r)) (λ r'. collect n (i + 1) head r')
  where
    by_result : ℕ → ℤ → (Ring → Run) → Run
    by_result user_data (negsuc e) next = returned (store_cq_head (add_word head (i + 1)) r) (suc e)
    by_result user_data (pos v) next = next (release_buf user_data r)

    by_cqe : Option Cqe → (Ring → Run) → Run
    by_cqe none next = panicked
    by_cqe (some c) next = by_result c.user_data c.res next

-- How many completions a round of reap takes.
unfoldable pub batch : ℕ → ℕ → ℕ → ℕ
batch count head tail =
    let n = sub_word tail head in if ltb (count % 2 ^ 32) n then count % 2 ^ 32 else n

-- A round of reap from `n := tail - head` on; `again` is the next round.
unfoldable pub harvest : (ℕ → Ring → Run) → ℕ → ℕ → Ring → Run
harvest again count head r =
    let n = batch count head r.shared.cq_tail in
    and_then (collect n 0 head r) (λ r'. again (count - n) (store_cq_head (add_word head n) r'))

-- The call that waits for completions; EINTR is 4.
unfoldable pub wait : (ℕ → Ring → Run) → Enter → ℕ → Ring → Run
wait again enter count r = by_errno (enter r.calls 0 count r.shared)
  where
    by_errno : Option (ℕ × Shared) → Run
    by_errno none = blocked
    by_errno (some (zero, s)) = harvest again count r.shared.cq_head (entered r s)
    by_errno (some (suc e, s)) =
        if e == 3 then again count (entered r s) else returned (entered r s) (suc e)

-- A round of the loop of reap.
unfoldable pub reap_round : (ℕ → Ring → Run) → Enter → ℕ → Ring → Run
reap_round again enter count r =
    if count == 0
    then returned r 0
    else if r.shared.cq_head == r.shared.cq_tail
    then wait again enter count r
    else harvest again count r.shared.cq_head r

-- reap, for so many rounds.
unfoldable pub reap : ℕ → Enter → ℕ → Ring → Run
reap zero enter count r = running
reap (suc fuel) enter count r = reap_round (λ c r'. reap fuel enter c r') enter count r

-- flush
unfoldable pub flush : ℕ → Enter → Ring → Run
flush fuel enter r =
    if to_submit == 0 then returned r 0 else by_errno (enter r.calls to_submit to_submit r.shared)
  where
    to_submit : ℕ
    to_submit = sub_word r.shared.sq_tail r.shared.sq_head

    by_errno : Option (ℕ × Shared) → Run
    by_errno none = blocked
    by_errno (some (zero, s)) = reap fuel enter to_submit (entered r s)
    by_errno (some (suc e, s)) = returned (entered r s) (suc e)

-- The place in `sqes` of a tail; an offset is a word too.
abbrev pub sqe_place : ℕ → Ring → ℕ
sqe_place tail r = bit_and tail r.shared.sq_mask % 2 ^ 26

-- Fields of an entry of `sqes` are set.
unfoldable pub prepare : ℕ → (Sqe → Sqe) → Ring → Run
prepare place fill r = by_slot (get_elem? r.shared.sqes place)
  where
    by_slot : Option Sqe → Run
    by_slot none = panicked
    by_slot (some s) =
        returned (record r { shared = record r.shared { sqes = set r.shared.sqes place (fill s) } })
          0

-- The fields that submitWrite sets for the data, and those that it sets for the fsync behind them.
unfoldable pub write_sqe : ℕ → ℕ → Bytes → ℕ → Sqe → Sqe
write_sqe fd offset buf user_data s = record s {
  opcode = op_write;
  flags = 0;
  fd = fd % 2 ^ 32;
  off = offset % 2 ^ 64;
  addr = buf;
  len = length buf % 2 ^ 32;
  user_data = user_data;
}

unfoldable pub fsync_sqe : ℕ → ℕ → Sqe → Sqe
fsync_sqe fd user_data s = record s {
  opcode = op_fsync;
  flags = 0;
  fd = fd % 2 ^ 32;
  off = 0;
  addr = [];
  len = 0;
  user_data = bit_or user_data 0x80000000;
}

-- submitWrite from the copy of the data on. `idx` is taken modulo the number of buffers; taking the address of
-- the first byte of no data panics.
unfoldable pub enqueue : Bytes → Ring → Run
enqueue bytes r =
    if (length r.write_bufs == 0) || (length bytes == 0)
    then panicked
    else and_then (prepare (sqe_place tail kept) (write_sqe r.fd r.offset bytes (idx + 1)) kept)
        (λ r1.
          and_then (prepare (sqe_place (add_word tail 1) r1) (fsync_sqe r.fd (idx + 1)) r1) advance)
  where
    idx : ℕ
    idx = r.wb_tail % length r.write_bufs

    tail : ℕ
    tail = r.sq_local_tail

    kept : Ring
    kept = record r { write_bufs = set r.write_bufs idx (some bytes); wb_tail = r.wb_tail + 1 }

    advance : Ring → Run
    advance r' =
        returned
          (record r' {
            sq_local_tail = add_word tail 2;
            shared = record r'.shared { sq_tail = add_word tail 2 };
            offset = r.offset + length bytes;
          })
          0

-- submitWrite
unfoldable pub submit_write : ℕ → Enter → Bytes → Ring → Run
submit_write fuel enter bytes r =
    if ltb r.sq_entries (add_word (sub_word r.sq_local_tail r.shared.sq_head) 2)
    then and_then (flush fuel enter r) (λ r'. enqueue bytes r')
    else enqueue bytes r
