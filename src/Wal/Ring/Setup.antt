-- ===== src/Wal/Ring/Setup.antt =====
-- newIORing, close and init of internal/wal/io_uring_linux.go. What is open is a list, the latest first.
use lsm_tree_go.Common.{
  ℕ, zero, suc, ◌+◌, ◌*◌, ◌%◌, ◌^◌, Bool, true, false, ◌&&◌, Option, none, some, List, [], ◌∷◌,
  replicate, ltb, if◌then◌else◌,
}
use lsm_tree_go.Common.Outcome.{Outcome, ok, fail, panic, os_error}
use lsm_tree_go.Wal.Ring.{
  Shared, Ring, Resource, ring_file, sq_map, cq_map, sqe_map, Enter, Run, running, blocked,
  panicked, returned, flush, ring_depth,
}

-- `IORING_SETUP_NO_SQARRAY`
abbrev pub setup_no_sqarray : ℕ
setup_no_sqarray = 2 ^ 12

abbrev pub off_sq_ring : ℕ
off_sq_ring = 0

abbrev pub off_cq_ring : ℕ
off_cq_ring = 0x8000000

abbrev pub off_sqes : ℕ
off_sqes = 0x10000000

-- io_sqring_offsets
pub record SqOffsets : Type 0 where
  pub head : ℕ
  pub tail : ℕ
  pub ring_mask : ℕ
  pub ring_entries : ℕ
  pub flags : ℕ
  pub dropped : ℕ
  pub array : ℕ
  pub resv1 : ℕ
  pub resv2 : ℕ

-- io_cqring_offsets
pub record CqOffsets : Type 0 where
  pub head : ℕ
  pub tail : ℕ
  pub ring_mask : ℕ
  pub ring_entries : ℕ
  pub overflow : ℕ
  pub cqes : ℕ
  pub flags : ℕ
  pub resv1 : ℕ
  pub resv2 : ℕ

-- io_uring_params
pub record Params : Type 0 where
  pub sq_entries : ℕ
  pub cq_entries : ℕ
  pub flags : ℕ
  pub sq_thread_cpu : ℕ
  pub sq_thread_idle : ℕ
  pub features : ℕ
  pub wq_fd : ℕ
  pub resv : List ℕ
  pub sq_off : SqOffsets
  pub cq_off : CqOffsets

-- What the kernel answers: io_uring_setup for a depth and flags (an errno, a descriptor and the parameters it
-- fills in), mmap of the ring for an offset and a length, and the memory that the three mappings show.
pub record Kernel : Type 0 where
  pub setup : ℕ → ℕ → ℕ × ℕ × Params
  pub mmap_ok : ℕ → ℕ → Bool
  pub memory : Params → Shared
  pub enter : Enter

-- The three sizes, which are uint32 sums.
unfoldable pub sq_ring_size : Params → ℕ
sq_ring_size p = (p.sq_off.array + p.sq_entries * 4) % 2 ^ 32

unfoldable pub cq_ring_size : Params → ℕ
cq_ring_size p = (p.cq_off.cqes + p.cq_entries * 16) % 2 ^ 32

unfoldable pub sqes_size : Params → ℕ
sqes_size p = p.sq_entries * 64 % 2 ^ 32

abbrev pub is_same : Resource → Resource → Bool
is_same ring_file ring_file = true
is_same sq_map sq_map = true
is_same cq_map cq_map = true
is_same sqe_map sqe_map = true
is_same ring_file sq_map = false
is_same ring_file cq_map = false
is_same ring_file sqe_map = false
is_same sq_map ring_file = false
is_same sq_map cq_map = false
is_same sq_map sqe_map = false
is_same cq_map ring_file = false
is_same cq_map sq_map = false
is_same cq_map sqe_map = false
is_same sqe_map ring_file = false
is_same sqe_map sq_map = false
is_same sqe_map cq_map = false

-- `syscall.Munmap` and `syscall.Close`
unfoldable pub release : Resource → List Resource → List Resource
release x [] = []
release x (y ∷ held) = let rest = release x held in if is_same x y then held else y ∷ rest

-- The pointers into the mappings are taken, which panics past their ends.
unfoldable pub in_bounds : Params → Bool
in_bounds p =
    ltb p.sq_off.head (sq_ring_size p)
    && ltb p.sq_off.tail (sq_ring_size p)
    && ltb p.sq_off.ring_mask (sq_ring_size p)
    && ltb p.cq_off.head (cq_ring_size p)
    && ltb p.cq_off.tail (cq_ring_size p)
    && ltb p.cq_off.ring_mask (cq_ring_size p)

-- The struct of a new ring for the file `fd`.
unfoldable pub fresh_ring : Kernel → ℕ → ℕ → Params → Ring
fresh_ring k fd ring_fd p = record {
  ring_fd = ring_fd;
  maps = sq_map ∷ cq_map ∷ sqe_map ∷ [];
  shared = k.memory p;
  sq_entries = p.sq_entries;
  cq_entries = p.cq_entries;
  fd = fd;
  offset = 0;
  sq_local_tail = 0;
  write_bufs = replicate ring_depth none;
  wb_head = 0;
  wb_tail = 0;
  calls = 0;
}

-- newIORing from the mappings on. A mapping that fails lets go of those before it and of the ring's file.
unfoldable pub map_ring : Kernel → ℕ → ℕ → Params → List Resource → List Resource × Outcome Ring
map_ring k fd ring_fd p held =
    if k.mmap_ok off_sq_ring (sq_ring_size p)
    then (if k.mmap_ok off_cq_ring (cq_ring_size p)
        then (if k.mmap_ok off_sqes (sqes_size p)
            then (
              sqe_map ∷ cq_map ∷ sq_map ∷ held,
              if in_bounds p then ok (fresh_ring k fd ring_fd p) else panic,
            )
            else (
              release ring_file (release sq_map (release cq_map (cq_map ∷ sq_map ∷ held))),
              fail os_error,
            ))
        else (release ring_file (release sq_map (sq_map ∷ held)), fail os_error))
    else (release ring_file held, fail os_error)

-- newIORing, with what is open; the first call asks for no array of indices, the second for nothing.
unfoldable pub new_ring : Kernel → ℕ → List Resource → List Resource × Outcome Ring
new_ring k fd held = first (k.setup ring_depth setup_no_sqarray)
  where
    second : ℕ × ℕ × Params → List Resource × Outcome Ring
    second (zero, ring_fd, p) = map_ring k fd ring_fd p (ring_file ∷ held)
    second (suc e, ring_fd, p) = (held, fail os_error)

    first : ℕ × ℕ × Params → List Resource × Outcome Ring
    first (zero, ring_fd, p) = map_ring k fd ring_fd p (ring_file ∷ held)
    first (suc e, ring_fd, p) = second (k.setup ring_depth 0)

-- `if x != nil { syscall.Munmap(x) }`
abbrev pub has_map : Resource → List Resource → Bool
has_map x [] = false
has_map x (y ∷ maps) = if is_same x y then true else has_map x maps

abbrev pub unmap : Resource → Ring → List Resource → List Resource
unmap x r held = if has_map x r.maps then release x held else held

-- close from the unmapping on
unfoldable pub let_go : Ring → List Resource → List Resource
let_go r held =
    let unmapped = unmap sq_map r (unmap cq_map r (unmap sqe_map r held)) in
    if ltb 0 r.ring_fd then release ring_file unmapped else unmapped

-- close: what is open afterwards, where its flush returns, with an error or without.
unfoldable pub close : ℕ → Enter → Ring → List Resource → Option (List Resource)
close fuel enter r held = flushed (flush fuel enter r)
  where
    flushed : Run → Option (List Resource)
    flushed running = none
    flushed blocked = none
    flushed panicked = none
    flushed (returned r' e) = some (let_go r' held)
