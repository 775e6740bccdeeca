-- ===== src/Wal/Ring/Queue.antt =====
-- What the kernel is asked for by the entries of internal/wal/io_uring_linux.go that it has not taken yet.
use Prim.Native.Nat.{bit_and}
use native.Mathlib.Nat.{mod-lt, mod-eq_of_lt, div-add-mod, mul-add-mod_self_left}
use lsm_tree_go.Common.{
  ℕ, zero, suc, ◌+◌, ◌-◌, ◌*◌, ◌/◌, ◌%◌, ◌^◌, ◌≤◌, ◌<◌, ◌≡◌, ◌≢◌, refl, sym, ap, ◌∙◌, Option, none,
  some, List, [], ◌∷◌, ◌++◌, length, take, set, get_elem?, ◌==◌, if◌then◌else◌, arith,
  get_elem?-set_ne,
}
use lsm_tree_go.Common.Bits.{bit_and_halves, bit_and-le}
use lsm_tree_go.Common.Keys.{Bytes}
use lsm_tree_go.Wal.Ring.{Sqe, Ring, add_word, sub_word}

-- What the kernel takes an entry for, by its own numbers of the operations: 3 is IORING_OP_FSYNC, 4 and 5 are
-- IORING_OP_READ_FIXED and IORING_OP_WRITE_FIXED, 22 and 23 are IORING_OP_READ and IORING_OP_WRITE. A write has
-- the file, the offset in it and the bytes.
pub data Request : Type 0 where
  fsync : ℕ → Request
  read_fixed read_plain : ℕ → ℕ → ℕ → Request
  write_fixed write_plain : ℕ → ℕ → Bytes → Request
  other : ℕ → Request

unfoldable pub request : Option Sqe → Option Request
request none = none
request (some s) = some (
    if s.opcode == 3
    then fsync s.fd
    else if s.opcode == 4
    then read_fixed s.fd s.off s.len
    else if s.opcode == 5
    then write_fixed s.fd s.off (take s.len s.addr)
    else if s.opcode == 22
    then read_plain s.fd s.off s.len
    else if s.opcode == 23
    then write_plain s.fd s.off (take s.len s.addr)
    else other s.opcode)

-- The requests of `n` entries from `head` on, round the ring.
unfoldable pub requests_from : List Sqe → ℕ → ℕ → ℕ → List (Option Request)
requests_from sqes mask head zero = []
requests_from sqes mask head (suc n) =
    request (get_elem? sqes (bit_and head mask)) ∷ requests_from sqes mask (add_word head 1) n

abbrev pub queued : Ring → ℕ
queued r = sub_word r.shared.sq_tail r.shared.sq_head

-- What is queued and not submitted yet, in order.
abbrev pub requests : Ring → List (Option Request)
requests r = requests_from r.shared.sqes r.shared.sq_mask r.shared.sq_head (queued r)

-- A remainder by an even number, from the lowest digit and the rest.
mod-double : (x m : ℕ) → 0 < m → x % (2 * m) ≡ x % 2 + 2 * (x / 2 % m)
mod-double x m p =
    let rest = x % 2 + 2 * (x / 2 % m) in
    let small : rest < 2 * m = let q = mod-lt (x / 2) p in omega arith in
    let parts : x ≡ 2 * m * (x / 2 / m) + rest = let q = div-add-mod (x / 2) m in grind arith in
    ap (λ y. y % (2 * m)) parts
    ∙ (mul-add-mod_self_left (2 * m) (x / 2 / m) rest ∙ mod-eq_of_lt small)

-- A mask of `k` bits gives the remainder by 2^k.
mask-mod : (k x : ℕ) → (bit_and x (2 ^ k - 1) ≡ x % 2 ^ k) × (0 < 2 ^ k)
mask-mod zero x = (omega (arith, bit_and-le x 0), omega arith)
mask-mod (suc k) x =
    let (half, pos) = mask-mod k (x / 2) in
    let d = mod-double x (2 ^ k) pos in
    let s = bit_and_halves x (2 ^ suc k - 1) in
    let below : (2 ^ suc k - 1) / 2 ≡ 2 ^ k - 1 = omega arith in
    let odd : (2 ^ suc k - 1) % 2 ≡ 1 = omega arith in
    let s' = rw (below, odd) at s in
    let double : 2 ^ suc k ≡ 2 * 2 ^ k = omega arith in
    let d' = rw (sym double) at d in (omega arith, omega arith)

pub place-mod : (x : ℕ) → bit_and x 255 ≡ x % 256
place-mod x = (mask-mod 8 x).0

-- Writing an entry `d` places behind the last of `n` leaves what they ask for, while all fit in the ring.
pub requests_from-set :
    (sqes : List Sqe) (head n d p : ℕ) (s : Sqe)
    → p ≡ (head + n + d) % 256
    → n + d < 256
    → requests_from (set sqes p s) 255 head n ≡ requests_from sqes 255 head n
unfolding requests_from
requests_from-set sqes head zero d p s e h = refl
requests_from-set sqes head (suc n) d p s e h =
    let apart : p ≢ bit_and head 255 = λ same. let q = place-mod head in omega arith in
    rw
      (
        get_elem?-set_ne sqes p (bit_and head 255) s apart,
        requests_from-set sqes (add_word head 1) n d p s (omega arith) (omega arith),
      )
      refl

-- One entry more at the end.
pub requests_from-suc :
    (sqes : List Sqe) (head n p : ℕ)
    → p ≡ (head + n) % 256
    → requests_from sqes 255 head (suc n)
      ≡ requests_from sqes 255 head n ++ request (get_elem? sqes p) ∷ []
unfolding requests_from
requests_from-suc sqes head zero p e =
    let same : bit_and head 255 ≡ p = omega (arith, place-mod head) in rw same refl
requests_from-suc sqes head (suc n) p e =
    ap (λ l. request (get_elem? sqes (bit_and head 255)) ∷ l)
      (requests_from-suc sqes (add_word head 1) n p (omega arith))

-- A ring of the depth that newIORing asks for.
pub record IsRing (r : Ring) : Type 0 where
  pub mask : r.shared.sq_mask ≡ 255
  pub entries : r.sq_entries ≡ 256
  pub places : length r.shared.sqes ≡ 256
  pub head_word : r.shared.sq_head < 2 ^ 32
  pub tail_word : r.shared.sq_tail < 2 ^ 32
  pub local : r.sq_local_tail ≡ r.shared.sq_tail
  pub room : queued r ≤ 256
  pub buffers : length r.write_bufs ≡ 256
  pub cq_head_word : r.shared.cq_head < 2 ^ 32
  pub cq_tail_word : r.shared.cq_tail < 2 ^ 32
  pub completions : r.shared.cq_mask < length r.shared.cqes
  pub few : length r.shared.cqes ≤ 2 ^ 28
