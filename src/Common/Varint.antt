-- ===== src/Common/Varint.antt =====
-- What the source uses of Go's encoding/binary: Uvarint and Varint with their writers, and
-- little-endian words. A reader returns the value with the bytes behind it; it is `none` where Go's
-- count `n` is not positive (the buffer ends inside the number, or the number passes 64 bits).
use Prim.Native.Nat.{ℕ, zero, suc, ◌+◌, ◌*◌, ◌/◌, ◌%◌, ◌^◌, ◌≤◌, ◌<◌}
use mathlib.Core.Path.{◌≡◌, refl, ap}
use mathlib.Core.Option.{Option, none, some}
use mathlib.Core.List.{[], ◌∷◌, ◌++◌}
use native.Mathlib.Nat.{pow-suc}
use native.Mathlib.Omega.{arith}
use mathlib.Core.Logic.{◌⊎◌, inl, inr}
use lsm_tree_go.Common.Tests.{ltb, ◌==◌, if◌then◌else◌, ◌>>=◌}
use lsm_tree_go.Common.Lists.{length}
use lsm_tree_go.Common.Int.{ℤ, pos, negsuc, IsInt64}
use lsm_tree_go.Common.Keys.{Bytes}

-- Groups of seven bits, lowest first; at most `k` bytes carry the continuation bit.
unfoldable pub uvarint_groups : ℕ → ℕ → Bytes
uvarint_groups zero v = v ∷ []
uvarint_groups (suc k) v =
    let rest = uvarint_groups k (v / 128) in if ltb v 128 then v ∷ [] else (v % 128 + 128) ∷ rest

-- binary.AppendUvarint, PutUvarint: the bytes of a uint64.
unfoldable pub uvarint_bytes : ℕ → Bytes
unfolding uvarint_groups
uvarint_bytes v = uvarint_groups 9 v

-- The tenth byte may be 0 or 1.
read_groups : ℕ → Bytes → Option (ℕ × Bytes)
read_groups k [] = none
read_groups zero (b ∷ bs) = if ltb b 2 then some (b, bs) else none
read_groups (suc k) (b ∷ bs) =
    let more = read_groups k bs in
    if ltb b 128 then some (b, bs) else (more >>= λ p. some (b % 128 + 128 * p.0, p.1))

-- binary.Uvarint
unfoldable pub uvarint : Bytes → Option (ℕ × Bytes)
unfolding read_groups
uvarint buf = read_groups 9 buf

-- The sign goes to the lowest bit.
abbrev pub zigzag : ℤ → ℕ
zigzag (pos n) = 2 * n
zigzag (negsuc n) = 2 * n + 1

abbrev pub unzigzag : ℕ → ℤ
unzigzag u = if u % 2 == 0 then pos (u / 2) else negsuc (u / 2)

-- binary.AppendVarint, PutVarint
unfoldable pub varint_bytes : ℤ → Bytes
unfolding uvarint_bytes
varint_bytes v = uvarint_bytes (zigzag v)

-- binary.Varint
unfoldable pub varint : Bytes → Option (ℤ × Bytes)
unfolding uvarint
varint buf = uvarint buf >>= λ p. some (unzigzag p.0, p.1)

-- binary.LittleEndian.AppendUint32, AppendUint64: `n` bytes.
unfoldable pub little_endian : ℕ → ℕ → Bytes
little_endian zero v = []
little_endian (suc n) v = (v % 256) ∷ little_endian n (v / 256)

-- binary.LittleEndian.Uint32, Uint64 of the first `n` bytes. Go panics on a shorter slice.
unfoldable pub read_little_endian : ℕ → Bytes → Option ℕ
read_little_endian zero bs = some 0
read_little_endian (suc n) [] = none
read_little_endian (suc n) (b ∷ bs) = read_little_endian n bs >>= λ v. some (b + 256 * v)

read_groups-uvarint_groups :
    (k v : ℕ) (rest : Bytes)
    → v < 2 * 128 ^ k
    → read_groups k (uvarint_groups k v ++ rest) ≡ some (v, rest)
unfolding read_groups uvarint_groups
read_groups-uvarint_groups zero v rest h = ground arith
read_groups-uvarint_groups (suc k) v rest h =
    ground (arith, read_groups-uvarint_groups k (v / 128) rest (omega arith))

-- A uint64 is read back, with what follows it.
pub uvarint-uvarint_bytes :
    (v : ℕ) (rest : Bytes) → v < 2 ^ 64 → uvarint (uvarint_bytes v ++ rest) ≡ some (v, rest)
unfolding uvarint uvarint_bytes
uvarint-uvarint_bytes v rest h = read_groups-uvarint_groups 9 v rest (omega arith)

-- An int64 is read back, with what follows it.
pub varint-varint_bytes :
    (v : ℤ) (rest : Bytes) → IsInt64 v → varint (varint_bytes v ++ rest) ≡ some (v, rest)
unfolding varint varint_bytes
varint-varint_bytes (pos n) rest h =
    rw (uvarint-uvarint_bytes (2 * n) rest (omega arith)) (ground arith)
varint-varint_bytes (negsuc n) rest h =
    rw (uvarint-uvarint_bytes (2 * n + 1) rest (omega arith)) (ground arith)

pub length-little_endian : (n v : ℕ) → length (little_endian n v) ≡ n
unfolding little_endian
length-little_endian zero v = refl
length-little_endian (suc n) v = ap suc (length-little_endian n (v / 256))

pub read_little_endian-little_endian :
    (n v : ℕ) (rest : Bytes)
    → v < 256 ^ n
    → read_little_endian n (little_endian n v ++ rest) ≡ some v
unfolding read_little_endian little_endian
read_little_endian-little_endian zero v rest h = ground arith
read_little_endian-little_endian (suc n) v rest h =
    ground (arith, read_little_endian-little_endian n (v / 256) rest (omega arith))

length-uvarint_groups :
    (k v : ℕ) → (1 ≤ length (uvarint_groups k v)) × (length (uvarint_groups k v) ≤ k + 1)
unfolding uvarint_groups
length-uvarint_groups zero v = omega arith
length-uvarint_groups (suc k) v = ground (arith, length-uvarint_groups k (v / 128))

pub length-uvarint_bytes :
    (v : ℕ) → (1 ≤ length (uvarint_bytes v)) × (length (uvarint_bytes v) ≤ 10)
unfolding uvarint_bytes
length-uvarint_bytes v = let p = length-uvarint_groups 9 v in omega arith

length-uvarint_groups-le : (k j v : ℕ) → v < 128 ^ suc j → length (uvarint_groups k v) ≤ suc j
unfolding uvarint_groups
length-uvarint_groups-le zero j v h = omega arith
length-uvarint_groups-le (suc k) zero v h = ground (arith, pow-suc 128 0)
length-uvarint_groups-le (suc k) (suc j) v h =
    let split = pow-suc 128 (suc j) in
    let rest = length-uvarint_groups-le k j (v / 128) (omega arith) in ground arith

-- A group of seven bits for each byte.
pub length-uvarint_bytes-le : (j v : ℕ) → v < 128 ^ suc j → length (uvarint_bytes v) ≤ suc j
unfolding uvarint_bytes
length-uvarint_bytes-le j v h = length-uvarint_groups-le 9 j v h

-- A number that is read takes a byte at least.
read_groups_takes :
    (k : ℕ) (bs : Bytes) (v : ℕ) (rest : Bytes)
    → read_groups k bs ≡ some (v, rest)
    → length rest < length bs
unfolding read_groups
read_groups_takes k [] v rest h = cc
read_groups_takes zero (b ∷ bs) v rest h = ground arith
read_groups_takes (suc k) (b ∷ bs) v rest h = elim (step (read_groups k bs) refl) [
  | inl e ↦ ground arith
  | inr e ↦ ground (arith, read_groups_takes k bs e.0.0 e.0.1 e.1)
]
  where
    step :
        (o : Option (ℕ × Bytes))
        → read_groups k bs ≡ o
        → (o ≡ none) ⊎ ((p : ℕ × Bytes) × (read_groups k bs ≡ some (p.0, p.1)))
    step none e = inl refl
    step (some p) e = inr (p, e)

pub uvarint_takes :
    (bs : Bytes) (v : ℕ) (rest : Bytes) → uvarint bs ≡ some (v, rest) → length rest < length bs
unfolding uvarint
uvarint_takes bs v rest h = read_groups_takes 9 bs v rest h

pub uvarint_bytes_zero : uvarint_bytes 0 ≡ 0 ∷ []
unfolding uvarint_bytes uvarint_groups
uvarint_bytes_zero = refl

pub uvarint_zero : (rest : Bytes) → uvarint (0 ∷ rest) ≡ some (0, rest)
unfolding uvarint read_groups
uvarint_zero rest = refl

pub little_endian_zero : little_endian 4 0 ≡ 0 ∷ 0 ∷ 0 ∷ 0 ∷ []
unfolding little_endian
little_endian_zero = refl

pub uvarint_nil : uvarint [] ≡ none
unfolding uvarint read_groups
uvarint_nil = refl
