-- ===== src/Common/Crc.antt =====
-- hash/crc32 with the IEEE polynomial, a bit at a time; and the laws of `^` that it needs.
use Prim.Native.Nat.{ℕ, zero, suc, ◌+◌, ◌*◌, ◌/◌, ◌%◌, ◌^◌, ◌<◌, differ, bit_xor, bit_xor-bitwise}
use mathlib.Core.Path.{◌≡◌, refl}
use mathlib.Core.List.{[], ◌∷◌, ◌++◌}
use native.Mathlib.Omega.{arith}
use lsm_tree_go.Common.Tests.{◌==◌, if◌then◌else◌}
use lsm_tree_go.Common.Bits.{enough_digits}
use lsm_tree_go.Common.Keys.{Bytes}

zero-bit_xor : (b : ℕ) → bit_xor 0 b ≡ b
zero-bit_xor b = bit_xor-bitwise 0 b

bit_xor_step : (a b : ℕ) → bit_xor a b ≡ bit_xor (a / 2) (b / 2) * 2 + differ (a % 2) (b % 2)
bit_xor_step zero b = omega (arith, zero-bit_xor b, zero-bit_xor (b / 2))
bit_xor_step (suc a) b = omega (
  arith,
  bit_xor-bitwise (suc a) b,
  bit_xor-bitwise (suc a / 2) (b / 2),
  enough_digits (λ b. b) differ (suc a / 2) (b / 2) a (suc a / 2) (omega arith) (omega arith),
)

-- On one digit `^` is again a digit, and undone by a second `^`.
differ_digits : (x y : ℕ) → x < 2 → y < 2 → (differ x y < 2) × (differ (differ x y) y ≡ x)
differ_digits zero zero p q = omega arith
differ_digits zero (suc zero) p q = omega arith
differ_digits (suc zero) zero p q = omega arith
differ_digits (suc zero) (suc zero) p q = omega arith
differ_digits (suc (suc x)) y p q = absurd (omega arith)
differ_digits x (suc (suc y)) p q = absurd (omega arith)

bit_xor-lt : (k x y : ℕ) → x < 2 ^ k → y < 2 ^ k → bit_xor x y < 2 ^ k
bit_xor-lt zero zero zero p q = omega (arith, zero-bit_xor 0)
bit_xor-lt zero zero (suc y) p q = absurd (omega arith)
bit_xor-lt zero (suc x) y p q = absurd (omega arith)
bit_xor-lt (suc k) x y p q = omega (
  arith,
  bit_xor_step x y,
  bit_xor-lt k (x / 2) (y / 2) (omega arith) (omega arith),
  differ_digits (x % 2) (y % 2) (omega arith) (omega arith),
)

bit_xor_undo_fuel : (k x y : ℕ) → x < 2 ^ k → y < 2 ^ k → bit_xor (bit_xor x y) y ≡ x
bit_xor_undo_fuel zero zero zero p q = refl
bit_xor_undo_fuel zero zero (suc y) p q = absurd (omega arith)
bit_xor_undo_fuel zero (suc x) y p q = absurd (omega arith)
bit_xor_undo_fuel (suc k) x y p q =
    let d = differ_digits (x % 2) (y % 2) (omega arith) (omega arith) in
    let s = bit_xor_step x y in
    let half : bit_xor x y / 2 ≡ bit_xor (x / 2) (y / 2) = omega arith in
    let low : bit_xor x y % 2 ≡ differ (x % 2) (y % 2) = omega arith in
    let again = rw (half, low) at (bit_xor_step (bit_xor x y) y) in
    omega (arith, bit_xor_undo_fuel k (x / 2) (y / 2) (omega arith) (omega arith))

crc_bit : ℕ → ℕ
crc_bit c = if c % 2 == 1 then bit_xor (c / 2) 0xedb88320 else c / 2

crc_bits : ℕ → ℕ → ℕ
crc_bits zero c = c
crc_bits (suc n) c = crc_bits n (crc_bit c)

-- One byte.
crc_step : ℕ → ℕ → ℕ
unfolding crc_bits crc_bit
crc_step c b = crc_bits 8 (bit_xor c (b % 256))

crc_fold : ℕ → Bytes → ℕ
crc_fold c [] = c
crc_fold c (b ∷ bs) = crc_fold (crc_step c b) bs

-- crc32.Update(crc, IEEETable, p)
unfoldable pub update : ℕ → Bytes → ℕ
unfolding crc_fold crc_step
update crc p = bit_xor (crc_fold (bit_xor crc 0xffffffff) p) 0xffffffff

-- crc32.ChecksumIEEE
unfoldable pub checksum : Bytes → ℕ
unfolding update
checksum p = update 0 p

crc_bit-lt : (c : ℕ) → c < 2 ^ 32 → crc_bit c < 2 ^ 32
unfolding crc_bit
crc_bit-lt c h = ground (arith, bit_xor-lt 32 (c / 2) 0xedb88320)

crc_bits-lt : (n c : ℕ) → c < 2 ^ 32 → crc_bits n c < 2 ^ 32
unfolding crc_bits
crc_bits-lt zero c h = h
crc_bits-lt (suc n) c h = crc_bits-lt n (crc_bit c) (crc_bit-lt c h)

crc_step-lt : (c b : ℕ) → c < 2 ^ 32 → crc_step c b < 2 ^ 32
crc_step-lt c b h =
    unfold crc_step in
    crc_bits-lt 8 (bit_xor c (b % 256)) (bit_xor-lt 32 c (b % 256) h (omega arith))

crc_fold-lt : (c : ℕ) (bs : Bytes) → c < 2 ^ 32 → crc_fold c bs < 2 ^ 32
unfolding crc_fold
crc_fold-lt c [] h = h
crc_fold-lt c (b ∷ bs) h = crc_fold-lt (crc_step c b) bs (crc_step-lt c b h)

crc_fold-append : (c : ℕ) (a b : Bytes) → crc_fold c (a ++ b) ≡ crc_fold (crc_fold c a) b
unfolding crc_fold
crc_fold-append c [] b = refl
crc_fold-append c (x ∷ a) b = crc_fold-append (crc_step c x) a b

pub update-lt : (c : ℕ) (p : Bytes) → c < 2 ^ 32 → update c p < 2 ^ 32
update-lt c p h =
    unfold update in
    bit_xor-lt 32 _ 0xffffffff (crc_fold-lt _ p (bit_xor-lt 32 c 0xffffffff h (omega arith)))
      (omega arith)

pub checksum-lt : (p : Bytes) → checksum p < 2 ^ 32
unfolding checksum
checksum-lt p = update-lt 0 p (omega arith)

-- The checksum of a whole is had from its parts, one after the other.
pub update-append : (c : ℕ) (a b : Bytes) → c < 2 ^ 32 → update (update c a) b ≡ update c (a ++ b)
update-append c a b h =
    unfold update in
    let inner = crc_fold-lt _ a (bit_xor-lt 32 c 0xffffffff h (omega arith)) in
    rw (
      bit_xor_undo_fuel 32 _ 0xffffffff inner (omega arith),
      crc_fold-append (bit_xor c 0xffffffff) a b,
    )

-- The check value of the polynomial: the digits 1 to 9.
check_value : checksum (49 ∷ 50 ∷ 51 ∷ 52 ∷ 53 ∷ 54 ∷ 55 ∷ 56 ∷ 57 ∷ []) ≡ 0xcbf43926
unfolding checksum
check_value = refl

pub checksum_nil : checksum [] ≡ 0
unfolding checksum update crc_fold
checksum_nil = refl
