-- ===== src/Common/Bits.antt =====
-- `&` and `|` on words, at variables: laws of the digits, and what the bloom filter needs of them.
use Prim.Native.Nat.{
  ℕ, zero, suc, ◌+◌, ◌*◌, ◌/◌, ◌%◌, ◌^◌, ◌≤◌, ◌<◌, min, max, digits, bit_and-bitwise,
  bit_or-bitwise,
}
use mathlib.Core.Path.{◌≡◌, refl}
use native.Mathlib.Omega.{arith}
pub use Prim.Native.Nat.{bit_and, bit_or}

-- Two amounts of fuel that both cover the number give the same digits.
pub enough_digits :
    (at_zero : ℕ → ℕ) (op : ℕ → ℕ → ℕ) (x y k l : ℕ)
    → x ≤ k
    → x ≤ l
    → digits at_zero op k x y ≡ digits at_zero op l x y
enough_digits at_zero op zero y zero zero hk hl = refl
enough_digits at_zero op zero y zero (suc l) hk hl = refl
enough_digits at_zero op zero y (suc k) zero hk hl = refl
enough_digits at_zero op zero y (suc k) (suc l) hk hl = refl
enough_digits at_zero op (suc x) y zero l hk hl = absurd (omega arith)
enough_digits at_zero op (suc x) y (suc k) zero hk hl = absurd (omega arith)
enough_digits at_zero op (suc x) y (suc k) (suc l) hk hl =
    let halves = enough_digits at_zero op (suc x / 2) (y / 2) k l (omega arith) (omega arith) in
    omega arith

pub zero-bit_and : (y : ℕ) → bit_and 0 y ≡ 0
zero-bit_and y = bit_and-bitwise 0 y

pub zero-bit_or : (y : ℕ) → bit_or 0 y ≡ y
zero-bit_or y = bit_or-bitwise 0 y

-- The lowest digit and the rest.
pub bit_and_halves : (x y : ℕ) → bit_and x y ≡ min (x % 2) (y % 2) + 2 * bit_and (x / 2) (y / 2)
bit_and_halves zero y = let p = zero-bit_and y in let q = zero-bit_and (y / 2) in omega arith
bit_and_halves (suc x) y =
    let whole = bit_and-bitwise (suc x) y in
    let half = bit_and-bitwise (suc x / 2) (y / 2) in
    let same =
      enough_digits (λ d. zero) min (suc x / 2) (y / 2) x (suc x / 2) (omega arith) (omega arith) in
    omega arith

pub bit_or_halves : (x y : ℕ) → bit_or x y ≡ max (x % 2) (y % 2) + 2 * bit_or (x / 2) (y / 2)
bit_or_halves zero y = let p = zero-bit_or y in let q = zero-bit_or (y / 2) in omega arith
bit_or_halves (suc x) y =
    let whole = bit_or-bitwise (suc x) y in
    let half = bit_or-bitwise (suc x / 2) (y / 2) in
    let same =
      enough_digits (λ d. d) max (suc x / 2) (y / 2) x (suc x / 2) (omega arith) (omega arith) in
    omega arith

bit_and-le_fuel : (n a b : ℕ) → a ≤ n → bit_and a b ≤ b
bit_and-le_fuel n zero b h = omega (arith, zero-bit_and b)
bit_and-le_fuel zero (suc a) b h = absurd (omega arith)
bit_and-le_fuel (suc n) (suc a) b h =
    omega (arith, bit_and_halves (suc a) b, bit_and-le_fuel n (suc a / 2) (b / 2) (omega arith))

-- A masked number is at most the mask.
pub bit_and-le : (a b : ℕ) → bit_and a b ≤ b
bit_and-le a b = bit_and-le_fuel a a b (omega arith)

bit_and_self_fuel : (n a : ℕ) → a ≤ n → bit_and a a ≡ a
bit_and_self_fuel n zero h = zero-bit_and 0
bit_and_self_fuel zero (suc a) h = absurd (omega arith)
bit_and_self_fuel (suc n) (suc a) h =
    omega (arith, bit_and_halves (suc a) (suc a), bit_and_self_fuel n (suc a / 2) (omega arith))

pub bit_and_self : (a : ℕ) → bit_and a a ≡ a
bit_and_self a = bit_and_self_fuel a a (omega arith)

or_keeps_fuel :
    (n x y m : ℕ)
    → x ≤ n
    → y ≤ n
    → (bit_and x m ≤ bit_and (bit_or x y) m) × (bit_and y m ≤ bit_and (bit_or x y) m)
or_keeps_fuel zero zero zero m p q = omega (arith, zero-bit_and m)
or_keeps_fuel zero zero (suc y) m p q = absurd (omega arith)
or_keeps_fuel zero (suc x) y m p q = absurd (omega arith)
or_keeps_fuel (suc n) x y m p q =
    let h = or_keeps_fuel n (x / 2) (y / 2) (m / 2) (omega arith) (omega arith) in
    let o = bit_or_halves x y in
    let half : bit_or x y / 2 ≡ bit_or (x / 2) (y / 2) = omega arith in
    let low : bit_or x y % 2 ≡ max (x % 2) (y % 2) = omega arith in
    let s = bit_and_halves (bit_or x y) m in
    let s' = rw half at s in omega (arith, bit_and_halves x m, bit_and_halves y m)

-- Or-ing more bits in loses none that a mask shows.
pub bit_and-bit_or_left : (x y m : ℕ) → bit_and x m ≤ bit_and (bit_or x y) m
bit_and-bit_or_left x y m = (or_keeps_fuel (x + y) x y m (omega arith) (omega arith)).0

pub bit_and-bit_or_right : (x y m : ℕ) → bit_and y m ≤ bit_and (bit_or x y) m
bit_and-bit_or_right x y m = (or_keeps_fuel (x + y) x y m (omega arith) (omega arith)).1

pub bit_or-lt : (k x y : ℕ) → x < 2 ^ k → y < 2 ^ k → bit_or x y < 2 ^ k
bit_or-lt zero zero zero p q = omega (arith, zero-bit_or 0)
bit_or-lt zero zero (suc y) p q = absurd (omega arith)
bit_or-lt zero (suc x) y p q = absurd (omega arith)
bit_or-lt (suc k) x y p q =
    omega (arith, bit_or_halves x y, bit_or-lt k (x / 2) (y / 2) (omega arith) (omega arith))
