-- ===== src/Bloom/Power.antt =====
-- `nextPowerOf2`, and that `New` makes a valid filter.
use lsm_tree_go.Common.{
  ℕ, zero, suc, ◌+◌, ◌-◌, ◌*◌, ◌/◌, ◌%◌, ◌^◌, ◌≤◌, ◌<◌, ◌≡◌, refl, sym, ap, ◌∙◌, subst, arith,
  length-replicate,
}
use native.Mathlib.Decide.{dec_lt, dec_le}
use native.Mathlib.Nat.{pow-suc, zero-add, suc-add}
use lsm_tree_go.Common.Bits.{bit_or, bit_or_halves, bit_or-lt}
use lsm_tree_go.Bloom.{smear, smear_all, next_power_of_2, round_bits, new}
use lsm_tree_go.Bloom.Members.{IsValid, pow_pos}

pow-add : (m n : ℕ) → 2 ^ (m + n) ≡ 2 ^ m * 2 ^ n
pow-add zero n = rw (zero-add n) (omega arith)
pow-add (suc m) n = rw (suc-add m n) (
    omega
      (arith, pow-add m n, pow-suc 2 m, ap (λ (t : ℕ). t * 2 ^ n) (pow-suc 2 m), pow-suc 2 (m + n)))

or_ge : (n x y : ℕ) → x ≤ n → x ≤ bit_or x y
or_ge n zero y p = omega arith
or_ge zero (suc x) y p = absurd (omega arith)
or_ge (suc n) (suc x) y p =
    omega (arith, bit_or_halves (suc x) y, or_ge n (suc x / 2) (y / 2) (omega arith))

-- Or-ing a low part into a number keeps the high part and adds at least the low part.
or_high_low : (m a r s : ℕ) → r < 2 ^ m → s < 2 ^ m → a * 2 ^ m + s ≤ bit_or (a * 2 ^ m + r) s
or_high_low zero a zero zero p q = omega (arith, or_ge (a * 1 + 0) (a * 1 + 0) 0 (omega arith))
or_high_low zero a zero (suc s) p q = absurd (omega arith)
or_high_low zero a (suc r) s p q = absurd (omega arith)
or_high_low (suc m) a r s p q =
    let wide : a * 2 ^ suc m ≡ 2 * (a * 2 ^ m) =
      omega (arith, ap (λ (t : ℕ). a * t) (pow-suc 2 m)) in
    let half : (a * 2 ^ suc m + r) / 2 ≡ a * 2 ^ m + r / 2 = omega arith in
    let st = rw half at (bit_or_halves (a * 2 ^ suc m + r) s) in
    omega (arith, or_high_low m a (r / 2) (s / 2) (omega arith) (omega arith))

-- The top `j` of the `k` binary digits of `v` are ones.
abbrev IsTop : ℕ → ℕ → ℕ → Type 0
IsTop k j v = (v < 2 ^ k) × (2 ^ k ≤ v + 2 ^ (k - j))

pow_eq : (a b : ℕ) → a ≡ b → 2 ^ a ≡ 2 ^ b
pow_eq a b e = ap (λ (t : ℕ). 2 ^ t) e

sub_mul_le : (M E q v : ℕ) → E ≤ M → M * q ≤ v + E * q → (M - E) * q ≤ v
sub_mul_le M E q v le h =
    let parts : M ≡ M - E + E = omega arith in
    let times : M * q ≡ (M - E + E) * q = ap (λ (t : ℕ). t * q) parts in omega arith

-- One line of the function doubles the ones at the top. `q` is `2 ^ j`.
module _ (j q v : ℕ) (e : 2 ^ j ≡ q) (pos : 0 < q) where
  div_low : (m : ℕ) → v < 2 ^ m * q → v / q < 2 ^ m
  div_low m h = grind arith

  div_high : (c : ℕ) → c * q ≤ v → c ≤ v / q
  div_high c h = grind arith

  -- The shifted number fills the next `j` digits.
  shifted : (m : ℕ) → 2 ^ m * q ≤ v + 2 ^ m → 2 ^ m ≤ v / q + 2 ^ (m - j)
  shifted m h = elim (dec_le j m) [
    | yes fits ↦
        let split : 2 ^ m ≡ 2 ^ (m - j) * q =
          rw (← e) (pow_eq m (m - j + j) (omega arith) ∙ pow-add (m - j) j) in
        let less : 2 ^ (m - j) ≤ 2 ^ m = grind arith in
        let c =
          div_high (2 ^ m - 2 ^ (m - j))
            (sub_mul_le (2 ^ m) (2 ^ (m - j)) q v less (omega arith)) in
        omega arith
    | no short ↦
        let one : 2 ^ (m - j) ≡ 1 = pow_eq (m - j) 0 (omega arith) in
        let wide : q ≡ 2 ^ (j - m) * 2 ^ m =
          sym e ∙ pow_eq j (j - m + m) (omega arith) ∙ pow-add (j - m) m in
        let some_digit = pow_pos (j - m) in
        let le : 2 ^ m ≤ q = grind arith in
        let c =
          div_high (2 ^ m - 1)
            (sub_mul_le (2 ^ m) 1 q v (omega (arith, pow_pos m)) (omega arith)) in
        omega arith
  ]

  smear-IsTop : (m : ℕ) → IsTop (m + j) j v → IsTop (m + j) (j + j) (smear j v)
  unfolding smear
  smear-IsTop m (small, top) =
      let whole : 2 ^ (m + j) ≡ 2 ^ m * q = pow-add m j ∙ ap (λ (t : ℕ). 2 ^ m * t) e in
      let digits_left : 2 ^ (m + j - j) ≡ 2 ^ m = pow_eq (m + j - j) m (omega arith) in
      let less : 2 ^ (m + j - (j + j)) ≡ 2 ^ (m - j) =
        pow_eq (m + j - (j + j)) (m - j) (omega arith) in
      let s = shifted m (omega arith) in
      let s_small = div_low m (omega arith) in
      let high : (q - 1) * 2 ^ m + 2 ^ m ≡ 2 ^ m * q =
        let split_q : q ≡ q - 1 + 1 = omega arith in
        let times : q * 2 ^ m ≡ (q - 1 + 1) * 2 ^ m = ap (λ (t : ℕ). t * 2 ^ m) split_q in
        omega arith in
      let split : v ≡ (q - 1) * 2 ^ m + (v - (q - 1) * 2 ^ m) = omega arith in
      let joined = or_high_low m (q - 1) (v - (q - 1) * 2 ^ m) (v / q) (omega arith) s_small in
      rw e (
        bit_or-lt (m + j) v (v / q) small (grind arith),
        (let joined' = rw (← split) at joined in omega arith),
      )

  smear-IsTop_any : (k : ℕ) → IsTop k j v → IsTop k (j + j) (smear j v)
  unfolding smear
  smear-IsTop_any k (small, top) = elim (dec_le j k) [
    | yes fits ↦
        let sum : k ≡ k - j + j = omega arith in
        subst (λ (t : ℕ). IsTop t (j + j) (smear j v)) (sym sum)
          (smear-IsTop (k - j) (subst (λ (t : ℕ). IsTop t j v) sum (small, top)))
    | no short ↦
        let none_left = pow_eq (k - j) 0 (omega arith) in
        let none_left' = pow_eq (k - (j + j)) 0 (omega arith) in
        rw e (
          bit_or-lt k v (v / q) small (let le : v / q ≤ v = grind arith in omega arith),
          (let ge = or_ge v v (v / q) (omega arith) in omega arith),
        )
  ]

-- The six lines of the function leave nothing but ones.
smear_all-IsTop : (k v : ℕ) → k ≤ 64 → IsTop k 1 v → smear_all v + 1 ≡ 2 ^ k
unfolding smear_all
smear_all-IsTop k v h top =
    let a = smear-IsTop_any 1 2 v refl (omega arith) k top in
    let b = smear-IsTop_any 2 4 (smear 1 v) refl (omega arith) k a in
    let c = smear-IsTop_any 4 16 (smear 2 (smear 1 v)) refl (omega arith) k b in
    let d = smear-IsTop_any 8 256 (smear 4 (smear 2 (smear 1 v))) refl (omega arith) k c in
    let f =
      smear-IsTop_any 16 65536 (smear 8 (smear 4 (smear 2 (smear 1 v)))) refl (omega arith) k d in
    let g =
      smear-IsTop_any 32 4294967296 (smear 16 (smear 8 (smear 4 (smear 2 (smear 1 v))))) refl
        (omega arith) k f in
    let none_left = pow_eq (k - 64) 0 (omega arith) in omega arith

-- Every positive number has a top digit.
digits_of : (n v : ℕ) → v ≤ n → 0 < v → (k : ℕ) × (v < 2 ^ suc k) × (2 ^ k ≤ v)
digits_of zero v h p = absurd (omega arith)
digits_of (suc n) v h p = elim (dec_lt 1 v) [
  | no one ↦ (0, omega arith, omega arith)
  | yes more ↦
      let (k, below, above) = digits_of n (v / 2) (omega arith) (omega arith) in
      (suc k, omega (arith, pow-suc 2 (suc k)), omega (arith, pow-suc 2 k))
]

exponent-lt : (k n : ℕ) → 2 ^ k < 2 ^ n → k < n
exponent-lt k n h = elim (dec_lt k n) [
  | yes p ↦ p
  | no p ↦
      let split = pow_eq k (k - n + n) (omega arith) ∙ pow-add (k - n) n in
      let some_digit = pow_pos (k - n) in absurd (grind arith)
]

-- From 1 to 2^63 `nextPowerOf2` gives a power of two that is at least its argument and less than twice it.
pub next_power_of_2_lem :
    (v : ℕ)
    → 0 < v
    → v ≤ 2 ^ 63
    → (k : ℕ) × (next_power_of_2 v ≡ 2 ^ k) × (k ≤ 63) × (v ≤ 2 ^ k) × (2 ^ k < 2 * v)
unfolding next_power_of_2
next_power_of_2_lem zero p h = absurd (omega arith)
next_power_of_2_lem (suc zero) p h =
    (0, unfold smear_all smear in refl, omega arith, omega arith, omega arith)
next_power_of_2_lem (suc (suc w)) p h =
    let (k, below, above) = digits_of (suc w) (suc w) (omega arith) (omega arith) in
    let last = pow_eq (suc k - 1) k (omega arith) in
    let twice = pow-suc 2 k in
    let small = exponent-lt k 63 (omega arith) in
    let power = smear_all-IsTop (suc k) (suc w) (omega arith) (omega arith) in
    let pred : suc (suc w) - 1 ≡ suc w = omega arith in
    (suc k, rw (pred, power) (ground arith), omega arith, omega arith, omega arith)

pub round_bits_lem :
    (n : ℕ)
    → 0 < n
    → n ≤ 2 ^ 63
    → (64 * (round_bits n / 64) ≡ round_bits n) × (0 < round_bits n) × (round_bits n < 2 ^ 64)
unfolding round_bits
round_bits_lem n p h =
    let (k, e, small, _, below) = next_power_of_2_lem n p h in
    elim (dec_lt k 6) [
      | yes few ↦
          let split = pow_eq 6 (6 - k + k) (omega arith) ∙ pow-add (6 - k) k in
          let more : 2 ≤ 2 ^ (6 - k) = omega (
            arith,
            pow_eq (6 - k) (suc (6 - k - 1)) (omega arith),
            pow-suc 2 (6 - k - 1),
            pow_pos (6 - k - 1),
          ) in
          let lt : 2 ^ k < 64 = grind (arith, pow_pos k) in rw e (ground arith)
      | no many ↦
          let split : 2 ^ k ≡ 2 ^ (k - 6) * 64 =
            pow_eq k (k - 6 + 6) (omega arith) ∙ pow-add (k - 6) 6 in
          let some_words = pow_pos (k - 6) in
          let ge : 64 ≤ 2 ^ k = omega arith in
          let multiple : 64 * (2 ^ k / 64) ≡ 2 ^ k = omega arith in
          let fits : 2 ^ k < 2 ^ 64 = omega arith in rw e (ground arith)
    ]

-- `New` makes a valid filter, one word for every 64 bits, as long as the bits asked for fit an int.
pub new-IsValid :
    (keys per_key : ℕ)
    → 0 < keys
    → 0 < per_key
    → keys * per_key ≤ 2 ^ 63
    → IsValid (new keys per_key)
unfolding new
new-IsValid zero per_key p q h = absurd (omega arith)
new-IsValid (suc keys) zero p q h = absurd (omega arith)
new-IsValid (suc keys) (suc per_key) p q h =
    let wrap : suc keys * suc per_key % 2 ^ 64 ≡ suc keys * suc per_key = omega arith in
    let (words, pos, small) = round_bits_lem (suc keys * suc per_key) (grind arith) h in
    let count = length-replicate {A = ℕ} (round_bits (suc keys * suc per_key) / 64) 0 in
    record { words = ground arith; nonempty = ground arith; small = ground arith }
