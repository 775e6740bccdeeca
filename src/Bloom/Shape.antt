-- ===== src/Bloom/Shape.antt =====
-- The sizes of a filter: those of New, and what Add does to them.
use lsm_tree_go.Common.{
  ℕ, zero, suc, ◌+◌, ◌*◌, ◌/◌, ◌%◌, ◌^◌, ◌≤◌, ◌<◌, ◌≡◌, refl, some, List, [], ◌∷◌, All, get_elem?,
  set, replicate, arith, false, ◌==◌, ltb, if◌then◌else◌, Option-cases, inl, inr,
}
use native.Mathlib.Nat.{div-le_of_le-mul, pow-le-pow_right}
use lsm_tree_go.Common.Bits.{bit_or, bit_or-lt}
use lsm_tree_go.Common.Keys.{Bytes}
use lsm_tree_go.Bloom.{Filter, set_bit, set_probes, add, probe, rounds, new, hash_count, round_bits}
use lsm_tree_go.Bloom.Members.{set_bit-eq-some}
use lsm_tree_go.Bloom.Power.{next_power_of_2_lem}

-- The words are uint64s.
abbrev pub AreWords : List ℕ → Type 0
AreWords bits = All (λ w. w < 2 ^ 64) bits

module _ {ℓ κ} {A : Type ℓ} (P : A → Type κ) where
  All-get_elem? : (l : List A) (i : ℕ) (x : A) → All P l → get_elem? l i ≡ some x → P x
  All-get_elem? [] i x h e = absurd (cc)
  All-get_elem? (y ∷ l) zero x h e = let s : y ≡ x = cc in rw s at h.0
  All-get_elem? (y ∷ l) (suc i) x h e = All-get_elem? l i x h.1 e

  All-set : (l : List A) (i : ℕ) (x : A) → All P l → P x → All P (set l i x)
  All-set [] i x h p = h
  All-set (y ∷ l) zero x h p = (p, h.1)
  All-set (y ∷ l) (suc i) x h p = (h.0, All-set l i x h.1 p)

two_power-lt : (b : ℕ) → 2 ^ (b % 64) < 2 ^ 64
two_power-lt b =
    let at_most : 2 ^ (b % 64) ≤ 2 ^ 63 = pow-le-pow_right (omega arith) {j = 63} (omega arith) in
    omega arith

set_bit-AreWords :
    (bits bits' : List ℕ) (b : ℕ) → set_bit bits b ≡ some bits' → AreWords bits → AreWords bits'
set_bit-AreWords bits bits' b h a =
    let (w, e, e') = set_bit-eq-some bits bits' b h in
    let small = All-get_elem? (λ w. w < 2 ^ 64) bits (b / 64) w a e in
    rw e' (
      All-set (λ w. w < 2 ^ 64) bits (b / 64) (bit_or w (2 ^ (b % 64))) a
        (bit_or-lt 64 w (2 ^ (b % 64)) small (two_power-lt b)))

set_probes-AreWords :
    (p : ℕ → ℕ) (n i : ℕ) (bits bits' : List ℕ)
    → set_probes p n i bits ≡ some bits'
    → AreWords bits
    → AreWords bits'
unfolding set_probes
set_probes-AreWords p zero i bits bits' h a = let e : bits ≡ bits' = cc in rw e at a
set_probes-AreWords p (suc n) i bits bits' h a = elim (Option-cases (set_bit bits (p i))) [
  | inl e ↦ absurd (ground arith)
  | inr (mid, e) ↦
      set_probes-AreWords p n (i + 1) mid bits' (ground arith) (set_bit-AreWords bits mid (p i) e a)
]

-- A filter of `num_bits` bits and `num_hash` rounds.
pub record IsShaped (num_bits num_hash : ℕ) (f : Filter) : Type 0 where
  pub bits : f.num_bits ≡ num_bits
  pub hashes : f.num_hash ≡ num_hash
  pub words : AreWords f.bits

pub add-IsShaped :
    (n h : ℕ) (key : Bytes) (f f' : Filter) → add key f ≡ some f' → IsShaped n h f → IsShaped n h f'
unfolding add
add-IsShaped n h key f f' e s =
    elim (Option-cases (set_probes (probe key f.num_bits) (rounds f.num_hash) 0 f.bits)) [
      | inl q ↦ absurd (ground arith)
      | inr (bits, q) ↦
          let same : record f { bits = bits } ≡ f' = ground arith in
          let words =
            set_probes-AreWords (probe key f.num_bits) (rounds f.num_hash) 0 f.bits bits q
              s.words in
          let shaped : IsShaped n h (record f { bits = bits }) = record {
            bits = s.bits;
            hashes = s.hashes;
            words = words;
          } in
          rw same at shaped
    ]

AreWords-zeros : (n : ℕ) → AreWords (replicate n 0)
AreWords-zeros zero = tt
AreWords-zeros (suc n) = (omega arith, AreWords-zeros n)

round_bits-le : (n : ℕ) → 0 < n → n ≤ 2 ^ 63 → round_bits n ≤ 2 * n + 64
unfolding round_bits
round_bits-le n p h =
    let (k, e, small, above, below) = next_power_of_2_lem n p h in rw e (ground arith)

hash_count-le : (bits keys : ℕ) → 0 < keys → bits ≤ 84 * keys → hash_count bits keys ≤ 85
unfolding hash_count
hash_count-le bits keys p h = div-le_of_le-mul (10 ^ 16 * keys) (omega arith)

-- New for ten bits for each key.
pub new-IsShaped :
    (keys : ℕ)
    → 0 < keys
    → keys * 10 ≤ 2 ^ 63
    → (n : ℕ) × (h : ℕ) × IsShaped n h (new keys 10) × (n ≤ 20 * keys + 64) × (h ≤ 85)
unfolding new
new-IsShaped zero p h = absurd (omega arith)
new-IsShaped (suc keys) p h =
    let some_keys : (suc keys == 0) ≡ false = ground arith in
    let wrap : suc keys * 10 % 2 ^ 64 ≡ suc keys * 10 = omega arith in
    let bits = round_bits-le (suc keys * 10) (omega arith) h in
    let count = hash_count-le (round_bits (suc keys * 10)) (suc keys) (omega arith) (omega arith) in
    let n = round_bits (suc keys * 10) in
    let c = hash_count n (suc keys) in
    (
      n,
      (if ltb c 1 then 1 else c),
      record {
        bits = rw (some_keys, wrap) refl;
        hashes = rw (some_keys, wrap) refl;
        words = AreWords-zeros _;
      },
      omega arith,
      ground arith,
    )
