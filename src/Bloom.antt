-- ===== src/Bloom.antt =====
-- internal/bloom/bloom.go: the bloom filter. Words are numbers below 2^64; a slice index out of range,
-- which panics in Go, is `none`.
pub mod Members
pub mod Power
pub mod Stored
pub mod Shape
use lsm_tree_go.Common.{
  leb, ℕ, zero, suc, ◌+◌, ◌-◌, ◌*◌, ◌/◌, ◌%◌, ◌^◌, Bool, true, false, not, Option, none, some, List,
  [], ◌∷◌, ◌++◌, length, get_elem?, set, replicate, drop, ◌==◌, ltb, if◌then◌else◌, ◌>>=◌,
}
use lsm_tree_go.Common.Bits.{bit_and, bit_or}
use lsm_tree_go.Common.Keys.{Bytes}
use lsm_tree_go.Common.Varint.{uvarint_bytes, uvarint, little_endian, read_little_endian}
use Prim.Native.Nat.{bit_xor}

pub record Filter : Type 0 where
  pub bits : List ℕ
  pub num_bits : ℕ
  pub num_hash : ℕ

-- `v |= v >> s`
unfoldable pub smear : ℕ → ℕ → ℕ
smear s v = bit_or v (v / 2 ^ s)

-- The six lines between `v--` and `return v + 1`.
unfoldable pub smear_all : ℕ → ℕ
smear_all v = smear 32 (smear 16 (smear 8 (smear 4 (smear 2 (smear 1 v)))))

-- nextPowerOf2
unfoldable pub next_power_of_2 : ℕ → ℕ
next_power_of_2 v = if v == 0 then 1 else (smear_all (v - 1) + 1) % 2 ^ 64

-- `int(math.Ceil(0.6931471805599453 * float64(numBits) / float64(numKeys)))`, with the constant as a
-- fraction; float64 rounding could differ only where the exact quotient is within an ulp of an integer.
unfoldable pub hash_count : ℕ → ℕ → ℕ
hash_count num_bits num_keys =
    (6931471805599453 * num_bits + 10 ^ 16 * num_keys - 1) / (10 ^ 16 * num_keys)

-- `numBits` of `New`: a power of two, 64 at least.
unfoldable pub round_bits : ℕ → ℕ
round_bits n = let power = next_power_of_2 n in if ltb power 64 then 64 else power

-- New. A count that is not positive is 0 here.
unfoldable pub new : ℕ → ℕ → Filter
new keys per_key =
    let bits_per_key = if per_key == 0 then 10 else per_key in
    let num_keys = if keys == 0 then 1 else keys in
    let num_bits = round_bits (num_keys * bits_per_key % 2 ^ 64) in
    let count = hash_count num_bits num_keys in
    record {
      bits = replicate (num_bits / 64) 0;
      num_bits = num_bits;
      num_hash = if ltb count 1 then 1 else count;
    }

-- hash/fnv, New64a: one byte, and all of them.
fnv_step : ℕ → ℕ → ℕ
fnv_step h b = bit_xor h b * 1099511628211 % 2 ^ 64

fnv : ℕ → Bytes → ℕ
unfolding fnv_step
fnv h [] = h
fnv h (b ∷ bs) = fnv (fnv_step h b) bs

unfoldable pub sum64 : Bytes → ℕ
unfolding fnv
sum64 bs = fnv 14695981039346656037 bs

unfoldable pub hash_key : Bytes → ℕ × ℕ
unfolding sum64
hash_key key = (sum64 key, sum64 (b'L' ∷ b'S' ∷ b'M' ∷ key))

-- `delta`, which is never 0.
unfoldable pub delta : Bytes → ℕ
unfolding hash_key
delta key = let h2 = (hash_key key).1 in if h2 == 0 then 1 else h2

-- `(h1 + uint64(i)*delta) & (f.numBits - 1)`
unfoldable pub probe : Bytes → ℕ → ℕ → ℕ
unfolding delta
probe key num_bits i =
    bit_and (((hash_key key).0 + i * delta key) % 2 ^ 64) ((num_bits + 2 ^ 64 - 1) % 2 ^ 64)

-- `f.bits[bit/64] |= 1 << (bit % 64)`
unfoldable pub set_bit : List ℕ → ℕ → Option (List ℕ)
set_bit bits bit =
    get_elem? bits (bit / 64) >>= λ w. some (set bits (bit / 64) (bit_or w (2 ^ (bit % 64))))

-- `f.bits[bit/64]&(1<<(bit%64)) != 0`
unfoldable pub test_bit : List ℕ → ℕ → Option Bool
test_bit bits bit = get_elem? bits (bit / 64) >>= λ w. some (not (bit_and w (2 ^ (bit % 64)) == 0))

-- `i < f.numHash`: `num_hash` has the 64 bits of an int, and a negative one gives no round.
abbrev pub rounds : ℕ → ℕ
rounds num_hash = if leb (2 ^ 63) num_hash then 0 else num_hash

-- The loop of `Add`: `n` rounds from `i` on, where round `i` sets bit `p i`.
unfoldable pub set_probes : (ℕ → ℕ) → ℕ → ℕ → List ℕ → Option (List ℕ)
set_probes p zero i bits = some bits
set_probes p (suc n) i bits = set_bit bits (p i) >>= λ bits'. set_probes p n (i + 1) bits'

unfoldable pub add : Bytes → Filter → Option Filter
add key f = set_probes (probe key f.num_bits) (rounds f.num_hash) 0 f.bits >>= λ bits.
    some (record f { bits = bits })

-- The loop of `MayContain`, which stops at the first bit that is not set.
unfoldable pub test_probes : (ℕ → ℕ) → ℕ → ℕ → List ℕ → Option Bool
test_probes p zero i bits = some true
test_probes p (suc n) i bits =
    let rest = test_probes p n (i + 1) bits in
    test_bit bits (p i) >>= λ hit. if hit then rest else some false

unfoldable pub may_contain : Bytes → Filter → Option Bool
may_contain key f = test_probes (probe key f.num_bits) (rounds f.num_hash) 0 f.bits

-- The words in order, eight bytes each.
unfoldable pub word_bytes : List ℕ → Bytes
word_bytes [] = []
word_bytes (w ∷ ws) = little_endian 8 w ++ word_bytes ws

unfoldable pub serialize : Filter → Bytes
unfolding word_bytes
serialize f = uvarint_bytes f.num_bits ++ (uvarint_bytes f.num_hash ++ word_bytes f.bits)

-- The loop over `bits`: words that the buffer does not hold stay 0.
unfoldable pub read_words : ℕ → Bytes → List ℕ
read_words zero r = []
read_words (suc n) r = elim (read_little_endian 8 r) [
  | none ↦ replicate (suc n) 0
  | some w ↦ w ∷ read_words n (drop 8 r)
]

-- Deserialize. `none` is the nil filter.
unfoldable pub deserialize : Bytes → Option Filter
deserialize r = uvarint r >>= λ p. uvarint p.1 >>= λ q.
    some (record { bits = read_words (p.0 / 64) q.1; num_bits = p.0; num_hash = q.0 })
