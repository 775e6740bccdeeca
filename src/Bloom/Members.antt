-- ===== src/Bloom/Members.antt =====
-- A key that was added is found: no false negatives, and no panic.
use lsm_tree_go.Common.{
  ℕ, zero, suc, ◌+◌, ◌-◌, ◌*◌, ◌/◌, ◌%◌, ◌^◌, ◌<◌, ◌≡◌, ◌≢◌, refl, true, false, not, Option, some,
  List, [], ◌∷◌, length, get_elem?, set, ◌==◌, ◌>>=◌, arith, Option-cases, Bool-cases, inl, inr,
  get_elem?-set_self, get_elem?-set_ne, get_elem?-some, length-set, lt-length_of_get_elem?,
}
use native.Mathlib.Nat.{one-le-pow}
use native.Mathlib.Decide.{ℕ_discrete}
use lsm_tree_go.Common.{if◌then◌else◌}
use mathlib.Core.Bool.{Bool}
use lsm_tree_go.Common.Bits.{
  bit_and, bit_or, bit_and-le, bit_and_self, bit_and-bit_or_left, bit_and-bit_or_right,
}
use lsm_tree_go.Common.Keys.{Bytes, key_eq, key_eq→eq}
use lsm_tree_go.Common.Map.{has_key}
use lsm_tree_go.Bloom.{
  rounds, Filter, hash_key, delta, probe, set_bit, test_bit, set_probes, add, test_probes,
  may_contain,
}

pub pow_pos : (k : ℕ) → 0 < 2 ^ k
pow_pos k = one-le-pow k 2 (omega arith)

pub set_bit-eq-some :
    (bits bits' : List ℕ) (b : ℕ)
    → set_bit bits b ≡ some bits'
    → (w : ℕ) × (get_elem? bits (b / 64) ≡ some w)
      × (bits' ≡ set bits (b / 64) (bit_or w (2 ^ (b % 64))))
unfolding set_bit
set_bit-eq-some bits bits' b h = elim (Option-cases (get_elem? bits (b / 64))) [
  | inl e ↦ absurd (ground arith)
  | inr (w, e) ↦ (w, e, ground arith)
]

-- A mask that shows something goes on showing it when more bits come in.
nonzero_left : (w v m : ℕ) → bit_and w m ≢ 0 → bit_and (bit_or w v) m ≢ 0
nonzero_left w v m h e = h (omega (arith, bit_and-bit_or_left w v m))

nonzero_self : (w k : ℕ) → bit_and (bit_or w (2 ^ k)) (2 ^ k) ≢ 0
nonzero_self w k e =
    absurd (omega (arith, bit_and-bit_or_right w (2 ^ k) (2 ^ k), bit_and_self (2 ^ k), pow_pos k))

set_bit_self :
    (bits bits' : List ℕ) (b : ℕ) → set_bit bits b ≡ some bits' → test_bit bits' b ≡ some true
unfolding test_bit
set_bit_self bits bits' b h =
    let (w, e, e') = set_bit-eq-some bits bits' b h in
    ground (
      arith,
      nonzero_self w (b % 64),
      lt-length_of_get_elem? bits (b / 64) w e,
      get_elem?-set_self bits (b / 64) (bit_or w (2 ^ (b % 64))),
    )

-- Every bit of the first stays set in the second.
abbrev pub Keeps : List ℕ → List ℕ → Type 0
Keeps bits bits' = (c : ℕ) → test_bit bits c ≡ some true → test_bit bits' c ≡ some true

test_same_word :
    (w v m : ℕ) → not (bit_and w m == 0) ≡ true → not (bit_and (bit_or w v) m == 0) ≡ true
test_same_word w v m h = ground (arith, nonzero_left w v m)

set_bit-Keeps : (bits bits' : List ℕ) (b : ℕ) → set_bit bits b ≡ some bits' → Keeps bits bits'
unfolding test_bit
set_bit-Keeps bits bits' b h c t =
    let (w, e, e') = set_bit-eq-some bits bits' b h in
    elim (ℕ_discrete (b / 64) (c / 64)) [
      | yes same ↦ ground (
        arith,
        test_same_word w (2 ^ (b % 64)) (2 ^ (c % 64)),
        lt-length_of_get_elem? bits (b / 64) w e,
        get_elem?-set_self bits (b / 64) (bit_or w (2 ^ (b % 64))),
      )
      | no other ↦
          ground (arith, get_elem?-set_ne bits (b / 64) (c / 64) (bit_or w (2 ^ (b % 64))) other)
    ]

set_probes_lem :
    (p : ℕ → ℕ) (n i : ℕ) (bits bits' : List ℕ)
    → set_probes p n i bits ≡ some bits'
    → Keeps bits bits' × (test_probes p n i bits' ≡ some true)
unfolding set_probes test_probes
set_probes_lem p zero i bits bits' h = (λ c t. ground arith, refl)
set_probes_lem p (suc n) i bits bits' h = elim (Option-cases (set_bit bits (p i))) [
  | inl e ↦ absurd (ground arith)
  | inr (mid, e) ↦
      let (later, found) = set_probes_lem p n (i + 1) mid bits' (ground arith) in
      (
        λ c t. later c (set_bit-Keeps bits mid (p i) e c t),
        rw (later (p i) (set_bit_self bits mid (p i) e)) found,
      )
]

test_probes-Keeps :
    (p : ℕ → ℕ) (n i : ℕ) (bits bits' : List ℕ)
    → Keeps bits bits'
    → test_probes p n i bits ≡ some true
    → test_probes p n i bits' ≡ some true
unfolding test_probes
test_probes-Keeps p zero i bits bits' k h = refl
test_probes-Keeps p (suc n) i bits bits' k h = elim (Option-cases (test_bit bits (p i))) [
  | inl e ↦ absurd (ground arith)
  | inr (false, e) ↦ absurd (ground arith)
  | inr (true, e) ↦ rw (k (p i) e) (test_probes-Keeps p n (i + 1) bits bits' k (ground arith))
]

-- What `New` and `Deserialize` of a stored filter give: a word for every 64 bits.
pub record IsValid (f : Filter) : Type 0 where
  pub words : 64 * length f.bits ≡ f.num_bits
  pub nonempty : 0 < f.num_bits
  pub small : f.num_bits < 2 ^ 64

probe-lt :
    (key : Bytes) (num_bits i : ℕ)
    → 0 < num_bits
    → num_bits < 2 ^ 64
    → probe key num_bits i < num_bits
unfolding probe
probe-lt key num_bits i h k = omega (
  arith,
  bit_and-le (((hash_key key).0 + i * delta key) % 2 ^ 64) ((num_bits + 2 ^ 64 - 1) % 2 ^ 64),
)

set_bit-some :
    (bits : List ℕ) (b : ℕ)
    → b < 64 * length bits
    → (bits' : List ℕ) × (set_bit bits b ≡ some bits') × (length bits' ≡ length bits)
unfolding set_bit
set_bit-some bits b h =
    let (w, e) = get_elem?-some bits (b / 64) (omega arith) in
    (
      set bits (b / 64) (bit_or w (2 ^ (b % 64))),
      rw e,
      length-set bits (b / 64) (bit_or w (2 ^ (b % 64))),
    )

set_probes-some :
    (p : ℕ → ℕ) (n i : ℕ) (bits : List ℕ)
    → ((k : ℕ) → p k < 64 * length bits)
    → (bits' : List ℕ) × (set_probes p n i bits ≡ some bits') × (length bits' ≡ length bits)
unfolding set_probes
set_probes-some p zero i bits h = (bits, refl, refl)
set_probes-some p (suc n) i bits h =
    let (mid, e, l) = set_bit-some bits (p i) (h i) in
    let (bits', e', l') = set_probes-some p n (i + 1) mid (λ k. rw l (h k)) in
    (bits', rw e e', omega arith)

-- `Add` on a valid filter does not panic and keeps it valid; the key is found afterwards, and so is
-- every key that was found before.
pub add_lem :
    (key : Bytes) (f : Filter)
    → IsValid f
    → (f' : Filter) × (add key f ≡ some f')
      × IsValid f'
      × (may_contain key f' ≡ some true)
      × ((j : Bytes) → may_contain j f ≡ some true → may_contain j f' ≡ some true)
unfolding add may_contain
add_lem key f v =
    let (bits', e, l) =
      set_probes-some (probe key f.num_bits) (rounds f.num_hash) 0 f.bits
        (λ k. rw v.words (probe-lt key f.num_bits k v.nonempty v.small)) in
    let (keeps, found) =
      set_probes_lem (probe key f.num_bits) (rounds f.num_hash) 0 f.bits bits' e in
    (
      record f { bits = bits' },
      rw e,
      record { words = rw l v.words; nonempty = v.nonempty; small = v.small },
      found,
      λ j h. test_probes-Keeps (probe j f.num_bits) (rounds f.num_hash) 0 f.bits bits' keeps h,
    )

test_bit-some :
    (bits : List ℕ) (b : ℕ) → b < 64 * length bits → (r : Bool) × (test_bit bits b ≡ some r)
unfolding test_bit
test_bit-some bits b h =
    let (w, e) = get_elem?-some bits (b / 64) (omega arith) in
    (not (bit_and w (2 ^ (b % 64)) == 0), rw e)

test_probes-some :
    (p : ℕ → ℕ) (n i : ℕ) (bits : List ℕ)
    → ((k : ℕ) → p k < 64 * length bits)
    → (r : Bool) × (test_probes p n i bits ≡ some r)
unfolding test_probes
test_probes-some p zero i bits h = (true, refl)
test_probes-some p (suc n) i bits h =
    let (b, e) = test_bit-some bits (p i) (h i) in
    let (r, e') = test_probes-some p n (i + 1) bits h in (if b then r else false, ground arith)

-- `MayContain` on a valid filter does not panic.
pub may_contain-some :
    (key : Bytes) (f : Filter) → IsValid f → (r : Bool) × (may_contain key f ≡ some r)
unfolding may_contain
may_contain-some key f v =
    test_probes-some (probe key f.num_bits) (rounds f.num_hash) 0 f.bits
      (λ k. rw v.words (probe-lt key f.num_bits k v.nonempty v.small))

-- Adding keys one after the other, as the table writer does.
unfoldable pub add_all : List Bytes → Filter → Option Filter
add_all [] f = some f
add_all (k ∷ ks) f = add k f >>= λ f'. add_all ks f'

-- After any additions to a valid filter, none of which panics, no key that was added, or that was
-- found before, is answered `false`.
pub no_false_negatives :
    (ks : List Bytes) (f : Filter)
    → IsValid f
    → (f' : Filter) × (add_all ks f ≡ some f')
      × IsValid f'
      × ((j : Bytes) → has_key j ks ≡ true → may_contain j f' ≡ some true)
      × ((j : Bytes) → may_contain j f ≡ some true → may_contain j f' ≡ some true)
unfolding add_all has_key
no_false_negatives [] f v = (f, refl, v, λ j h. cc, λ j h. h)
no_false_negatives (k ∷ ks) f v =
    let (g, e, vg, found, kept) = add_lem k f v in
    let (f', e', v', all, still) = no_false_negatives ks g vg in
    (
      f',
      rw e e',
      v',
      λ j h. elim (Bool-cases (key_eq k j)) [
        | inl same ↦ rw (← key_eq→eq k j same) (still k found)
        | inr other ↦ all j (rw other at h)
      ],
      λ j h. still j (kept j h),
    )
