-- ===== src/Compaction/Order.antt =====
-- The order that Less of mergeHeap makes: by key, and the newer entry of one key first.
use lsm_tree_go.Common.{◌≡◌, refl, true, false, List, [], ◌∷◌, All, arith}
use lsm_tree_go.Common.Int.{ℤ, pos, negsuc, ltb_ℤ}
use lsm_tree_go.Common.Keys.{
  Bytes, key_lt, key_eq→eq, key_eq_refl, key_lt_irrefl, key_lt_trans, key_cases,
}
use lsm_tree_go.MemTable.{Entry}
use lsm_tree_go.Compaction.{entry_less, less}
use lsm_tree_go.Compaction.Heap.Order.{IsOrder}

pub ltb_ℤ_irrefl : (a : ℤ) → ltb_ℤ a a ≡ false
ltb_ℤ_irrefl (pos n) = ground arith
ltb_ℤ_irrefl (negsuc n) = ground arith

ltb_ℤ_asym : (a b : ℤ) → ltb_ℤ a b ≡ true → ltb_ℤ b a ≡ false
ltb_ℤ_asym (pos a) (pos b) h = ground arith
ltb_ℤ_asym (pos a) (negsuc b) h = cc
ltb_ℤ_asym (negsuc a) (pos b) h = refl
ltb_ℤ_asym (negsuc a) (negsuc b) h = ground arith

ltb_ℤ_trans : (a b c : ℤ) → ltb_ℤ a b ≡ false → ltb_ℤ b c ≡ false → ltb_ℤ a c ≡ false
ltb_ℤ_trans (pos a) (pos b) (pos c) h k = ground arith
ltb_ℤ_trans (pos a) b (negsuc c) h k = refl
ltb_ℤ_trans (pos a) (negsuc b) (pos c) h k = cc
ltb_ℤ_trans (negsuc a) (pos b) c h k = cc
ltb_ℤ_trans (negsuc a) (negsuc b) (pos c) h k = cc
ltb_ℤ_trans (negsuc a) (negsuc b) (negsuc c) h k = ground arith

key_lt_asym : (a b : Bytes) → key_lt a b ≡ true → key_lt b a ≡ false
key_lt_asym a b h = ground (arith, key_lt_trans a b a, key_lt_irrefl a)

pub key_not_lt_trans :
    (a b c : Bytes) → key_lt b a ≡ false → key_lt c b ≡ false → key_lt c a ≡ false
key_not_lt_trans a b c h k = ground (
  arith,
  key_cases a b,
  key_cases b c,
  key_lt_trans a b c,
  key_lt_asym a b,
  key_lt_asym b c,
  key_lt_asym a c,
)

entry_less_irrefl : (a : Entry) → entry_less a a ≡ false
unfolding entry_less
entry_less_irrefl a = ground (arith, key_eq_refl a.key, ltb_ℤ_irrefl a.timestamp)

entry_less_asym : (a b : Entry) → entry_less a b ≡ true → entry_less b a ≡ false
unfolding entry_less
entry_less_asym a b h = ground (
  arith,
  key_eq→eq a.key b.key,
  key_eq→eq b.key a.key,
  key_eq_refl a.key,
  key_lt_asym a.key b.key,
  ltb_ℤ_asym b.timestamp a.timestamp,
)

pub entry_less_trans :
    (a b c : Entry) → entry_less b a ≡ false → entry_less c b ≡ false → entry_less c a ≡ false
unfolding entry_less
entry_less_trans a b c h k = ground (
  arith,
  key_eq→eq b.key a.key,
  key_eq→eq c.key b.key,
  key_eq→eq c.key a.key,
  key_eq_refl a.key,
  key_cases a.key b.key,
  key_cases b.key c.key,
  key_lt_trans a.key b.key c.key,
  key_lt_asym a.key b.key,
  key_lt_asym b.key c.key,
  key_lt_asym a.key c.key,
  ltb_ℤ_trans a.timestamp b.timestamp c.timestamp,
)

pub less-IsOrder : IsOrder less
less-IsOrder = record {
  irrefl = λ a. entry_less_irrefl a.entry;
  asym = λ a b. entry_less_asym a.entry b.entry;
  not_less_trans = λ a b c. entry_less_trans a.entry b.entry c.entry;
}

-- No entry of the list comes before `e`.
abbrev pub IsFirst : Entry → List Entry → Type 0
IsFirst e es = All (λ y. entry_less y e ≡ false) es

-- Every entry comes before those behind it.
abbrev pub InOrder : List Entry → Type 0
InOrder [] = Unit
InOrder (e ∷ es) = IsFirst e es × InOrder es

pub IsFirst-trans :
    (a b : Entry) (es : List Entry) → entry_less b a ≡ false → IsFirst b es → IsFirst a es
IsFirst-trans a b [] h p = tt
IsFirst-trans a b (e ∷ es) h p = (entry_less_trans a b e h p.0, IsFirst-trans a b es h p.1)
