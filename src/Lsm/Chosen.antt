-- ===== src/Lsm/Chosen.antt =====
-- The tables of level 1 that compactL0ToL1 takes, and those that it leaves.
use mathlib.Core.List.{Perm, perm_middle}
use mathlib.Core.List.Perm
use lsm_tree_go.Common.{
  ◌≡◌, true, false, List, [], ◌∷◌, ◌++◌, All, arith, ◌⊎◌, Bool-cases, inl, inr, if◌then◌else◌,
}
use lsm_tree_go.Common.Keys.{Bytes, key_lt, key_lt_trans, key_cases, key_lt_irrefl}
use lsm_tree_go.SsTable.Reader.{SsTable, min_key, max_key}
use lsm_tree_go.Compaction.Order.{key_not_lt_trans}
use lsm_tree_go.Lsm.Compact.{key_range, is_apart, overlapping, non_overlapping}

-- The table's keys, as the index has them, are from `low` to `high`.
abbrev IsWithin : Bytes → Bytes → SsTable → Type 0
IsWithin low high s = (key_lt (min_key s) low ≡ false) × (key_lt high (max_key s) ≡ false)

-- The range grows, and takes in every table.
record Covers (files : List SsTable) (low high : Bytes) (range : Bytes × Bytes) : Type 0 where
  lower : key_lt low range.0 ≡ false
  upper : key_lt range.1 high ≡ false
  within : All (IsWithin range.0 range.1) files

key_range-Covers :
    (files : List SsTable) (low high : Bytes) → Covers files low high (key_range files low high)
unfolding key_range
key_range-Covers [] low high = record {
  lower = key_lt_irrefl low;
  upper = key_lt_irrefl high;
  within = tt;
}
key_range-Covers (s ∷ files) low high =
    let low' = if key_lt (min_key s) low then min_key s else low in
    let high' = if key_lt high (max_key s) then max_key s else high in
    let range = key_range files low' high' in
    let rest = key_range-Covers files low' high' in
    let lows : (key_lt low low' ≡ false) × (key_lt (min_key s) low' ≡ false) =
      ground
        (arith, key_lt_irrefl low, key_lt_irrefl (min_key s), key_lt_trans low (min_key s) low) in
    let highs : (key_lt high' high ≡ false) × (key_lt high' (max_key s) ≡ false) =
      ground (
        arith,
        key_lt_irrefl high,
        key_lt_irrefl (max_key s),
        key_lt_trans high (max_key s) high,
      ) in
    record {
      lower = key_not_lt_trans range.0 low' low rest.lower lows.0;
      upper = key_not_lt_trans high high' range.1 highs.0 rest.upper;
      within = (
        (
          key_not_lt_trans range.0 low' (min_key s) rest.lower lows.1,
          key_not_lt_trans (max_key s) high' range.1 highs.1 rest.upper,
        ),
        rest.within,
      );
    }

-- No key of the two tables, as their indices have them, can be in both: one ends below the start of the other.
abbrev pub IsApart : SsTable → SsTable → Type 0
IsApart s t = (key_lt (max_key s) (min_key t) ≡ true) ⊎ (key_lt (max_key t) (min_key s) ≡ true)

-- A table apart from a range is apart from every table within it.
is_apart-within :
    (low high : Bytes) (s t : SsTable)
    → IsWithin low high s
    → is_apart low high t ≡ true
    → IsApart s t
unfolding is_apart
is_apart-within low high s t w a = elim (Bool-cases (key_lt (max_key t) low)) [
  | inl below ↦ inr (
      ground
        (arith, w.0, below, key_cases low (min_key s), key_lt_trans (max_key t) low (min_key s)))
  | inr not_below ↦ inl (
      ground (
        arith,
        w.1,
        a,
        not_below,
        key_cases (max_key s) high,
        key_lt_trans (max_key s) high (min_key t),
      ))
]

non_overlapping-within :
    (low high : Bytes) (s : SsTable) (ts : List SsTable)
    → IsWithin low high s
    → All (IsApart s) (non_overlapping low high ts)
unfolding non_overlapping
non_overlapping-within low high s [] w = tt
non_overlapping-within low high s (t ∷ ts) w =
    let rest = non_overlapping-within low high s ts w in
    elim (Bool-cases (is_apart low high t)) [
      | inl apart ↦ rw apart (is_apart-within low high s t w apart, rest)
      | inr meets ↦ rw meets rest
    ]

overlapping-perm :
    (low high : Bytes) (ts : List SsTable)
    → Perm (overlapping low high ts ++ non_overlapping low high ts) ts
unfolding overlapping non_overlapping
overlapping-perm low high [] = Perm.rfl
overlapping-perm low high (t ∷ ts) =
    let rest = overlapping-perm low high ts in
    elim (Bool-cases (is_apart low high t)) [
      | inl apart ↦ rw apart (
          Perm.trans (perm_middle {a = t} (overlapping low high ts) (non_overlapping low high ts))
            (Perm.cons t rest))
      | inr meets ↦ rw meets (Perm.cons t rest)
    ]

All-within :
    (low high : Bytes) (files ts : List SsTable)
    → All (IsWithin low high) files
    → All (λ s. All (IsApart s) (non_overlapping low high ts)) files
All-within low high [] ts w = tt
All-within low high (s ∷ files) ts w =
    (non_overlapping-within low high s ts w.0, All-within low high files ts w.1)

-- compactL0ToL1 takes or leaves every table of level 1. Of a table that it leaves and one of level 0 that it takes, one
-- has a MaxKey below the MinKey of the other.
pub non_overlapping_lem :
    (first : SsTable) (files ts : List SsTable) (low high : Bytes)
    → key_range files (min_key first) (max_key first) ≡ (low, high)
    → Perm (overlapping low high ts ++ non_overlapping low high ts) ts
      × All (λ s. All (IsApart s) (non_overlapping low high ts)) (first ∷ files)
non_overlapping_lem first files ts low high e =
    let c : Covers files (min_key first) (max_key first) (low, high) =
      rw e at (key_range-Covers files (min_key first) (max_key first)) in
    (
      overlapping-perm low high ts,
      All-within low high (first ∷ files) ts ((c.lower, c.upper), c.within),
    )
