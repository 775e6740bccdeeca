-- ===== src/SparseIndex.antt =====
-- internal/sparseindex/sparseindex.go: every `step`-th key of a table with its offset.
pub mod Floor
pub mod Search
use lsm_tree_go.Common.{
  ℕ, zero, suc, ◌+◌, ◌-◌, ◌/◌, ◌%◌, Bool, true, false, ◌&&◌, not, Option, none, some, List, [], ◌∷◌,
  ◌++◌, length, get_elem?, ◌==◌, ltb, leb, if◌then◌else◌,
}
use lsm_tree_go.Common.Keys.{Bytes, key_lt, key_eq}

-- Entry
pub record IndexEntry : Type 0 where
  pub key : Bytes
  pub offset : ℕ

pub record SparseIndex : Type 0 where
  pub entries : List IndexEntry
  pub step : ℕ

-- New
unfoldable pub new : ℕ → SparseIndex
new step = record { entries = []; step = if step == 0 then 128 else step }

unfoldable pub should_index : SparseIndex → ℕ → Bool
should_index s count = count % s.step == 0

unfoldable pub add : Bytes → ℕ → SparseIndex → SparseIndex
add key offset s = record s { entries = s.entries ++ record { key = key; offset = offset } ∷ [] }

-- `s.entries[i].Key >= key`; an index out of range would panic, and the search stays in range.
unfoldable pub reaches : List IndexEntry → Bytes → ℕ → Bool
reaches es key i = elim (get_elem? es i) [ some e ↦ not (key_lt e.key key) | none ↦ true ]

-- sort.Search: `i` and `j` are the loop's variables, `h` is `(i + j) >> 1`; the fuel bounds the rounds.
unfoldable pub search_loop : ℕ → (ℕ → Bool) → ℕ → ℕ → ℕ
search_loop zero f i j = i
search_loop (suc fuel) f i j =
    let h = (i + j) / 2 in
    let right = search_loop fuel f (h + 1) j in
    let left = search_loop fuel f i h in if ltb i j then (if f h then left else right) else i

unfoldable pub sort_search : ℕ → (ℕ → Bool) → ℕ
unfolding search_loop
sort_search n f = search_loop n f 0 n

-- The offset of entry `i`.
unfoldable pub offset_at : List IndexEntry → ℕ → ℕ
offset_at es i = elim (get_elem? es i) [ some e ↦ e.offset | none ↦ 0 ]

unfoldable pub is_key_at : List IndexEntry → Bytes → ℕ → Bool
is_key_at es key i = elim (get_elem? es i) [ some e ↦ key_eq e.key key | none ↦ false ]

-- The rest of `Lookup`, with the result `n` of the search.
unfoldable pub offset_found : List IndexEntry → Bytes → ℕ → ℕ
offset_found es key n =
    if n == length es
    then offset_at es (length es - 1)
    else if is_key_at es key n
    then offset_at es n
    else if n == 0
    then 0
    else offset_at es (n - 1)

-- Lookup
unfoldable pub lookup_offset : SparseIndex → Bytes → ℕ
lookup_offset s key =
    let len = length s.entries in
    if len == 0 then 0 else offset_found s.entries key (sort_search len (reaches s.entries key))
