-- ===== src/SparseIndex/Floor.antt =====
-- `Lookup` is the plain scan, on an index with ascending keys.
use lsm_tree_go.Common.{
  ℕ, zero, suc, ◌-◌, ◌≤◌, ◌≡◌, refl, ◌∙◌, true, false, List, [], ◌∷◌, length, arith, ◌==◌,
  if◌then◌else◌, inl, inr,
}
use lsm_tree_go.Common.Keys.{
  Bytes, key_lt, key_eq→eq, key_eq_refl, key_lt_irrefl, key_lt_trans, key_cases,
}
use lsm_tree_go.Common.Sort.{IsAscending, IsBelow}
use lsm_tree_go.SparseIndex.{
  IndexEntry, SparseIndex, reaches, search_loop, sort_search, offset_at, is_key_at, offset_found,
  lookup_offset,
}
use lsm_tree_go.SparseIndex.Search.{IsFirst, sort_search-IsFirst, index_keys, floor_offset}

below_at :
    (k key : Bytes) (es : List IndexEntry) (j : ℕ)
    → IsBelow k (index_keys es)
    → key_lt k key ≡ false
    → reaches es key j ≡ true
unfolding index_keys reaches
below_at k key [] j b h = refl
below_at k key (e ∷ es) zero b h = ground (arith, b.0, key_lt_trans k e.key key)
below_at k key (e ∷ es) (suc j) b h = below_at k key es j b.1 h

-- On ascending keys `s.entries[i].Key >= key` is monotone in `i`.
reaches-IsMonotone :
    (es : List IndexEntry) (key : Bytes) (i j : ℕ)
    → IsAscending (index_keys es)
    → i ≤ j
    → reaches es key i ≡ true
    → reaches es key j ≡ true
unfolding index_keys reaches
reaches-IsMonotone [] key i j asc ij h = refl
reaches-IsMonotone (e ∷ es) key zero zero asc ij h = h
reaches-IsMonotone (e ∷ es) key zero (suc j) asc ij h = below_at e.key key es j asc.0 (ground arith)
reaches-IsMonotone (e ∷ es) key (suc i) zero asc ij h = absurd (omega arith)
reaches-IsMonotone (e ∷ es) key (suc i) (suc j) asc ij h =
    reaches-IsMonotone es key i j asc.1 (omega arith) h

-- What `Lookup` does with the index that the search returns.
abbrev pick : List IndexEntry → Bytes → ℕ → ℕ → ℕ
pick es key start r =
    if is_key_at es key r then offset_at es r else if r == 0 then start else offset_at es (r - 1)

pub floor_offset_below :
    (es : List IndexEntry) (key : Bytes) (start : ℕ)
    → IsBelow key (index_keys es)
    → floor_offset es key start ≡ start
unfolding floor_offset index_keys
floor_offset_below [] key start b = refl
floor_offset_below (e ∷ es) key start b = ground (arith, b.0)

IsFirst-tail :
    (e : IndexEntry) (es : List IndexEntry) (key : Bytes) (r : ℕ)
    → IsFirst (reaches (e ∷ es) key) (suc (length es)) (suc r)
    → IsFirst (reaches es key) (length es) r
unfolding reaches
IsFirst-tail e es key r first = (
  omega arith,
  λ i p. first.1 (suc i) (omega arith),
  λ i p q. first.2 (suc i) (omega arith) (omega arith),
)

pick-floor_offset :
    (es : List IndexEntry) (key : Bytes) (start r : ℕ)
    → IsAscending (index_keys es)
    → IsFirst (reaches es key) (length es) r
    → pick es key start r ≡ floor_offset es key start
unfolding floor_offset index_keys reaches is_key_at offset_at
pick-floor_offset [] key start r asc first = ground arith
pick-floor_offset (e ∷ es) key start zero asc first = elim (key_cases key e.key) [
  | inl lt ↦ ground (arith, key_eq→eq e.key key, key_lt_irrefl key)
  | inr (inl eq) ↦
      ground (
        arith,
        key_lt_irrefl key,
        key_eq_refl key,
        floor_offset_below es key e.offset (rw eq asc.0),
      )
  | inr (inr gt) ↦ ground (arith, first.2 0)
]
pick-floor_offset (e ∷ es) key start (suc zero) asc first = ground (
  arith,
  first.1 0,
  key_lt_trans key e.key key,
  key_lt_irrefl key,
  pick-floor_offset es key e.offset 0 asc.1 (IsFirst-tail e es key 0 first),
)
pick-floor_offset (e ∷ es) key start (suc (suc r)) asc first = ground (
  arith,
  first.1 0,
  key_lt_trans key e.key key,
  key_lt_irrefl key,
  pick-floor_offset es key e.offset (suc r) asc.1 (IsFirst-tail e es key (suc r) first),
)

not_key_at_end : (es : List IndexEntry) (key : Bytes) → is_key_at es key (length es) ≡ false
unfolding is_key_at
not_key_at_end [] key = refl
not_key_at_end (e ∷ es) key = not_key_at_end es key

offset_found-pick :
    (e : IndexEntry) (es : List IndexEntry) (key : Bytes) (r : ℕ)
    → offset_found (e ∷ es) key r ≡ pick (e ∷ es) key 0 r
unfolding offset_found
offset_found-pick e es key r = ground (arith, not_key_at_end (e ∷ es) key)

lookup_offset-pick :
    (s : SparseIndex) (key : Bytes)
    → lookup_offset s key
      ≡ pick s.entries key 0 (sort_search (length s.entries) (reaches s.entries key))
lookup_offset-pick s key = by_entries s.entries s.step
  where
    by_entries :
        (es : List IndexEntry) (step : ℕ)
        → lookup_offset (record { entries = es; step = step }) key
          ≡ pick es key 0 (sort_search (length es) (reaches es key))
    by_entries [] step = unfold lookup_offset is_key_at sort_search search_loop in ground arith
    by_entries (e ∷ es) step =
        unfold lookup_offset in
        ground
          (arith, offset_found-pick e es key (sort_search (length (e ∷ es)) (reaches (e ∷ es) key)))

-- On ascending keys `Lookup` gives the offset of the last indexed key that is at most `key`, and 0 if
-- there is none.
pub lookup_offset-floor :
    (s : SparseIndex) (key : Bytes)
    → IsAscending (index_keys s.entries)
    → lookup_offset s key ≡ floor_offset s.entries key 0
lookup_offset-floor s key asc =
    lookup_offset-pick s key ∙ pick-floor_offset s.entries key 0 _ asc first
  where
    first :
        IsFirst
          (reaches s.entries key)
          (length s.entries)
          (sort_search (length s.entries) (reaches s.entries key))
    first =
        sort_search-IsFirst (reaches s.entries key) (length s.entries)
          (λ i j ij jn h. reaches-IsMonotone s.entries key i j asc ij h)
