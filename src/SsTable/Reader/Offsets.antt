-- ===== src/SsTable/Reader/Offsets.antt =====
-- Where the sparse index sends a lookup: the start of a record, behind keys that are all too small.
use lsm_tree_go.Common.{
  ℕ, ◌+◌, ◌%◌, ◌≡◌, refl, ap, ◌∙◌, true, false, List, [], ◌∷◌, ◌++◌, ◌⊎◌, inl, inr, length, All,
  ◌==◌, arith, length-append, Bool-cases,
}
use lsm_tree_go.Common.Keys.{Bytes, key_lt, key_lt_irrefl, key_lt_trans, key_cases}
use lsm_tree_go.Common.Sort.{IsAscending, IsBelow, IsBelow-trans}
use lsm_tree_go.MemTable.{Entry}
use lsm_tree_go.MemTable.Sorted.{entry_keys, IsSorted}
use lsm_tree_go.SparseIndex.{IndexEntry}
use lsm_tree_go.SparseIndex.Search.{index_keys, floor_offset}
use lsm_tree_go.SparseIndex.Floor.{floor_offset_below}
use lsm_tree_go.SsTable.{entry_bytes}
use lsm_tree_go.SsTable.Writer.Appends.{table_bytes, expected_index}

pub expected_index-IsBelow :
    (k : Bytes) (step count pos : ℕ) (es : List Entry)
    → IsBelow k (entry_keys es)
    → IsBelow k (index_keys (expected_index step count pos es))
unfolding expected_index index_keys entry_keys
expected_index-IsBelow k step count pos [] h = tt
expected_index-IsBelow k step count pos (e ∷ es) h =
    let rest = expected_index-IsBelow k step (count + 1) (pos + length (entry_bytes e)) es h.1 in
    elim (Bool-cases (count % step == 0)) [
      | inl here ↦ rw here (h.0, rest)
      | inr skip ↦ rw skip rest
    ]

-- The index of a sorted table has ascending keys.
pub expected_index-IsAscending :
    (step count pos : ℕ) (es : List Entry)
    → IsSorted es
    → IsAscending (index_keys (expected_index step count pos es))
unfolding expected_index index_keys entry_keys
expected_index-IsAscending step count pos [] h = tt
expected_index-IsAscending step count pos (e ∷ es) h =
    let rest = expected_index-IsAscending step (count + 1) (pos + length (entry_bytes e)) es h.1 in
    elim (Bool-cases (count % step == 0)) [
      | inl here ↦ rw here (
        expected_index-IsBelow e.key step (count + 1) (pos + length (entry_bytes e)) es h.0,
        rest,
      )
      | inr skip ↦ rw skip rest
    ]

-- Every key of the list is less than `key`.
abbrev pub AllLess : Bytes → List Entry → Type 0
AllLess key es = All (λ e. key_lt e.key key ≡ true) es

-- An offset is the start value, or the start of a record with only smaller keys before it.
abbrev pub IsStart : Bytes → ℕ → List Entry → ℕ → ℕ → Type 0
IsStart key pos es start off =
    (off ≡ start)
    ⊎ ((front : List Entry) × (back : List Entry) × (es ≡ front ++ back)
        × (off ≡ pos + length (table_bytes front))
        × AllLess key front)

-- A record with a smaller key in front.
push :
    (key : Bytes) (e : Entry) (es : List Entry) (pos s start off : ℕ)
    → key_lt e.key key ≡ true
    → IsStart key (pos + length (entry_bytes e)) es s off
    → (off ≡ s → IsStart key pos (e ∷ es) start off)
    → IsStart key pos (e ∷ es) start off
unfolding table_bytes
push key e es pos s start off lt (inl here) k = k here
push key e es pos s start off lt (inr (front, back, split, at, less)) k = inr (
  e ∷ front,
  back,
  ap (◌∷◌ e) split,
  omega (arith, at, length-append (entry_bytes e) (table_bytes front)),
  (lt, less),
)

module _ (key : Bytes) (step count pos start : ℕ) (e : Entry) (es : List Entry) where
  abbrev rest_index : List IndexEntry
  rest_index = expected_index step (count + 1) (pos + length (entry_bytes e)) es

  -- No indexed key behind `e` is small enough.
  rest_big : (s : ℕ) → IsBelow key (entry_keys es) → floor_offset rest_index key s ≡ s
  rest_big s b =
      floor_offset_below rest_index key s
        (expected_index-IsBelow key step (count + 1) (pos + length (entry_bytes e)) es b)

  IsStart-here : (off : ℕ) → off ≡ pos → IsStart key pos (e ∷ es) start off
  unfolding table_bytes
  IsStart-here off h = inr ([], e ∷ es, refl, omega arith, tt)

  indexed :
      key_lt key e.key ≡ false
      → count % step == 0 ≡ true
      → floor_offset (expected_index step count pos (e ∷ es)) key start
        ≡ floor_offset rest_index key pos
  unfolding expected_index floor_offset
  indexed ge here = rw (here, ge)

  skipped :
      count % step == 0 ≡ false
      → floor_offset (expected_index step count pos (e ∷ es)) key start
        ≡ floor_offset rest_index key start
  unfolding expected_index
  skipped skip = rw skip

floor_offset-IsStart :
    (key : Bytes) (step count pos start : ℕ) (es : List Entry)
    → IsSorted es
    → IsStart key pos es start (floor_offset (expected_index step count pos es) key start)
unfolding entry_keys
floor_offset-IsStart key step count pos start [] h =
    inl (unfold expected_index floor_offset in refl)
floor_offset-IsStart key step count pos start (e ∷ es) h = elim (key_cases key e.key) [
  | inl lt ↦ inl (
      floor_offset_below _ key start (
        expected_index-IsBelow key step count pos (e ∷ es)
          (lt, IsBelow-trans key e.key (entry_keys es) lt h.0)))
  | inr (inl same) ↦
      let above : IsBelow key (entry_keys es) = rw same h.0 in
      let ge : key_lt key e.key ≡ false = rw (← same) (key_lt_irrefl key) in
      elim (Bool-cases (count % step == 0)) [
        | inl here ↦ IsStart-here key step count pos start e es _ (
            indexed key step count pos start e es ge here
            ∙ rest_big key step count pos start e es pos above)
        | inr skip ↦ inl (
            skipped key step count pos start e es skip
            ∙ rest_big key step count pos start e es start above)
      ]
  | inr (inr gt) ↦
      let ge : key_lt key e.key ≡ false =
        ground (arith, key_lt_trans key e.key key, key_lt_irrefl key) in
      elim (Bool-cases (count % step == 0)) [
        | inl here ↦ rw (indexed key step count pos start e es ge here) (
            push key e es pos pos start _ gt
              (floor_offset-IsStart key step (count + 1) (pos + length (entry_bytes e)) pos es h.1)
              (λ at. IsStart-here key step count pos start e es _ at))
        | inr skip ↦ rw (skipped key step count pos start e es skip) (
            push key e es pos start start _ gt
              (floor_offset-IsStart key step (count + 1) (pos + length (entry_bytes e)) start es
                h.1)
              (λ at. inl at))
      ]
]

-- A lookup starts at a record, and every key before it is smaller than the one looked for.
pub index_start :
    (key : Bytes) (step : ℕ) (es : List Entry)
    → IsSorted es
    → (front : List Entry) × (back : List Entry) × (es ≡ front ++ back)
      × (floor_offset (expected_index step 0 0 es) key 0 ≡ length (table_bytes front))
      × AllLess key front
unfolding table_bytes
index_start key step es h = elim (floor_offset-IsStart key step 0 0 0 es h) [
  | inl at ↦ ([], es, refl, at, tt)
  | inr (front, back, split, at, less) ↦ (front, back, split, omega (arith, at), less)
]
