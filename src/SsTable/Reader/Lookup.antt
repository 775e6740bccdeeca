-- ===== src/SsTable/Reader/Lookup.antt =====
-- `Get` on a written table.
use lsm_tree_go.Common.{
  ℕ, zero, suc, ◌≤◌, ◌≡◌, refl, sym, ap, ◌∙◌, Bool, true, false, none, some, List, [], ◌∷◌, ◌++◌,
  inl, inr, length, All, if◌then◌else◌, arith, length-append, Bool-cases,
}
use mathlib.Core.List.{append_assoc}
use lsm_tree_go.Common.Keys.{
  Bytes, key_lt, key_eq, key_eq→eq, key_eq_refl, key_lt_irrefl, key_lt_trans, key_cases,
}
use lsm_tree_go.Common.Map.{has_key}
use lsm_tree_go.Common.Sort.{IsBelow, IsBelow-trans}
use lsm_tree_go.Common.Outcome.{ok, ◌>>=◌}
use lsm_tree_go.MemTable.{Entry}
use lsm_tree_go.MemTable.Sorted.{entry_keys, find, IsSorted}
use lsm_tree_go.SparseIndex.{SparseIndex, lookup_offset}
use lsm_tree_go.SparseIndex.Search.{floor_offset}
use lsm_tree_go.SparseIndex.Floor.{lookup_offset-floor}
use lsm_tree_go.Bloom
use lsm_tree_go.Bloom.{Filter}
use lsm_tree_go.Bloom.Members
use lsm_tree_go.Bloom.Members.{may_contain-some}
use lsm_tree_go.SsTable.{entry_bytes}
use lsm_tree_go.SsTable.Codec.{
  IsGoEntry, tail_bytes, entry_bytes-append, read_string-string_bytes, read_tail-tail_bytes,
  length-entry_bytes-pos,
}
use lsm_tree_go.SsTable.Writer.{index_block, bloom_block}
use lsm_tree_go.SsTable.Writer.Appends.{table_bytes, table_bytes-append, expected_index}
use lsm_tree_go.SsTable.Writer.Closed.{file_bytes, table_footer}
use lsm_tree_go.SsTable.Reader.{slice, may_contain, scan, get}
use lsm_tree_go.SsTable.Reader.Opened.{table, slice_rest}
use lsm_tree_go.SsTable.Reader.Offsets.{AllLess, index_start, expected_index-IsAscending}

-- Some key of the list is at least `key`.
unfoldable pub reaches_key : Bytes → List Entry → Bool
reaches_key key [] = false
reaches_key key (e ∷ es) = if key_lt e.key key then reaches_key key es else true

find_below : (key : Bytes) (es : List Entry) → IsBelow key (entry_keys es) → find key es ≡ none
unfolding find entry_keys
find_below key [] h = refl
find_below key (e ∷ es) h =
    ground (arith, h.0, key_eq→eq e.key key, key_lt_irrefl key, find_below key es h.1)

-- One round of the loop on a record.
module _ (fuel : ℕ) (key : Bytes) (e : Entry) (rest : Bytes) (h : IsGoEntry e) where
  scan_past : key_lt key e.key ≡ true → scan (suc fuel) key (entry_bytes e ++ rest) ≡ ok none
  unfolding scan
  scan_past lt =
      rw (entry_bytes-append e rest, read_string-string_bytes e.key (tail_bytes e rest) h.0, lt)

  scan_hit :
      key_lt key e.key ≡ false
      → key_eq e.key key ≡ true
      → scan (suc fuel) key (entry_bytes e ++ rest) ≡ ok (some e)
  unfolding scan
  scan_hit ge same = rw (
    entry_bytes-append e rest,
    read_string-string_bytes e.key (tail_bytes e rest) h.0,
    ge,
    read_tail-tail_bytes e rest h,
    same,
  )

  scan_on :
      key_lt key e.key ≡ false
      → key_eq e.key key ≡ false
      → scan (suc fuel) key (entry_bytes e ++ rest) ≡ scan fuel key rest
  unfolding scan
  scan_on ge other = rw (
    entry_bytes-append e rest,
    read_string-string_bytes e.key (tail_bytes e rest) h.0,
    ge,
    read_tail-tail_bytes e rest h,
    other,
  )

-- The loop over sorted records finds what the list holds, if it ends at a key that is large enough;
-- what stands behind the records is then not read.
scan-find :
    (key : Bytes) (es : List Entry) (rest : Bytes) (fuel : ℕ)
    → IsSorted es
    → All IsGoEntry es
    → reaches_key key es ≡ true
    → length es ≤ fuel
    → scan fuel key (table_bytes es ++ rest) ≡ ok (find key es)
unfolding reaches_key find table_bytes entry_keys
scan-find key [] rest fuel s g r n = cc
scan-find key (e ∷ es) rest zero s g r n = absurd (omega arith)
scan-find key (e ∷ es) rest (suc fuel) s g r n =
    rw (append_assoc (entry_bytes e) (table_bytes es) rest) (elim (key_cases key e.key) [
      | inl lt ↦
          scan_past fuel key e (table_bytes es ++ rest) g.0 lt
          ∙ ap ok
              (sym (find_below key (e ∷ es) (lt, IsBelow-trans key e.key (entry_keys es) lt s.0)))
      | inr (inl same) ↦ ground (
        arith,
        scan_hit fuel key e (table_bytes es ++ rest) g.0,
        key_lt_irrefl key,
        key_eq_refl key,
      )
      | inr (inr gt) ↦ ground (
        arith,
        scan_on fuel key e (table_bytes es ++ rest) g.0,
        key_lt_trans key e.key key,
        key_lt_irrefl key,
        key_eq→eq e.key key,
        scan-find key es rest fuel s.1 g.1,
      )
    ])

find_behind :
    (key : Bytes) (front back : List Entry)
    → AllLess key front
    → find key (front ++ back) ≡ find key back
unfolding find
find_behind key [] back h = refl
find_behind key (e ∷ front) back h =
    ground (arith, h.0, key_eq→eq e.key key, key_lt_irrefl key, find_behind key front back h.1)

reaches_behind :
    (key : Bytes) (front back : List Entry)
    → AllLess key front
    → reaches_key key (front ++ back) ≡ reaches_key key back
unfolding reaches_key
reaches_behind key [] back h = refl
reaches_behind key (e ∷ front) back h = ground (arith, h.0, reaches_behind key front back h.1)

IsSorted-back : (front back : List Entry) → IsSorted (front ++ back) → IsSorted back
unfolding entry_keys
IsSorted-back [] back h = h
IsSorted-back (e ∷ front) back h = IsSorted-back front back h.1

All-back : (front back : List Entry) → All IsGoEntry (front ++ back) → All IsGoEntry back
All-back [] back h = h
All-back (e ∷ front) back h = All-back front back h.1

length-le-table_bytes : (es : List Entry) → length es ≤ length (table_bytes es)
unfolding table_bytes
length-le-table_bytes [] = omega arith
length-le-table_bytes (e ∷ es) = omega (
  arith,
  length-append (entry_bytes e) (table_bytes es),
  length-entry_bytes-pos e,
  length-le-table_bytes es,
)

has_key-find :
    (key : Bytes) (es : List Entry) → has_key key (entry_keys es) ≡ false → find key es ≡ none
unfolding has_key find entry_keys
has_key-find key [] h = refl
has_key-find key (e ∷ es) h = ground (arith, has_key-find key es)

module _ (es : List Entry) (si : SparseIndex) (f : Filter) where
  -- What a writer that has taken in sorted entries leaves.
  pub record IsWritten : Type 0 where
    pub sorted : IsSorted es
    pub entries : All IsGoEntry es
    pub index : si.entries ≡ expected_index si.step 0 0 es
    pub filter_valid : Members.IsValid f
    pub members : (k : Bytes) → has_key k (entry_keys es) ≡ true → Bloom.may_contain k f ≡ some true

  module _ (w : IsWritten) (path key : Bytes) where
    offset-floor : lookup_offset si key ≡ floor_offset (expected_index si.step 0 0 es) key 0
    offset-floor =
        lookup_offset-floor si key (rw w.index (expected_index-IsAscending si.step 0 0 es w.sorted))
        ∙ rw w.index

    -- After the filter, `Get` finds what the list of entries holds.
    get_behind_filter :
        reaches_key key es ≡ true
        → (slice
              (lookup_offset si key)
              (length (file_bytes es si (some f)))
              (file_bytes es si (some f))
            >>= λ buf. scan (length buf) key buf)
          ≡ ok (find key es)
    get_behind_filter r =
        let (front, back, split, at, less) = index_start key si.step es w.sorted in
        let rest = index_block si ++ (bloom_block (some f) ++ table_footer es si) in
        let whole : file_bytes es si (some f) ≡ table_bytes front ++ (table_bytes back ++ rest) =
          file_split front back split in
        rw
          (
            slice_rest (lookup_offset si key) (file_bytes es si (some f)) (table_bytes front)
                (table_bytes back ++ rest) (offset-floor ∙ at) whole,
            scan-find key back rest (length (table_bytes back ++ rest))
                (IsSorted-back front back (rw split at w.sorted))
                (All-back front back (rw split at w.entries))
                (sym (reaches_behind key front back less) ∙ rw split at r)
                (omega (arith, length-append (table_bytes back) rest, length-le-table_bytes back)),
          )
          (ap ok (sym (find_behind key front back less) ∙ sym (ap (find key) split)))
      where
        file_split :
            (front back : List Entry)
            → es ≡ front ++ back
            → file_bytes es si (some f)
              ≡ table_bytes front
                ++ (table_bytes back
                    ++ (index_block si ++ (bloom_block (some f) ++ table_footer es si)))
        file_split front back split =
            unfold file_bytes in
            ap (λ b. b ++ (index_block si ++ (bloom_block (some f) ++ table_footer es si)))
              (ap table_bytes split ∙ table_bytes-append front back)
            ∙ append_assoc (table_bytes front) (table_bytes back) _

    -- On a table of sorted entries with the index and a filter of a writer, `Get` of a key that is at most the
    -- last key of the table returns exactly the table's entry for it, or
    -- nothing if there is none.
    pub get-find : reaches_key key es ≡ true → get key (table es si f path) ≡ ok (find key es)
    unfolding get may_contain
    get-find r = elim (Bool-cases (has_key key (entry_keys es))) [
      | inl there ↦ rw (w.members key there) (get_behind_filter r)
      | inr absent ↦ let (hit, e) = may_contain-some key f w.filter_valid in by_filter absent hit e
    ]
      where
        by_filter :
            has_key key (entry_keys es) ≡ false
            → (hit : Bool) → Bloom.may_contain key f ≡ some hit
            → get key (table es si f path) ≡ ok (find key es)
        by_filter absent true e = rw e (get_behind_filter r)
        by_filter absent false e = rw e (ap ok (sym (has_key-find key es absent)))
