-- ===== src/SsTable/Writer/Appends.antt =====
-- What a run of `Append` has written: the records in order, the sparse index, the filter and the checksum.
use lsm_tree_go.Common.{
  ℕ, zero, suc, ◌+◌, ◌-◌, ◌*◌, ◌%◌, ◌≤◌, ◌<◌, ◌≡◌, refl, sym, ◌∙◌, true, some, List, [], ◌∷◌, ◌++◌,
  length, ltb, ◌==◌, if◌then◌else◌, arith, length-append, take_of_length-le, Bool-cases, inl, inr,
}
use mathlib.Core.List.{append-nil, append_assoc}
use native.Mathlib.Nat.{add-zero}
use lsm_tree_go.Common.Keys.{Bytes, key_eq, key_eq→eq}
use lsm_tree_go.Common.Map.{has_key}
use lsm_tree_go.Common.Crc.{update, checksum, update-append}
use lsm_tree_go.Common.Outcome.{Outcome, ok, ◌>>=◌}
use lsm_tree_go.MemTable.{Entry}
use lsm_tree_go.MemTable.Sorted.{entry_keys}
use lsm_tree_go.SparseIndex
use lsm_tree_go.SparseIndex.{SparseIndex, IndexEntry, should_index}
use lsm_tree_go.Bloom
use lsm_tree_go.Bloom.{Filter}
use lsm_tree_go.Bloom.Members
use lsm_tree_go.Bloom.Members.{add_all, add_lem}
use lsm_tree_go.SsTable.{entry_bytes}
use lsm_tree_go.SsTable.Codec.{length-entry_bytes-pos}
use lsm_tree_go.SsTable.Writer.{
  Os, Writer, double_past, grow, copy_in, ensure, note_key, note_offset, append,
}

-- The records one after the other.
unfoldable pub table_bytes : List Entry → Bytes
table_bytes [] = []
table_bytes (e ∷ es) = entry_bytes e ++ table_bytes es

-- The index of entries that start at offset `pos` and are numbered from `count`.
unfoldable pub expected_index : ℕ → ℕ → ℕ → List Entry → List IndexEntry
expected_index step count pos [] = []
expected_index step count pos (e ∷ es) =
    let rest = expected_index step (count + 1) (pos + length (entry_bytes e)) es in
    if count % step == 0 then record { key = e.key; offset = pos } ∷ rest else rest

-- Every system call succeeds.
pub record IsUp (os : Os) : Type 0 where
  pub mkdir : os.mkdir_ok ≡ true
  pub create : os.create_ok ≡ true
  pub opened : os.open_ok ≡ true
  pub munmap : os.munmap_ok ≡ true
  pub sync : os.sync_ok ≡ true
  pub truncate : (n : ℕ) → os.truncate_ok n ≡ true
  pub mmap : (n : ℕ) → os.mmap_ok n ≡ true

-- The loop over the entries in `flushMemtable` and `DoCompact`.
unfoldable pub append_all : Os → List Entry → Writer → Outcome Writer
append_all os [] w = ok w
append_all os (e ∷ es) w = append os e w >>= λ w'. append_all os es w'

-- What a writer that has taken in `es` looks like.
pub record Has (w : Writer) (es : List Entry) : Type 0 where
  pub bytes : w.mapped ≡ table_bytes es
  pub position : w.byte_pos ≡ length (table_bytes es)
  pub counted : w.count ≡ length es
  pub room : w.byte_pos ≤ w.mmap_cap
  pub capacity : 0 < w.mmap_cap
  pub index : w.sparse_index.entries ≡ expected_index w.sparse_index.step 0 0 es
  pub crc : w.data_crc ≡ checksum (table_bytes es)
  pub filter : Filter
  pub filtered : w.bloom_filter ≡ some filter
  pub filter_valid : Members.IsValid filter
  pub members :
      (k : Bytes) → has_key k (entry_keys es) ≡ true → Bloom.may_contain k filter ≡ some true

-- The doubling loop ends above its target.
double_past-gt :
    (fuel target cap : ℕ) → 0 < cap → target < cap + fuel → target < double_past fuel target cap
unfolding double_past
double_past-gt zero target cap h k = omega arith
double_past-gt (suc fuel) target cap h k = ground (arith, double_past-gt fuel target (cap * 2))

pub table_bytes-append : (a b : List Entry) → table_bytes (a ++ b) ≡ table_bytes a ++ table_bytes b
unfolding table_bytes
table_bytes-append [] b = refl
table_bytes-append (e ∷ a) b =
    rw (table_bytes-append a b, append_assoc (entry_bytes e) (table_bytes a) (table_bytes b))

table_bytes_snoc :
    (es : List Entry) (e : Entry) → table_bytes (es ++ e ∷ []) ≡ table_bytes es ++ entry_bytes e
table_bytes_snoc es e = rw (table_bytes-append es (e ∷ [])) (unfold table_bytes in rw append-nil)

expected_index_snoc :
    (step count pos : ℕ) (es : List Entry) (e : Entry)
    → expected_index step count pos (es ++ e ∷ []) ≡ (
        if (count + length es) % step == 0
        then expected_index step count pos es
          ++ record { key = e.key; offset = pos + length (table_bytes es) } ∷ []
        else expected_index step count pos es)
unfolding expected_index table_bytes
expected_index_snoc step count pos [] e = rw (add-zero count, add-zero pos)
expected_index_snoc step count pos (x ∷ es) e = ground (
  arith,
  expected_index_snoc step (count + 1) (pos + length (entry_bytes x)) es e,
  next_count,
  next_pos,
)
  where
    next_count : count + suc (length es) ≡ count + 1 + length es
    next_count = omega arith

    next_pos :
        pos + length (entry_bytes x ++ table_bytes es)
        ≡ pos + length (entry_bytes x) + length (table_bytes es)
    next_pos = omega (arith, length-append (entry_bytes x) (table_bytes es))

entry_keys_snoc :
    (k : Bytes) (es : List Entry) (e : Entry)
    → has_key k (entry_keys (es ++ e ∷ []))
      ≡ (if key_eq e.key k then true else has_key k (entry_keys es))
unfolding entry_keys has_key
entry_keys_snoc k [] e = refl
entry_keys_snoc k (x ∷ es) e = ground (arith, entry_keys_snoc k es e)

crc_more :
    (es : List Entry) (e : Entry)
    → update (checksum (table_bytes es)) (entry_bytes e)
      ≡ checksum (table_bytes es ++ entry_bytes e)
unfolding checksum
crc_more es e = update-append 0 (table_bytes es) (entry_bytes e) (omega arith)

-- What fits is copied whole.
pub copy_in_fits :
    (buf : Bytes) (w : Writer)
    → w.byte_pos + length buf ≤ w.mmap_cap
    → copy_in buf w ≡ ok (record w { mapped = w.mapped ++ buf; byte_pos = w.byte_pos + length buf })
unfolding copy_in
copy_in_fits buf w h = ground (arith, take_of_length-le (w.mmap_cap - w.byte_pos) buf)

note_offset-step :
    (key : Bytes) (len : ℕ) (w : Writer)
    → (note_offset key len w).sparse_index.step ≡ w.sparse_index.step
unfolding note_offset SparseIndex.add
note_offset-step key len w = ground arith

note_offset-entries :
    (key : Bytes) (len : ℕ) (w : Writer)
    → (note_offset key len w).sparse_index.entries ≡ (
        if (w.count - 1) % w.sparse_index.step == 0
        then w.sparse_index.entries ++ record { key = key; offset = w.byte_pos - len } ∷ []
        else w.sparse_index.entries)
unfolding note_offset SparseIndex.add should_index
note_offset-entries key len w = ground arith

module _ (os : Os) (up : IsUp os) where
  ensure_lem :
      (need : ℕ) (w : Writer)
      → 0 < w.mmap_cap
      → (cap : ℕ) × (ensure os need w ≡ ok (record w { mmap_cap = cap })) × (need ≤ cap) × (0 < cap)
  unfolding ensure grow
  ensure_lem need w h = elim (Bool-cases (ltb w.mmap_cap need)) [
    | inr fits ↦ (w.mmap_cap, ground arith, ground arith, h)
    | inl small ↦ (
      double_past (need + 1) need w.mmap_cap,
      rw (
        small,
        up.munmap,
        up.truncate (double_past (need + 1) need w.mmap_cap),
        up.mmap (double_past (need + 1) need w.mmap_cap),
      ),
      omega (arith, double_past-gt (need + 1) need w.mmap_cap h (omega arith)),
      omega (arith, double_past-gt (need + 1) need w.mmap_cap h (omega arith)),
    )
  ]

  note_key_lem :
      (key : Bytes) (w : Writer) (f : Filter)
      → w.bloom_filter ≡ some f
      → Members.IsValid f
      → (f' : Filter) × (note_key key w ≡ ok (record w { bloom_filter = some f' }))
        × Members.IsValid f'
        × (Bloom.may_contain key f' ≡ some true)
        × ((j : Bytes) → Bloom.may_contain j f ≡ some true → Bloom.may_contain j f' ≡ some true)
  unfolding note_key
  note_key_lem key w f e v =
      let (f', added, v', found, kept) = add_lem key f v in (f', rw (e, added), v', found, kept)

  -- The writer after the copy, the checksum, the count and the filter, with `cap` the capacity.
  abbrev stored : Entry → ℕ → Filter → Writer → Writer
  stored e cap f w = record w {
    mapped = w.mapped ++ entry_bytes e;
    mmap_cap = cap;
    count = w.count + 1;
    byte_pos = w.byte_pos + length (entry_bytes e);
    bloom_filter = some f;
    data_crc = update w.data_crc (entry_bytes e);
  }

  append-eq-stored :
      (e : Entry) (es : List Entry) (w : Writer)
      → Has w es
      → (cap : ℕ) × (f : Filter) × (append os e w
          ≡ ok (note_offset e.key (length (entry_bytes e)) (stored e cap f w)))
        × (w.byte_pos + length (entry_bytes e) ≤ cap)
        × Members.IsValid f
        × (Bloom.may_contain e.key f ≡ some true)
        × ((k : Bytes) → has_key k (entry_keys es) ≡ true → Bloom.may_contain k f ≡ some true)
  unfolding append
  append-eq-stored e es w h =
      let (cap, grown, fits, _) = ensure_lem (w.byte_pos + length (entry_bytes e)) w h.capacity in
      let (f, noted, v, found, kept) =
        note_key_lem e.key (record (stored e cap h.filter w) { bloom_filter = w.bloom_filter })
          h.filter h.filtered h.filter_valid in
      (
        cap,
        f,
        rw (grown, copy_in_fits (entry_bytes e) (record w { mmap_cap = cap }) fits, noted),
        fits,
        v,
        found,
        λ k p. kept k (h.members k p),
      )

  -- `Append` succeeds, and the writer then has the entry behind the others.
  pub append-Has :
      (e : Entry) (es : List Entry) (w : Writer)
      → Has w es
      → (w' : Writer) × (append os e w ≡ ok w')
        × Has w' (es ++ e ∷ [])
        × (w'.sparse_index.step ≡ w.sparse_index.step)
  unfolding note_offset
  append-Has e es w h =
      let (cap, f, done, fits, v, found, kept) = append-eq-stored e es w h in
      (
        note_offset e.key (length (entry_bytes e)) (stored e cap f w),
        done,
        record {
          bytes = rw (table_bytes_snoc es e) (ground (arith, h.bytes));
          position =
              rw (table_bytes_snoc es e)
                (ground (arith, h.position, length-append (table_bytes es) (entry_bytes e)));
          counted = ground (arith, h.counted, length-append es (e ∷ []));
          room = ground arith;
          capacity = ground (arith, length-entry_bytes-pos e);
          index =
              note_offset-entries e.key (length (entry_bytes e)) (stored e cap f w)
              ∙ new_index
              ∙ sym (
                  rw (note_offset-step e.key (length (entry_bytes e)) (stored e cap f w))
                    (expected_index_snoc w.sparse_index.step 0 0 es e));
          crc = rw (table_bytes_snoc es e) (ground (arith, h.crc, crc_more es e));
          filter = f;
          filtered = ground arith;
          filter_valid = v;
          members = λ k p. elim (Bool-cases (key_eq e.key k)) [
            | inl same ↦ rw (← key_eq→eq e.key k same) found
            | inr other ↦ kept k (ground (arith, entry_keys_snoc k es e))
          ];
        },
        note_offset-step e.key (length (entry_bytes e)) (stored e cap f w),
      )
    where
      new_index :
          (if (w.count + 1 - 1) % w.sparse_index.step == 0
            then w.sparse_index.entries
              ++ record {
                key = e.key;
                offset = w.byte_pos + length (entry_bytes e) - length (entry_bytes e);
              }
                ∷ []
            else w.sparse_index.entries)
          ≡ (if (0 + length es) % w.sparse_index.step == 0
              then expected_index w.sparse_index.step 0 0 es
                ++ record { key = e.key; offset = 0 + length (table_bytes es) } ∷ []
              else expected_index w.sparse_index.step 0 0 es)
      new_index =
          let a : w.count + 1 - 1 ≡ 0 + length es = omega (arith, h.counted) in
          let b : w.byte_pos + length (entry_bytes e) - length (entry_bytes e)
              ≡ 0 + length (table_bytes es) =
            omega (arith, h.position) in
          rw (a, b, h.index)

  -- Where the system calls succeed, appending a whole list does, and the writer then has the entries in order:
  -- their bytes, position, count, index and checksum, and a filter that finds every key.
  pub append_all-Has :
      (es before : List Entry) (w : Writer)
      → Has w before
      → (w' : Writer) × (append_all os es w ≡ ok w')
        × Has w' (before ++ es)
        × (w'.sparse_index.step ≡ w.sparse_index.step)
  unfolding append_all
  append_all-Has [] before w h = (w, refl, rw (append-nil before) h, refl)
  append_all-Has (e ∷ es) before w h =
      let (mid, done, has, s) = append-Has e before w h in
      let (w', rest, has', s') = append_all-Has es (before ++ e ∷ []) mid has in
      (w', rw done rest, rw (append_assoc before (e ∷ []) es) at has', s' ∙ s)
