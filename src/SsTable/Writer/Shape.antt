-- ===== src/SsTable/Writer/Shape.antt =====
-- What appending leaves as it is: the sizes of the filter, and at least the first mapping.
use lsm_tree_go.Common.{
  ℕ, zero, suc, ◌+◌, ◌-◌, ◌*◌, ◌≤◌, ◌≡◌, refl, some, List, [], ◌∷◌, length, ltb, arith, Bool-cases,
  inl, inr,
}
use lsm_tree_go.Common.Keys.{Bytes}
use lsm_tree_go.Common.Outcome.{or_panic, call}
use lsm_tree_go.Common.Ensures.{Ensures, Ensures-or_panic, Ensures->>=, Ensures-any}
use lsm_tree_go.MemTable.{Entry}
use lsm_tree_go.SparseIndex
use lsm_tree_go.Bloom
use lsm_tree_go.Bloom.{Filter}
use lsm_tree_go.Bloom.Shape.{IsShaped, add-IsShaped}
use lsm_tree_go.SsTable.{entry_bytes}
use lsm_tree_go.SsTable.Writer.{
  Os, Writer, initial_mmap_size, double_past, grow, copy_in, ensure, note_key, note_offset, append,
}
use lsm_tree_go.SsTable.Writer.Appends.{append_all}

module _ (num_bits num_hash : ℕ) where
  -- A filter of the given sizes, and a mapping that has not shrunk.
  pub record HasShape (w : Writer) : Type 0 where
    pub filter : Filter
    pub filtered : w.bloom_filter ≡ some filter
    pub shaped : IsShaped num_bits num_hash filter
    pub mapping : initial_mmap_size ≤ w.mmap_cap

  double_past-ge : (fuel target cap : ℕ) → cap ≤ double_past fuel target cap
  unfolding double_past
  double_past-ge zero target cap = omega arith
  double_past-ge (suc fuel) target cap = ground (arith, double_past-ge fuel target (cap * 2))

  ensure-HasShape :
      (os : Os) (need : ℕ) (w : Writer) → HasShape w → Ensures HasShape (ensure os need w)
  unfolding ensure grow
  ensure-HasShape os need w h = elim (Bool-cases (ltb w.mmap_cap need)) [
    | inr fits ↦ rw fits h
    | inl small ↦ rw small (
        let cap = double_past (need + 1) need w.mmap_cap in
        Ensures->>= (λ u. Unit {0}) HasShape (call os.munmap_ok) _ (Ensures-any (call os.munmap_ok))
          (λ x u.
            Ensures->>= (λ u. Unit {0}) HasShape (call (os.truncate_ok cap)) _
              (Ensures-any (call (os.truncate_ok cap)))
              (λ y v.
                Ensures->>= (λ u. Unit {0}) HasShape (call (os.mmap_ok cap)) _
                  (Ensures-any (call (os.mmap_ok cap)))
                  (λ z t. record {
                    filter = h.filter;
                    filtered = h.filtered;
                    shaped = h.shaped;
                    mapping = omega (arith, h.mapping, double_past-ge (need + 1) need w.mmap_cap);
                  }))))
  ]

  copy_in-HasShape : (buf : Bytes) (w : Writer) → HasShape w → Ensures HasShape (copy_in buf w)
  unfolding copy_in
  copy_in-HasShape buf w h = elim (Bool-cases (ltb w.mmap_cap w.byte_pos)) [
    | inl past ↦ rw past tt
    | inr inside ↦ rw inside (record {
      filter = h.filter;
      filtered = h.filtered;
      shaped = h.shaped;
      mapping = h.mapping;
    })
  ]

  note_key-HasShape : (key : Bytes) (w : Writer) → HasShape w → Ensures HasShape (note_key key w)
  unfolding note_key
  note_key-HasShape key w h = rw h.filtered (
      Ensures->>= (λ f'. Bloom.add key h.filter ≡ some f') HasShape
        (or_panic (Bloom.add key h.filter)) _
        (Ensures-or_panic (λ f'. Bloom.add key h.filter ≡ some f') (Bloom.add key h.filter)
          (λ f' e. e))
        (λ f' e. record {
          filter = f';
          filtered = refl;
          shaped = add-IsShaped num_bits num_hash key h.filter f' e h.shaped;
          mapping = h.mapping;
        }))

  note_offset-HasShape :
      (key : Bytes) (len : ℕ) (w : Writer) → HasShape w → HasShape (note_offset key len w)
  unfolding note_offset
  note_offset-HasShape key len w h =
      elim (Bool-cases (SparseIndex.should_index w.sparse_index (w.count - 1))) [
        | inl due ↦ rw due (record {
          filter = h.filter;
          filtered = h.filtered;
          shaped = h.shaped;
          mapping = h.mapping;
        })
        | inr early ↦ rw early h
      ]

  append-HasShape :
      (os : Os) (e : Entry) (w : Writer) → HasShape w → Ensures HasShape (append os e w)
  unfolding append
  append-HasShape os e w h =
      Ensures->>= HasShape HasShape (ensure os (w.byte_pos + length (entry_bytes e)) w) _
        (ensure-HasShape os (w.byte_pos + length (entry_bytes e)) w h)
        (λ placed p.
          Ensures->>= HasShape HasShape (copy_in (entry_bytes e) placed) _
            (copy_in-HasShape (entry_bytes e) placed p)
            (λ copied c.
              Ensures->>= HasShape HasShape _ _
                (note_key-HasShape e.key _ (record {
                  filter = c.filter;
                  filtered = c.filtered;
                  shaped = c.shaped;
                  mapping = c.mapping;
                }))
                (λ noted n. note_offset-HasShape e.key (length (entry_bytes e)) noted n)))

  pub append_all-HasShape :
      (os : Os) (es : List Entry) (w : Writer) → HasShape w → Ensures HasShape (append_all os es w)
  unfolding append_all
  append_all-HasShape os [] w h = h
  append_all-HasShape os (e ∷ es) w h =
      Ensures->>= HasShape HasShape (append os e w) _ (append-HasShape os e w h)
        (λ w' h'. append_all-HasShape os es w' h')
