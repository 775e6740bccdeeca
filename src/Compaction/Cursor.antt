-- ===== src/Compaction/Cursor.antt =====
-- EntryIter on a table as its writer leaves it.
use mathlib.Core.List.{append_assoc, append-nil}
use lsm_tree_go.Common.{
  ◌+◌, ◌≤◌, ◌≡◌, refl, sym, ap, ◌∙◌, true, false, none, some, List, [], ◌∷◌, ◌++◌, All, length,
  arith, leb, length-append,
}
use lsm_tree_go.Common.Keys.{Bytes}
use lsm_tree_go.Common.Outcome.{ok}
use lsm_tree_go.MemTable.{Entry}
use lsm_tree_go.SparseIndex.{SparseIndex}
use lsm_tree_go.Bloom.{Filter}
use lsm_tree_go.SsTable.{entry_bytes}
use lsm_tree_go.SsTable.Codec.{IsGoEntry, parse_entry-entry_bytes, length-entry_bytes-pos}
use lsm_tree_go.SsTable.Writer.{index_block, bloom_block}
use lsm_tree_go.SsTable.Writer.Appends.{table_bytes, table_bytes-append}
use lsm_tree_go.SsTable.Writer.Closed.{file_bytes, table_footer}
use lsm_tree_go.SsTable.Reader.{EntryIter, next}
use lsm_tree_go.SsTable.Reader.Opened.{table, slice_rest}
use lsm_tree_go.Compaction.Pending.{after, Yields}

table_bytes-split :
    (front : List Entry) (e : Entry) (back : List Entry)
    → table_bytes (front ++ e ∷ back) ≡ table_bytes front ++ (entry_bytes e ++ table_bytes back)
unfolding table_bytes
table_bytes-split front e back = table_bytes-append front (e ∷ back)

table_bytes-snoc :
    (front : List Entry) (e : Entry)
    → length (table_bytes front) + length (entry_bytes e) ≡ length (table_bytes (front ++ e ∷ []))
table_bytes-snoc front e =
    let a = ap length (table_bytes-split front e []) in
    let b = length-append (table_bytes front) (entry_bytes e ++ table_bytes []) in
    let c = length-append (entry_bytes e) (table_bytes []) in unfold table_bytes in omega arith

module _ (es : List Entry) (si : SparseIndex) (f : Filter) (path : Bytes) where
  -- The iterator behind `front`.
  abbrev pub iter_behind : List Entry → EntryIter
  iter_behind front = record { sst = table es si f path; pos = length (table_bytes front) }

  pub next-iter_behind :
      (front : List Entry) (e : Entry) (back : List Entry)
      → es ≡ front ++ e ∷ back
      → IsGoEntry e
      → next (iter_behind front) ≡ ok (some (e, iter_behind (front ++ e ∷ [])))
  unfolding next
  next-iter_behind front e back split h = rw (
    inside,
    slice_rest (length (table_bytes front)) (file_bytes es si (some f)) (table_bytes front)
        (entry_bytes e ++ behind) refl whole,
    parse_entry-entry_bytes e behind h,
    table_bytes-snoc front e,
  )
    where
      behind : Bytes
      behind = table_bytes back ++ (index_block si ++ (bloom_block (some f) ++ table_footer es si))

      inside : leb (length (table_bytes es)) (length (table_bytes front)) ≡ false
      inside =
          let a = ap length (ap table_bytes split ∙ table_bytes-split front e back) in
          let b = length-append (table_bytes front) (entry_bytes e ++ table_bytes back) in
          let c = length-append (entry_bytes e) (table_bytes back) in
          let d = length-entry_bytes-pos e in ground arith

      whole : file_bytes es si (some f) ≡ table_bytes front ++ (entry_bytes e ++ behind)
      whole =
          unfold file_bytes in
          ap (λ b. b ++ (index_block si ++ (bloom_block (some f) ++ table_footer es si)))
            (ap table_bytes split ∙ table_bytes-split front e back)
          ∙ simp append_assoc

  pub next-end : (front : List Entry) → es ≡ front → next (iter_behind front) ≡ ok none
  unfolding next
  next-end front split = rw past refl
    where
      past : leb (length (table_bytes es)) (length (table_bytes front)) ≡ true
      past = let a = ap (λ l. length (table_bytes l)) split in ground arith

  pub iter_behind-Yields :
      (front back : List Entry)
      → es ≡ front ++ back
      → All IsGoEntry back
      → Yields (iter_behind front) back
  iter_behind-Yields front [] split h = next-end front (split ∙ append-nil front)
  iter_behind-Yields front (e ∷ back) split h =
      let now = next-iter_behind front e back split h.0 in
      let moved : after (iter_behind front) ≡ iter_behind (front ++ e ∷ []) =
        unfold after in rw now refl in
      rw moved (
        now,
        refl,
        iter_behind-Yields (front ++ e ∷ []) back (split ∙ sym (append_assoc front (e ∷ []) back))
            h.1,
      )

pub length-le-bytes : (es : List Entry) → length es ≤ length (table_bytes es)
unfolding table_bytes
length-le-bytes [] = omega arith
length-le-bytes (e ∷ es) = omega (
  arith,
  length-le-bytes es,
  length-append (entry_bytes e) (table_bytes es),
  length-entry_bytes-pos e,
)
