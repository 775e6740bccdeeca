-- ===== src/Lsm/Reached.antt =====
-- The step relation of the tree, from Open on, and its invariant.
use lsm_tree_go.Common.{
  ℕ, zero, suc, ◌+◌, ◌≡◌, refl, ◌∙◌, Bool, Option, none, some, List, [], ◌∷◌, Bool-cases,
  Option-cases, inl, inr,
}
use lsm_tree_go.Common.Int.{ℤ}
use lsm_tree_go.Common.Keys.{Bytes}
use lsm_tree_go.Common.Outcome.{Error, Outcome, ok}
use lsm_tree_go.Common.Ensures.{Ensures, Ensures->>=, Ensures-ok, Ensures-any}
use lsm_tree_go.MemTable.{Entry}
use lsm_tree_go.SsTable.Writer.{Os}
use lsm_tree_go.SsTable.Reader.{SsTable}
use lsm_tree_go.Compaction.{Disk}
use lsm_tree_go.MemTable
use lsm_tree_go.SsTable.Reader
use lsm_tree_go.Lsm.{Lsm, Stats, KeyValue, get, or_next, search_files, search_levels, delete}
use lsm_tree_go.Lsm.Compact.{compaction_round}
use lsm_tree_go.Lsm.Consistent.{IsConsistent}
use lsm_tree_go.Lsm.Rounds.{compaction_round-IsConsistent}
use lsm_tree_go.Lsm.Kept.{put_batch-Leaves, delete-Leaves}
use lsm_tree_go.Lsm.Flush.{put_batch, Options, open_tree}
use lsm_tree_go.Lsm.Opened.{open_tree-IsConsistent}

-- One call that takes the lock, or a round of the background loop. What the system calls, the clock and the
-- ring give may be different every time, and a call may end with an error.
pub data Step : Lsm → Lsm → Type 0 where
  step_put :
      (submit : Bytes → Option Error) (os : Os) (ring_ok : Bool) (ts : ℤ) (kvs : List KeyValue)
      (e : Option Error) {l l' : Lsm}
      → put_batch submit os ring_ok ts kvs l ≡ ok (l', e)
      → Step l l'
  step_delete :
      (submit : Bytes → Option Error) (os : Os) (ts : ℤ) (key : Bytes) (e : Option Error)
      {l l' : Lsm}
      → delete submit os ts key l ≡ ok (l', e)
      → Step l l'
  step_get : (key : Bytes) (v : Option Bytes) {l l' : Lsm} → get key l ≡ ok (v, l') → Step l l'
  step_round : (os : Os) {l l' : Lsm} → compaction_round os l ≡ ok l' → Step l l'

-- The states that a tree goes through once Open has returned it.
pub data IsReached : Lsm → Type 0 where
  opened :
      (os : Os) (ring_ok : Bool) (opts : Options) (now : ℕ) (log : Bytes) (disk : Disk)
      (manifest : Option (List (List Bytes))) {l : Lsm}
      → open_tree os ring_ok opts now log disk manifest ≡ ok l
      → IsReached l
  stepped : {l l' : Lsm} → IsReached l → Step l l' → IsReached l'

-- Get counts, and leaves the sizes of the levels as they are.
module _ (key : Bytes) (sizes : List ℕ) where
  abbrev Keeps : Option Entry × Stats → Type 0
  Keeps p = p.1.level_sizes ≡ sizes

  or_next-Keeps :
      (p : Option Entry × Stats) (next : Stats → Outcome (Option Entry × Stats))
      → Keeps p
      → ((st : Stats) → st.level_sizes ≡ sizes → Ensures Keeps (next st))
      → Ensures Keeps (or_next p next)
  or_next-Keeps (some e, st) next k h = k
  or_next-Keeps (none, st) next k h = h st k

  search_files-Keeps :
      (files : List SsTable) (st : Stats)
      → st.level_sizes ≡ sizes
      → Ensures Keeps (search_files key files st)
  unfolding search_files
  search_files-Keeps [] st h = h
  search_files-Keeps (sst ∷ files) st h =
      let skipped : Stats = record st { bloom_filter_skips = st.bloom_filter_skips + 1 } in
      let opened : Stats = record st { files_opened = st.files_opened + 1 } in
      let skip = search_files-Keeps files skipped h in
      let more = λ (st' : Stats) (k : st'.level_sizes ≡ sizes). search_files-Keeps files st' k in
      Ensures->>= (λ b. Unit {0}) Keeps (Reader.may_contain key sst) _
        (Ensures-any (Reader.may_contain key sst))
        (λ hit u. elim (Bool-cases hit) [
          | inl yes_hit ↦ rw yes_hit (
              Ensures->>= (λ e. Unit {0}) Keeps (Reader.get key sst) _
                (Ensures-any (Reader.get key sst)) (λ e v. or_next-Keeps (e, opened) _ h more))
          | inr no_hit ↦ rw no_hit skip
        ])

  search_levels-Keeps :
      (n : ℕ) (levels : List (List SsTable)) (st : Stats)
      → st.level_sizes ≡ sizes
      → Ensures Keeps (search_levels key n levels st)
  unfolding search_levels
  search_levels-Keeps zero levels st h = h
  search_levels-Keeps (suc n) [] st h = tt
  search_levels-Keeps (suc n) (files ∷ levels) st h =
      let more =
        λ (st' : Stats) (k : st'.level_sizes ≡ sizes). search_levels-Keeps n levels st' k in
      Ensures->>= Keeps Keeps (search_files key files st) _ (search_files-Keeps files st h)
        (λ p k. or_next-Keeps p _ k more)

get-IsConsistent :
    (key : Bytes) (l : Lsm) → IsConsistent l → Ensures (λ p. IsConsistent p.1) (get key l)
unfolding get
get-IsConsistent key l c = elim (Option-cases (MemTable.get key l.memtable)) [
  | inr (x, found) ↦ rw found c
  | inl nothing ↦ rw nothing (
      Ensures->>= (Keeps key l.stats.level_sizes) (λ p. IsConsistent p.1)
        (search_levels key l.num_levels l.levels l.stats) _
        (search_levels-Keeps key l.stats.level_sizes l.num_levels l.levels l.stats refl)
        (λ p k. record { sizes = k ∙ c.sizes; counted = c.counted; valid = c.valid }))
]

Step-IsConsistent : {l l' : Lsm} → Step l l' → IsConsistent l → IsConsistent l'
Step-IsConsistent {l} {l'} (step_put submit os ring_ok ts kvs e h) c =
    Ensures-ok (λ q. IsConsistent q.0) (put_batch submit os ring_ok ts kvs l) (l', e) h
      (put_batch-Leaves submit os ring_ok ts kvs l c)
Step-IsConsistent {l} {l'} (step_delete submit os ts key e h) c =
    Ensures-ok (λ q. IsConsistent q.0) (delete submit os ts key l) (l', e) h
      (delete-Leaves submit os ts key l c)
Step-IsConsistent {l} {l'} (step_get key v h) c =
    Ensures-ok (λ p. IsConsistent p.1) (get key l) (v, l') h (get-IsConsistent key l c)
Step-IsConsistent {l} {l'} (step_round os h) c =
    Ensures-ok IsConsistent (compaction_round os l) l' h (compaction_round-IsConsistent os l c)

-- Whatever tables, log and manifest a tree is opened on, and whatever calls and background rounds follow, as
-- long as each leaves a tree behind, with an error or without: LevelSizes has the size of every level, there
-- are NumLevels levels, and the memtable is in order.
pub IsReached-IsConsistent : (l : Lsm) → IsReached l → IsConsistent l
IsReached-IsConsistent l (opened os ring_ok opts now log disk manifest h) =
    Ensures-ok IsConsistent (open_tree os ring_ok opts now log disk manifest) l h
      (open_tree-IsConsistent os ring_ok opts now log disk manifest)
IsReached-IsConsistent l (stepped {l = l1} r s) = Step-IsConsistent s (IsReached-IsConsistent l1 r)
