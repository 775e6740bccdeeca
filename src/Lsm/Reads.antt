-- ===== src/Lsm/Reads.antt =====
-- What Get answers.
use lsm_tree_go.Common.{
  ◌⊎◌, ◌+◌, sym, true, false, ◌≡◌, refl, ◌∙◌, Bool, Option, none, some, List, [], ◌∷◌, length,
  Option-cases, inl, inr,
}
use lsm_tree_go.Common.Keys.{Bytes}
use lsm_tree_go.Common.Outcome.{Outcome, ok, fail, panic, Outcome-eq_of_ok}
use lsm_tree_go.MemTable
use lsm_tree_go.MemTable.{Entry, MemTable}
use lsm_tree_go.MemTable.Sorted.{find}
use lsm_tree_go.SsTable.Reader
use lsm_tree_go.SsTable.Reader.{SsTable}
use lsm_tree_go.Lsm.{Stats, Lsm, visible, search_files, search_levels, get}

-- The table answers for the key as the entries `es` do.
abbrev pub Serves : Bytes → SsTable → List Entry → Type 0
Serves key sst es = Reader.get key sst ≡ ok (find key es)

abbrev pub ServesAll : Bytes → List SsTable → List (List Entry) → Type 0
ServesAll key [] [] = Unit {0}
ServesAll key [] (es ∷ ess) = ⊥
ServesAll key (s ∷ ss) [] = ⊥
ServesAll key (s ∷ ss) (es ∷ ess) = Serves key s es × ServesAll key ss ess

abbrev pub ServesLevels : Bytes → List (List SsTable) → List (List (List Entry)) → Type 0
ServesLevels key [] [] = Unit {0}
ServesLevels key [] (ess ∷ lss) = ⊥
ServesLevels key (l ∷ ls) [] = ⊥
ServesLevels key (l ∷ ls) (ess ∷ lss) = ServesAll key l ess × ServesLevels key ls lss

abbrev pub or_else : Option Entry → Option Entry → Option Entry
or_else (some e) o = some e
or_else none o = o

-- The first entry for the key in the tables of a level, in their order, and of all levels.
unfoldable pub first_in : Bytes → List (List Entry) → Option Entry
first_in key [] = none
first_in key (es ∷ ess) = or_else (find key es) (first_in key ess)

unfoldable pub first_below : Bytes → List (List (List Entry)) → Option Entry
first_below key [] = none
first_below key (ess ∷ lss) = or_else (first_in key ess) (first_below key lss)

abbrev pub shown : Option Entry → Option Bytes
shown none = none
shown (some e) = visible e

-- A filter that says no is right about it: `Get` asks it too.
may_contain_cases :
    (key : Bytes) (sst : SsTable) (es : List Entry)
    → Serves key sst es
    → ((Reader.may_contain key sst ≡ ok false) × (find key es ≡ none))
      ⊎ (Reader.may_contain key sst ≡ ok true)
may_contain_cases key sst es h = by_filter (Reader.may_contain key sst) refl
  where
    no_entry : Reader.may_contain key sst ≡ ok false → Reader.get key sst ≡ ok none
    no_entry e = unfold Reader.get in rw e refl

    by_filter :
        (hit : Outcome Bool)
        → Reader.may_contain key sst ≡ hit
        → ((Reader.may_contain key sst ≡ ok false) × (find key es ≡ none))
          ⊎ (Reader.may_contain key sst ≡ ok true)
    by_filter (ok true) e = inr e
    by_filter (ok false) e = inl (e, Outcome-eq_of_ok (find key es) none (sym h ∙ no_entry e))
    by_filter (fail x) e =
        let p : Reader.get key sst ≡ fail x = unfold Reader.get in rw e refl in let q = h in cc
    by_filter panic e =
        let p : Reader.get key sst ≡ panic = unfold Reader.get in rw e refl in let q = h in cc

search_files_lem :
    (key : Bytes) (files : List SsTable) (ess : List (List Entry)) (st : Stats)
    → ServesAll key files ess
    → (st' : Stats) × (search_files key files st ≡ ok (first_in key ess, st'))
unfolding search_files first_in
search_files_lem key [] [] st h = (st, refl)
search_files_lem key [] (es ∷ ess) st h = absurd h
search_files_lem key (s ∷ files) [] st h = absurd h
search_files_lem key (s ∷ files) (es ∷ ess) st h =
    let skipped : Stats = record st { bloom_filter_skips = st.bloom_filter_skips + 1 } in
    let opened : Stats = record st { files_opened = st.files_opened + 1 } in
    let after_skip = search_files_lem key files ess skipped h.1 in
    let after_open = search_files_lem key files ess opened h.1 in
    elim (may_contain_cases key s es h.0) [
      | inl (skips, absent) ↦ (after_skip.0, rw (skips, absent) after_skip.1)
      | inr opens ↦ elim (Option-cases (find key es)) [
        | inl none_here ↦ (after_open.0, rw (opens, h.0, none_here) after_open.1)
        | inr (e, here) ↦ (opened, rw (opens, h.0, here) refl)
      ]
    ]

search_levels_lem :
    (key : Bytes) (levels : List (List SsTable)) (lss : List (List (List Entry))) (st : Stats)
    → ServesLevels key levels lss
    → (st' : Stats) × (search_levels key (length levels) levels st ≡ ok (first_below key lss, st'))
unfolding search_levels first_below
search_levels_lem key [] [] st h = (st, refl)
search_levels_lem key [] (ess ∷ lss) st h = absurd h
search_levels_lem key (l ∷ levels) [] st h = absurd h
search_levels_lem key (l ∷ levels) (ess ∷ lss) st h =
    let (st', e) = search_files_lem key l ess st h.0 in
    let (st'', e') = search_levels_lem key levels lss st' h.1 in
    elim (Option-cases (first_in key ess)) [
      | inl nothing ↦ (st'', rw (e, nothing) e')
      | inr (x, found) ↦ (st', rw (e, found) refl)
    ]

-- Where there are `numLevels` levels and every table's `Get` answers as a list of entries does, `Get` of the
-- tree answers from the memtable if it has an entry for the key, and else with the first entry of the levels,
-- table after table in the order they were added; a tombstone found first reads as nothing. Only the counters
-- change.
pub get_lem :
    (key : Bytes) (l : Lsm) (lss : List (List (List Entry)))
    → l.num_levels ≡ length l.levels
    → ServesLevels key l.levels lss
    → (st : Stats) × (get key l
        ≡ ok (
          shown (or_else (MemTable.get key l.memtable) (first_below key lss)),
          record l { stats = st },
        ))
unfolding get
get_lem key l lss n h =
    let (st, e) = search_levels_lem key l.levels lss l.stats h in
    elim (Option-cases (MemTable.get key l.memtable)) [
      | inl nothing ↦ (st, rw (nothing, n, e) refl)
      | inr (x, found) ↦ (l.stats, rw found refl)
    ]
