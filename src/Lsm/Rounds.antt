-- ===== src/Lsm/Rounds.antt =====
-- compactL0ToL1, compactLevel and the rounds of compactionLoop, and the invariant of the tree.
use lsm_tree_go.Common.{
  ℕ, zero, suc, ◌+◌, ◌-◌, ◌≡◌, refl, ap, ◌∙◌, false, ◌&&◌, ◌||◌, Option, none, some, List, [], ◌∷◌,
  ◌++◌, length, take, drop, get_elem?, ltb, leb, ◌==◌, Bool-cases, inl, inr,
}
use lsm_tree_go.Common.Outcome.{Error, Outcome, ◌>>=◌, or_panic}
use lsm_tree_go.Common.Ensures.{
  Ensures, Ensures-or_panic, Ensures->>=, Ensures-on_fail, Ensures-any,
}
use lsm_tree_go.SsTable.Writer.{Os}
use lsm_tree_go.SsTable.Reader.{SsTable, min_key, max_key}
use lsm_tree_go.Compaction
use lsm_tree_go.Compaction.{Disk, level_size, do_compact}
use lsm_tree_go.Lsm.{Lsm}
use lsm_tree_go.Lsm.Compact.{
  level_at, size_at, count_compaction, sort_by_path, batch_size, key_range, overlapping,
  non_overlapping, compact_l0_to_l1, compact_level, compact_large, compact_l0_files, go_on,
  compact_into_next, compaction_round,
}
use lsm_tree_go.Lsm.Consistent.{IsConsistent, Leaves, count_compaction-IsConsistent}
use lsm_tree_go.Lsm.Replaced.{
  IsTree, data_sizes-sort_by_path, data_sizes-take-drop, data_sizes-overlapping, replace_l0-Leaves,
  replace_level-Leaves,
}

-- What level_at gives is the level.
at_level :
    (i : ℕ) (l : Lsm) (f : List SsTable → Outcome (Lsm × Option Error))
    → ((files : List SsTable) → get_elem? l.levels i ≡ some files → Leaves (f files))
    → Leaves (level_at i l >>= f)
unfolding level_at
at_level i l f h =
    Ensures->>= (λ files. get_elem? l.levels i ≡ some files) IsTree
      (or_panic (get_elem? l.levels i)) f
      (Ensures-or_panic (λ files. get_elem? l.levels i ≡ some files) (get_elem? l.levels i)
        (λ files e. e))
      h

-- The files and the counters change, and the levels do not.
compacted-IsConsistent :
    (stats : Option Compaction.Stats) (disk : Disk) (l : Lsm)
    → IsConsistent l
    → IsConsistent (count_compaction stats (record l { disk = disk }))
compacted-IsConsistent stats disk l c =
    count_compaction-IsConsistent stats (record l { disk = disk }) c

same_levels :
    (stats : Option Compaction.Stats) (disk : Disk) (l : Lsm)
    → (count_compaction stats (record l { disk = disk })).levels ≡ l.levels
unfolding count_compaction
same_levels none disk l = refl
same_levels (some s) disk l = refl

level_of :
    (stats : Option Compaction.Stats) (disk : Disk) (l : Lsm) (i : ℕ) (files : List SsTable)
    → get_elem? l.levels i ≡ some files
    → get_elem? (count_compaction stats (record l { disk = disk })).levels i ≡ some files
level_of stats disk l i files h = ap (λ ls. get_elem? ls i) (same_levels stats disk l) ∙ h

compact_l0_files-Leaves :
    (os : Os) (l : Lsm) (files : List SsTable)
    → IsConsistent l
    → get_elem? l.levels 0 ≡ some files
    → Leaves (compact_l0_files os l files)
unfolding compact_l0_files
compact_l0_files-Leaves os l [] c h = c
compact_l0_files-Leaves os l (f ∷ fs) c h =
    let sorted = sort_by_path (f ∷ fs) in
    let n = batch_size (length sorted) l.max_l0_files in
    let to_compact = take n sorted in
    Ensures->>= (λ s. Unit {0}) IsTree (or_panic (get_elem? to_compact 0)) _
      (Ensures-any (or_panic (get_elem? to_compact 0)))
      (λ first u.
        let (low, high) = key_range (drop 1 to_compact) (min_key first) (max_key first) in
        at_level 1 l _ (λ l1 h1.
          let compacting =
            do_compact os (to_compact ++ overlapping low high l1) l.dir 1 l.next_id l.disk in
          Ensures-on_fail (λ q. Unit {0}) IsTree compacting _ _ (Ensures-any compacting) (λ e. c)
            (λ (paths, stats, disk) u.
              replace_l0-Leaves os to_compact (drop n sorted) (overlapping low high l1)
                (non_overlapping low high l1) (f ∷ fs) l1 paths
                (count_compaction stats (record l { disk = disk }))
                (compacted-IsConsistent stats disk l c) (level_of stats disk l 0 (f ∷ fs) h)
                (level_of stats disk l 1 l1 h1)
                (data_sizes-take-drop n sorted ∙ data_sizes-sort_by_path (f ∷ fs))
                (data_sizes-overlapping low high l1))))

-- compactL0ToL1 leaves a consistent tree, whether it ends with an error or not.
pub compact_l0_to_l1-Leaves : (os : Os) (l : Lsm) → IsConsistent l → Leaves (compact_l0_to_l1 os l)
unfolding compact_l0_to_l1
compact_l0_to_l1-Leaves os l c =
    at_level 0 l (λ files. compact_l0_files os l files)
      (λ files h. compact_l0_files-Leaves os l files c h)

compact_into_next-Leaves :
    (os : Os) (level : ℕ) (rest : Lsm → Outcome (Lsm × Option Error)) (l : Lsm)
    → IsConsistent l
    → ((l' : Lsm) → IsConsistent l' → Leaves (rest l'))
    → Leaves (compact_into_next os level rest l)
unfolding compact_into_next
compact_into_next-Leaves os level rest l c hr = at_level level l _ (λ files h0.
    at_level (level + 1) l _ (λ next_files h1.
      let compacting = do_compact os (files ++ next_files) l.dir (level + 1) l.next_id l.disk in
      elim (Bool-cases (length files == 0)) [
        | inl empty ↦ rw empty c
        | inr some_files ↦ rw some_files (
            Ensures-on_fail (λ q. Unit {0}) IsTree compacting _ _ (Ensures-any compacting) (λ e. c)
              (λ (paths, stats, disk) u.
                replace_level-Leaves os level files next_files paths rest
                  (count_compaction stats (record l { disk = disk }))
                  (compacted-IsConsistent stats disk l c) (level_of stats disk l level files h0)
                  (level_of stats disk l (level + 1) next_files h1) hr))
      ]))

go_on-Leaves :
    (next_level : ℕ) (l : Lsm) (again : Outcome (Lsm × Option Error))
    → IsConsistent l
    → Leaves again
    → Leaves (go_on next_level l again)
unfolding go_on
go_on-Leaves next_level l again c h =
    Ensures->>= (λ n. Unit {0}) IsTree (size_at next_level l) _ (Ensures-any (size_at next_level l))
      (λ size u.
        elim (Bool-cases (
          ltb (level_size l.base_level_size next_level) size
          && ltb next_level (l.num_levels - 1))) [ inl on ↦ rw on h | inr off ↦ rw off c ])

-- compactLevel leaves a consistent tree, whatever levels it goes on to.
pub compact_level-Leaves :
    (fuel : ℕ) (os : Os) (level : ℕ) (l : Lsm)
    → IsConsistent l
    → Leaves (compact_level fuel os level l)
unfolding compact_level
compact_level-Leaves zero os level l c = c
compact_level-Leaves (suc fuel) os level l c =
    let again = λ (l' : Lsm) (d : IsConsistent l').
      go_on-Leaves (level + 1) l' (compact_level fuel os (level + 1) l') d
        (compact_level-Leaves fuel os (level + 1) l' d) in
    elim (Bool-cases (ltb level 1 || leb (l.num_levels - 1) level)) [
      | inl out ↦ rw out c
      | inr inside ↦ rw inside (compact_into_next-Leaves os level _ l c again)
    ]

compact_large-IsConsistent :
    (rounds : ℕ) (os : Os) (level : ℕ) (l : Lsm)
    → IsConsistent l
    → Ensures IsConsistent (compact_large rounds os level l)
unfolding compact_large
compact_large-IsConsistent zero os level l c = c
compact_large-IsConsistent (suc rounds) os level l c =
    Ensures->>= (λ n. Unit {0}) IsConsistent (size_at level l) _ (Ensures-any (size_at level l))
      (λ size u.
        Ensures->>= IsTree IsConsistent _ _
          (elim (Bool-cases (ltb (level_size l.base_level_size level) size)) [
            | inl large ↦ rw large (compact_level-Leaves l.num_levels os level l c)
            | inr small ↦ rw small c
          ])
          (λ done d. compact_large-IsConsistent rounds os (level + 1) done.0 d))

-- A round of compactionLoop leaves a consistent tree.
pub compaction_round-IsConsistent :
    (os : Os) (l : Lsm) → IsConsistent l → Ensures IsConsistent (compaction_round os l)
unfolding compaction_round
compaction_round-IsConsistent os l c =
    let taken : Lsm = record l { signalled = false } in
    let d : IsConsistent taken = c in
    Ensures->>= (λ n. Unit {0}) IsConsistent (level_at 0 taken) _ (Ensures-any (level_at 0 taken))
      (λ files u.
        Ensures->>= IsTree IsConsistent _ _
          (elim (Bool-cases (ltb l.max_l0_files (length files))) [
            | inl many ↦ rw many (compact_l0_to_l1-Leaves os taken d)
            | inr few ↦ rw few d
          ])
          (λ done e. compact_large-IsConsistent (l.num_levels - 2) os 1 done.0 e))
