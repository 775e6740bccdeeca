-- ===== src/Lsm/Deepest.antt =====
-- The depth of compactLevel's own calls.
use lsm_tree_go.Common.{
  ℕ, zero, suc, ◌+◌, ◌-◌, ◌≤◌, ◌≡◌, refl, ap, true, ◌||◌, Option, none, some, List, [], ◌∷◌, ◌++◌,
  length, ltb, leb, ◌==◌, arith, Bool-cases, inl, inr, if◌then◌else◌,
}
use lsm_tree_go.Common.Keys.{Bytes}
use lsm_tree_go.Common.Outcome.{Error, Outcome, ok}
use lsm_tree_go.Common.Ensures.{
  Ensures, Ensures->>=, Ensures-on_fail, Ensures-any, >>=-congr, on_fail-congr,
}
use lsm_tree_go.SsTable.Writer.{Os}
use lsm_tree_go.SsTable.Reader.{SsTable}
use lsm_tree_go.Compaction
use lsm_tree_go.Compaction.{Disk, level_size, do_compact}
use lsm_tree_go.Lsm.{Lsm}
use lsm_tree_go.Lsm.Manifest.{write_manifest}
use lsm_tree_go.Lsm.Compact.{
  set_level, set_size, level_at, size_at, remove_files, open_quickly, attach, attach_outputs,
  and_then, count_compaction, replace_level, go_on, compact_into_next, compact_level,
}

module _ (n : ℕ) where
  -- The tree has `n` levels.
  abbrev HasLevels : Lsm → Type 0
  HasLevels l = l.num_levels ≡ n

  abbrev LeavesLevels : Lsm × Option Error → Type 0
  LeavesLevels q = HasLevels q.0

  remove_files-HasLevels :
      (i : ℕ) (files : List SsTable) (l : Lsm)
      → HasLevels l
      → Ensures HasLevels (remove_files i files l)
  unfolding remove_files set_size
  remove_files-HasLevels i [] l h = h
  remove_files-HasLevels i (sst ∷ files) l h =
      Ensures->>= (λ s. Unit {0}) HasLevels (size_at i l) _ (Ensures-any (size_at i l))
        (λ size u. remove_files-HasLevels i files _ h)

  attach-HasLevels :
      (i : ℕ) (sst : SsTable) (l : Lsm) → HasLevels l → Ensures HasLevels (attach i sst l)
  unfolding attach set_size set_level
  attach-HasLevels i sst l h =
      Ensures->>= (λ s. Unit {0}) HasLevels (level_at i l) _ (Ensures-any (level_at i l))
        (λ files u.
          Ensures->>= (λ s. Unit {0}) HasLevels (size_at i l) _ (Ensures-any (size_at i l))
            (λ size v. h))

  attach_outputs-LeavesLevels :
      (os : Os) (i : ℕ) (paths : List Bytes) (l : Lsm)
      → HasLevels l
      → Ensures LeavesLevels (attach_outputs os i paths l)
  unfolding attach_outputs
  attach_outputs-LeavesLevels os i [] l h = h
  attach_outputs-LeavesLevels os i (path ∷ paths) l h =
      Ensures-on_fail (λ s. Unit {0}) LeavesLevels (open_quickly os path l.disk) _ _
        (Ensures-any (open_quickly os path l.disk)) (λ e. h)
        (λ sst u.
          Ensures->>= HasLevels LeavesLevels (attach i sst l) _ (attach-HasLevels i sst l h)
            (λ l' k. attach_outputs-LeavesLevels os i paths l' k))

  write_manifest-LeavesLevels :
      (os : Os) (l : Lsm) → HasLevels l → LeavesLevels (write_manifest os l)
  unfolding write_manifest
  write_manifest-LeavesLevels os l h = ground (arith, h)

  count_compaction-HasLevels :
      (stats : Option Compaction.Stats) (l : Lsm)
      → HasLevels l
      → HasLevels (count_compaction stats l)
  unfolding count_compaction
  count_compaction-HasLevels none l h = h
  count_compaction-HasLevels (some s) l h = h

  and_then-congr :
      (q : Lsm × Option Error) (f g : Lsm → Outcome (Lsm × Option Error))
      → LeavesLevels q
      → ((l : Lsm) → HasLevels l → f l ≡ g l)
      → and_then q f ≡ and_then q g
  and_then-congr (l, some e) f g k h = refl
  and_then-congr (l, none) f g k h = h l k

  replace_level-congr :
      (os : Os) (level : ℕ) (files next_files : List SsTable) (paths : List Bytes)
      (f g : Lsm → Outcome (Lsm × Option Error)) (l : Lsm)
      → HasLevels l
      → ((l' : Lsm) → HasLevels l' → f l' ≡ g l')
      → replace_level os level files next_files paths f l
        ≡ replace_level os level files next_files paths g l
  unfolding replace_level set_level
  replace_level-congr os level files next_files paths f g l k h =
      >>=-congr HasLevels (remove_files level files l) _ _ (remove_files-HasLevels level files l k)
        (λ one k1.
          >>=-congr HasLevels (remove_files (level + 1) next_files (set_level level [] one)) _ _
            (remove_files-HasLevels (level + 1) next_files (set_level level [] one) k1)
            (λ two k2.
              >>=-congr LeavesLevels
                (attach_outputs os (level + 1) paths (set_level (level + 1) [] two)) _ _
                (attach_outputs-LeavesLevels os (level + 1) paths (set_level (level + 1) [] two) k2)
                (λ attached k3. and_then-congr attached _ _ k3 (λ done k4.
                  and_then-congr (write_manifest os done) f g
                    (write_manifest-LeavesLevels os done k4) h))))

  compact_into_next-congr :
      (os : Os) (level : ℕ) (f g : Lsm → Outcome (Lsm × Option Error)) (l : Lsm)
      → HasLevels l
      → ((l' : Lsm) → HasLevels l' → f l' ≡ g l')
      → compact_into_next os level f l ≡ compact_into_next os level g l
  unfolding compact_into_next
  compact_into_next-congr os level f g l k h =
      >>=-congr (λ s. Unit {0}) (level_at level l) _ _ (Ensures-any (level_at level l))
        (λ files u.
          >>=-congr (λ s. Unit {0}) (level_at (level + 1) l) _ _
            (Ensures-any (level_at (level + 1) l))
            (λ next_files v.
              let compacting =
                do_compact os (files ++ next_files) l.dir (level + 1) l.next_id l.disk in
              elim (Bool-cases (length files == 0)) [
                | inl empty ↦ rw empty refl
                | inr some_files ↦ rw some_files (
                    on_fail-congr (λ s. Unit {0}) compacting _ _ _ (Ensures-any compacting)
                      (λ (paths, stats, disk) w.
                        replace_level-congr os level files next_files paths f g
                          (count_compaction stats (record l { disk = disk }))
                          (count_compaction-HasLevels stats (record l { disk = disk }) k) h))
              ]))

  compact_level-same :
      (a b : ℕ) (os : Os) (level : ℕ) (l : Lsm)
      → HasLevels l
      → n ≤ level + a + 1
      → n ≤ level + b + 1
      → compact_level a os level l ≡ compact_level b os level l
  unfolding compact_level
  compact_level-same zero zero os level l k p q = refl
  compact_level-same zero (suc b) os level l k p q =
      let out : (ltb level 1 || leb (l.num_levels - 1) level) ≡ true = ground (arith, k, p) in
      rw out refl
  compact_level-same (suc a) zero os level l k p q =
      let out : (ltb level 1 || leb (l.num_levels - 1) level) ≡ true = ground (arith, k, q) in
      rw out refl
  compact_level-same (suc a) (suc b) os level l k p q =
      let again = λ (l' : Lsm) (k' : HasLevels l').
        ap (λ r. go_on (level + 1) l' r)
          (compact_level-same a b os (level + 1) l' k' (omega arith) (omega arith)) in
      ap (λ r. if ltb level 1 || leb (l.num_levels - 1) level then ok (l, none) else r)
        (compact_into_next-congr os level _ _ l k again)

-- With a round for each level of the tree, compactLevel has come to its end: more rounds change nothing.
pub compact_level_fuel :
    (fuel more : ℕ) (os : Os) (level : ℕ) (l : Lsm)
    → l.num_levels ≤ fuel
    → compact_level (fuel + more) os level l ≡ compact_level fuel os level l
compact_level_fuel fuel more os level l h =
    compact_level-same l.num_levels (fuel + more) fuel os level l refl (omega arith) (omega arith)
