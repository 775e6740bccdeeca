-- ===== src/Lsm/Replaced.antt =====
-- The ends of compactL0ToL1 and compactLevel, from the removal of the inputs on, and the invariant of the tree.
use lsm_tree_go.Common.{
  ℕ, zero, suc, ◌+◌, ◌-◌, ◌≡◌, refl, ◌∙◌, Option, some, List, [], ◌∷◌, take, drop, get_elem?, arith,
  get_elem?-set_ne,
}
use lsm_tree_go.Common.Keys.{Bytes}
use lsm_tree_go.Common.Outcome.{Error, Outcome, ok, ◌>>=◌}
use lsm_tree_go.Common.Ensures.{Ensures->>=}
use lsm_tree_go.SsTable.Writer.{Os}
use lsm_tree_go.SsTable.Reader.{SsTable}
use lsm_tree_go.Lsm.{Lsm}
use lsm_tree_go.Lsm.Manifest.{write_manifest}
use lsm_tree_go.Lsm.Compact.{
  set_level, set_size, attach_outputs, and_then, insert_by_path, sort_by_path, overlapping,
  non_overlapping, data_sizes, replace_l0, replace_level,
}
use lsm_tree_go.Lsm.Consistent.{
  IsConsistent, Leaves, size_of_level, set-IsConsistent, without, remove_files_lem,
  attach_outputs-Leaves, and_then-Leaves, write_manifest-IsConsistent,
}

abbrev pub IsTree : Lsm × Option Error → Type 0
IsTree q = IsConsistent q.0

data_sizes-insert_by_path :
    (s : SsTable) (ts : List SsTable)
    → data_sizes (insert_by_path s ts) ≡ s.data_size + data_sizes ts
unfolding insert_by_path
data_sizes-insert_by_path s [] = refl
data_sizes-insert_by_path s (t ∷ ts) = ground (arith, data_sizes-insert_by_path s ts)

pub data_sizes-sort_by_path : (ts : List SsTable) → data_sizes (sort_by_path ts) ≡ data_sizes ts
unfolding sort_by_path
data_sizes-sort_by_path [] = refl
data_sizes-sort_by_path (s ∷ ts) =
    omega (arith, data_sizes-insert_by_path s (sort_by_path ts), data_sizes-sort_by_path ts)

pub data_sizes-take-drop :
    (n : ℕ) (ts : List SsTable) → data_sizes (take n ts) + data_sizes (drop n ts) ≡ data_sizes ts
unfolding take drop
data_sizes-take-drop zero ts = omega arith
data_sizes-take-drop (suc n) [] = refl
data_sizes-take-drop (suc n) (t ∷ ts) = omega (arith, data_sizes-take-drop n ts)

pub data_sizes-overlapping :
    (low high : Bytes) (ts : List SsTable)
    → data_sizes (overlapping low high ts) + data_sizes (non_overlapping low high ts)
      ≡ data_sizes ts
unfolding overlapping non_overlapping
data_sizes-overlapping low high [] = refl
data_sizes-overlapping low high (t ∷ ts) = ground (arith, data_sizes-overlapping low high ts)

-- The end of a compaction: the outputs, the manifest and what comes then.
closing-Leaves :
    (os : Os) (i : ℕ) (paths : List Bytes) (l : Lsm)
    (next : Lsm × Option Error → Outcome (Lsm × Option Error))
    → IsConsistent l
    → ((q : Lsm × Option Error) → IsConsistent q.0 → Leaves (next q))
    → Leaves (
        attach_outputs os i paths l >>= λ attached.
        and_then attached (λ done. next (write_manifest os done)))
closing-Leaves os i paths l next c h =
    Ensures->>= IsTree IsTree (attach_outputs os i paths l) _ (attach_outputs-Leaves os i paths l c)
      (λ q d.
        and_then-Leaves q _ d
          (λ done e. h (write_manifest os done) (write_manifest-IsConsistent os done e)))

-- What is left of a level's size.
left_size :
    (gone stays all : List SsTable)
    → data_sizes gone + data_sizes stays ≡ data_sizes all
    → data_sizes all - data_sizes gone ≡ data_sizes stays
left_size gone stays all h = omega arith

pub replace_l0-Leaves :
    (os : Os) (to_compact remaining overlap apart l0 l1 : List SsTable) (paths : List Bytes)
    (l : Lsm)
    → IsConsistent l
    → get_elem? l.levels 0 ≡ some l0
    → get_elem? l.levels 1 ≡ some l1
    → data_sizes to_compact + data_sizes remaining ≡ data_sizes l0
    → data_sizes overlap + data_sizes apart ≡ data_sizes l1
    → Leaves (replace_l0 os to_compact remaining overlap apart paths l)
unfolding replace_l0
replace_l0-Leaves os to_compact remaining overlap apart l0 l1 paths l c h0 h1 s0 s1 =
    let one = remove_files_lem 0 to_compact l (data_sizes l0) (size_of_level l 0 l0 c h0) in
    let l' : Lsm =
      set_size 0 (data_sizes remaining) (record l { disk = without to_compact l.disk }) in
    let two = remove_files_lem 1 overlap l' (data_sizes l1) (
      unfold set_size in
      get_elem?-set_ne l.stats.level_sizes 0 1 (data_sizes remaining) (λ e. absurd (omega arith))
      ∙ size_of_level l 1 l1 c h1) in
    rw (one, left_size to_compact remaining l0 s0, two, left_size overlap apart l1 s1)
      (closing-Leaves os 1 paths
        (set_level 1 apart (
          set_level 0 remaining
            (set_size 1 (data_sizes apart) (record l' { disk = without overlap l'.disk }))))
        ok
        (unfold set_level set_size in
          set-IsConsistent 1 apart
            (set_level 0 remaining (record l' { disk = without overlap l'.disk }))
            (set-IsConsistent 0 remaining (record l { disk = without overlap l'.disk }) c))
        (λ q d. d))

pub replace_level-Leaves :
    (os : Os) (level : ℕ) (files next_files : List SsTable) (paths : List Bytes)
    (rest : Lsm → Outcome (Lsm × Option Error)) (l : Lsm)
    → IsConsistent l
    → get_elem? l.levels level ≡ some files
    → get_elem? l.levels (level + 1) ≡ some next_files
    → ((l' : Lsm) → IsConsistent l' → Leaves (rest l'))
    → Leaves (replace_level os level files next_files paths rest l)
unfolding replace_level
replace_level-Leaves os level files next_files paths rest l c h0 h1 hr =
    let none_left : (ts : List SsTable) → data_sizes ts - data_sizes ts ≡ data_sizes [] =
      λ ts. omega arith in
    let one =
      remove_files_lem level files l (data_sizes files) (size_of_level l level files c h0) in
    let bare : Lsm =
      set_size level (data_sizes [])
        (set_level level [] (record l { disk = without files l.disk })) in
    let two = remove_files_lem (level + 1) next_files bare (data_sizes next_files) (
      unfold set_size set_level in
      get_elem?-set_ne l.stats.level_sizes level (level + 1) 0 (λ e. absurd (omega arith))
      ∙ size_of_level l (level + 1) next_files c h1) in
    let kept : IsConsistent bare =
      set-IsConsistent level [] (record l { disk = without files l.disk }) c in
    let swapped : set_level level []
          (set_size level (data_sizes []) (record l { disk = without files l.disk }))
        ≡ bare =
      unfold set_size set_level in refl in
    rw (one, none_left files, swapped, two, none_left next_files)
      (closing-Leaves os (level + 1) paths
        (set_level (level + 1) [] (
          set_size (level + 1) (data_sizes [])
            (record bare { disk = without next_files bare.disk })))
        (λ q. and_then q rest)
        (unfold set_level set_size in
          set-IsConsistent (level + 1) [] (record bare { disk = without next_files bare.disk })
            kept)
        (λ q d. and_then-Leaves q rest d hr))
