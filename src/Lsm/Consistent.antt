-- ===== src/Lsm/Consistent.antt =====
-- What every operation of the tree keeps: the sizes of the levels, their number and the memtable's invariant.
use lsm_tree_go.Common.{
  ℕ, zero, suc, ◌+◌, ◌-◌, ◌≡◌, refl, sym, ap, ◌∙◌, Option, none, some, List, [], ◌∷◌, ◌++◌, map,
  length, set, get_elem?, arith, length-set, get_elem?-set_self, lt-length_of_get_elem?, Bool-cases,
  inl, inr,
}
use lsm_tree_go.Common.Keys.{Bytes}
use lsm_tree_go.Common.Map.{erase}
use lsm_tree_go.Common.Outcome.{Error, Outcome, ok}
use lsm_tree_go.Common.Ensures.{
  Ensures, Ensures-or_panic, Ensures->>=, Ensures-on_fail, Ensures-any,
}
use lsm_tree_go.MemTable.{MemTable}
use lsm_tree_go.MemTable.Laws
use lsm_tree_go.SsTable.Writer.{Os}
use lsm_tree_go.SsTable.Reader.{SsTable}
use lsm_tree_go.Compaction
use lsm_tree_go.Compaction.{Disk}
use lsm_tree_go.Lsm.{Lsm}
use lsm_tree_go.Lsm.Manifest.{write_manifest}
use lsm_tree_go.Lsm.Compact.{
  set_level, set_size, level_at, size_at, remove_files, attach, attach_outputs, and_then,
  count_compaction, open_quickly, data_sizes,
}

module _ {ℓ κ} {A : Type ℓ} {B : Type κ} (f : A → B) where
  map-set : (l : List A) (i : ℕ) (x : A) → map f (set l i x) ≡ set (map f l) i (f x)
  map-set [] i x = refl
  map-set (y ∷ l) zero x = refl
  map-set (y ∷ l) (suc i) x = ap (λ t. f y ∷ t) (map-set l i x)

  get_elem?-map :
      (l : List A) (i : ℕ) (x : A) → get_elem? l i ≡ some x → get_elem? (map f l) i ≡ some (f x)
  get_elem?-map [] i x h = cc
  get_elem?-map (y ∷ l) zero x h = cc
  get_elem?-map (y ∷ l) (suc i) x h = get_elem?-map l i x h

module _ {ℓ} {A : Type ℓ} where
  set-set : (l : List A) (i : ℕ) (x y : A) → set (set l i x) i y ≡ set l i y
  set-set [] i x y = refl
  set-set (z ∷ l) zero x y = refl
  set-set (z ∷ l) (suc i) x y = ap (λ t. z ∷ t) (set-set l i x y)

  set_same : (l : List A) (i : ℕ) (x : A) → get_elem? l i ≡ some x → set l i x ≡ l
  set_same [] i x h = refl
  set_same (z ∷ l) zero x h = cc
  set_same (z ∷ l) (suc i) x h = ap (λ t. z ∷ t) (set_same l i x h)

-- LevelSizes has the size of every level, there are NumLevels levels, and the memtable is in order.
pub record IsInStep (level_sizes : List ℕ) (levels : List (List SsTable)) (num_levels : ℕ)
    (t : MemTable) : Type 0 where
  pub sizes : level_sizes ≡ map data_sizes levels
  pub counted : length levels ≡ num_levels
  pub valid : Laws.IsValid t

abbrev pub IsConsistent : Lsm → Type 0
IsConsistent l = IsInStep l.stats.level_sizes l.levels l.num_levels l.memtable

-- The tree left is consistent, with an error or without.
abbrev pub Leaves : Outcome (Lsm × Option Error) → Type 0
Leaves r = Ensures (λ q. IsConsistent q.0) r

pub size_of_level :
    (l : Lsm) (i : ℕ) (files : List SsTable)
    → IsConsistent l
    → get_elem? l.levels i ≡ some files
    → get_elem? l.stats.level_sizes i ≡ some (data_sizes files)
size_of_level l i files c h =
    ap (λ s. get_elem? s i) c.sizes ∙ get_elem?-map data_sizes l.levels i files h

-- A level that is replaced, with its size.
pub set-IsConsistent :
    (i : ℕ) (files : List SsTable) (l : Lsm)
    → IsConsistent l
    → IsConsistent (set_size i (data_sizes files) (set_level i files l))
unfolding set_size set_level
set-IsConsistent i files l c = record {
  sizes = ap (λ s. set s i (data_sizes files)) c.sizes ∙ sym (map-set data_sizes l.levels i files);
  counted = length-set l.levels i files ∙ c.counted;
  valid = c.valid;
}

pub data_sizes-append :
    (xs ys : List SsTable) → data_sizes (xs ++ ys) ≡ data_sizes xs + data_sizes ys
data_sizes-append [] ys = omega arith
data_sizes-append (x ∷ xs) ys = omega (arith, data_sizes-append xs ys)

unfoldable pub without : List SsTable → Disk → Disk
without [] disk = disk
without (sst ∷ files) disk = without files (erase sst.path disk)

-- Removing files of a level takes their sizes off the level's.
pub remove_files_lem :
    (i : ℕ) (files : List SsTable) (l : Lsm) (n : ℕ)
    → get_elem? l.stats.level_sizes i ≡ some n
    → remove_files i files l
      ≡ ok (set_size i (n - data_sizes files) (record l { disk = without files l.disk }))
unfolding remove_files without size_at set_size
remove_files_lem i [] l n h =
    unfold set_size in
    ap (λ s. ok (record l { stats = record l.stats { level_sizes = s } }))
      (sym (set_same l.stats.level_sizes i n h)
        ∙ (let m : n ≡ n - data_sizes [] = omega arith in ap (set l.stats.level_sizes i) m))
remove_files_lem i (sst ∷ files) l n h =
    let sizes = l.stats.level_sizes in
    let m = n - sst.data_size in
    let less_one : Lsm = set_size i m (record l { disk = erase sst.path l.disk }) in
    let now = get_elem?-set_self sizes i m (lt-length_of_get_elem? sizes i n h) in
    let again = remove_files_lem i files less_one m (unfold set_size in now) in
    let same : set (set sizes i m) i (m - data_sizes files)
        ≡ set sizes i (n - data_sizes (sst ∷ files)) =
      set-set sizes i m (m - data_sizes files) ∙ ap (set sizes i) (omega arith) in
    rw h (
      again
      ∙ (unfold set_size in
          ap
            (λ s. ok (record l {
              stats = record l.stats { level_sizes = s };
              disk = without (sst ∷ files) l.disk;
            }))
            same))

pub attach-IsConsistent :
    (i : ℕ) (sst : SsTable) (l : Lsm) → IsConsistent l → Ensures IsConsistent (attach i sst l)
unfolding attach level_at size_at
attach-IsConsistent i sst l c =
    Ensures->>= (λ files. get_elem? l.levels i ≡ some files) IsConsistent (level_at i l) _
      (Ensures-or_panic (λ files. get_elem? l.levels i ≡ some files) (get_elem? l.levels i)
        (λ files h. h))
      (λ files h.
        rw (size_of_level l i files c h)
          (rw (grown files) at (set-IsConsistent i (files ++ sst ∷ []) l c)))
  where
    grown :
        (files : List SsTable) → data_sizes (files ++ sst ∷ []) ≡ data_sizes files + sst.data_size
    grown files = omega (arith, data_sizes-append files (sst ∷ []))

pub attach_outputs-Leaves :
    (os : Os) (i : ℕ) (paths : List Bytes) (l : Lsm)
    → IsConsistent l
    → Leaves (attach_outputs os i paths l)
unfolding attach_outputs
attach_outputs-Leaves os i [] l c = c
attach_outputs-Leaves os i (path ∷ paths) l c =
    Ensures-on_fail (λ sst. Unit {0}) (λ q. IsConsistent q.0) (open_quickly os path l.disk) _ _
      (Ensures-any (open_quickly os path l.disk)) (λ e. c)
      (λ sst u.
        Ensures->>= IsConsistent (λ q. IsConsistent q.0) (attach i sst l) _
          (attach-IsConsistent i sst l c) (λ l' c'. attach_outputs-Leaves os i paths l' c'))

pub and_then-Leaves :
    (q : Lsm × Option Error) (f : Lsm → Outcome (Lsm × Option Error))
    → IsConsistent q.0
    → ((l : Lsm) → IsConsistent l → Leaves (f l))
    → Leaves (and_then q f)
and_then-Leaves (l, some e) f c h = c
and_then-Leaves (l, none) f c h = h l c

pub write_manifest-IsConsistent :
    (os : Os) (l : Lsm) → IsConsistent l → IsConsistent (write_manifest os l).0
unfolding write_manifest
write_manifest-IsConsistent os l c = elim (Bool-cases os.write_ok) [
  | inr no_write ↦ rw no_write c
  | inl a ↦ elim (Bool-cases os.open_ok) [
    | inr no_open ↦ rw (a, no_open) c
    | inl b ↦ elim (Bool-cases os.rename_ok) [
      | inr no_rename ↦ rw (a, b, no_rename) c
      | inl r ↦ rw (a, b, r) c
    ]
  ]
]

pub count_compaction-IsConsistent :
    (s : Option Compaction.Stats) (l : Lsm) → IsConsistent l → IsConsistent (count_compaction s l)
unfolding count_compaction
count_compaction-IsConsistent none l c = c
count_compaction-IsConsistent (some s) l c = c
