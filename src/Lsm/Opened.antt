-- ===== src/Lsm/Opened.antt =====
-- Open, and the invariant of the tree.
use lsm_tree_go.Common.{
  ℕ, suc, ◌≡◌, refl, ap, subst, ◌∙◌, Bool, Option, none, some, List, [], ◌∷◌, length, get_elem?,
  ◌==◌, arith, length-set, length-replicate, Bool-cases, Option-cases, inl, inr, if◌then◌else◌,
}
use lsm_tree_go.Common.Keys.{Bytes}
use lsm_tree_go.Common.Outcome.{call}
use lsm_tree_go.Common.Ensures.{Ensures, Ensures->>=, Ensures-on_fail, Ensures-any}
use lsm_tree_go.MemTable.{Entry}
use lsm_tree_go.MemTable.Laws
use lsm_tree_go.MemTable.Laws.{new-IsValid}
use lsm_tree_go.SsTable.Writer.{Os}
use lsm_tree_go.SsTable.Reader.{SsTable}
use lsm_tree_go.Wal
use lsm_tree_go.Wal.{Wal}
use lsm_tree_go.Compaction.{Disk, join}
use lsm_tree_go.Lsm.{Lsm, recover_wal, after_replay, reinsert}
use lsm_tree_go.Lsm.Manifest.{
  open_path, open_levels, open_named, add_table, scan_dir, dir_names, level_of_name,
  recover_orphans, load_scanned, load_listed, load_existing_sstables,
}
use lsm_tree_go.Lsm.Consistent.{IsConsistent, write_manifest-IsConsistent}
use lsm_tree_go.Lsm.Kept.{reinsert-IsValid}
use lsm_tree_go.Lsm.Flush.{Options, update_level_stats, fresh_tree, wal_path, open_log, open_tree}

-- As many levels as the tree has, and a memtable in order: what Open has before updateLevelStats.
pub record IsLoaded (l : Lsm) : Type 0 where
  pub counted : length l.levels ≡ l.num_levels
  pub valid : Laws.IsValid l.memtable

length-open_levels :
    (os : Os) (dir : Bytes) (disk : Disk) (files : List (List Bytes))
    → Ensures (λ ls. length ls ≡ length files) (open_levels os dir disk files)
unfolding open_levels
length-open_levels os dir disk [] = refl
length-open_levels os dir disk (names ∷ files) =
    Ensures->>= (λ s. Unit {0}) (λ ls. length ls ≡ suc (length files))
      (open_named os dir disk names) _ (Ensures-any (open_named os dir disk names))
      (λ ssts u.
        Ensures->>= (λ ls. length ls ≡ length files) (λ ls. length ls ≡ suc (length files))
          (open_levels os dir disk files) _ (length-open_levels os dir disk files)
          (λ ls e. ap suc e))

length-add_table :
    (level : ℕ) (sst : SsTable) (levels : List (List SsTable))
    → Ensures (λ ls. length ls ≡ length levels) (add_table level sst levels)
unfolding add_table
length-add_table level sst levels = elim (Option-cases (get_elem? levels level)) [
  | inl n ↦ rw n tt
  | inr (files, e) ↦ rw e (length-set levels level _)
]

length-scan_dir :
    (os : Os) (dir : Bytes) (num_levels : ℕ) (disk : Disk) (names : List Bytes)
    (levels : List (List SsTable))
    → Ensures (λ ls. length ls ≡ length levels) (scan_dir os dir num_levels disk names levels)
unfolding scan_dir
length-scan_dir os dir num_levels disk [] levels = refl
length-scan_dir os dir num_levels disk (name ∷ names) levels =
    let ih = length-scan_dir os dir num_levels disk names levels in
    let file = open_path os (join dir name) disk in
    let P = λ (ls : List (List SsTable)). length ls ≡ length levels in
    let more : (ls : List (List SsTable))
        → P ls
        → Ensures P (scan_dir os dir num_levels disk names ls) =
      λ ls e.
        subst (λ n. Ensures (λ ks. length ks ≡ n) (scan_dir os dir num_levels disk names ls)) e
          (length-scan_dir os dir num_levels disk names ls) in
    elim (Option-cases (level_of_name num_levels name)) [
      | inl n ↦ rw n ih
      | inr (level, e) ↦ rw e (
          Ensures-on_fail (λ s. Unit {0}) P file _ _ (Ensures-any file) (λ x. ih)
            (λ sst u.
              Ensures->>= P P (add_table level sst levels) _ (length-add_table level sst levels)
                more))
    ]

load_scanned-IsLoaded : (os : Os) (l : Lsm) → IsLoaded l → Ensures IsLoaded (load_scanned os l)
unfolding load_scanned
load_scanned-IsLoaded os l c =
    let scanning = scan_dir os l.dir l.num_levels l.disk (dir_names l.disk) l.levels in
    Ensures->>= (λ ls. length ls ≡ length l.levels) IsLoaded scanning _
      (length-scan_dir os l.dir l.num_levels l.disk (dir_names l.disk) l.levels)
      (λ ls e. record { counted = e ∙ c.counted; valid = c.valid })

load_listed-IsLoaded :
    (os : Os) (l : Lsm) (files : Option (List (List Bytes)))
    → IsLoaded l
    → Ensures IsLoaded (load_listed os l files)
unfolding load_listed
load_listed-IsLoaded os l none c = load_scanned-IsLoaded os l c
load_listed-IsLoaded os l (some files) c = elim (Bool-cases (length files == l.num_levels)) [
  | inl fit ↦ rw fit (
      Ensures->>= (λ ls. length ls ≡ length files) IsLoaded (open_levels os l.dir l.disk files) _
        (length-open_levels os l.dir l.disk files)
        (λ ls e.
          unfold recover_orphans in record { counted = e ∙ ground (arith, fit); valid = c.valid }))
  | inr unfit ↦ rw unfit (load_scanned-IsLoaded os l c)
]

load_existing_sstables-IsLoaded :
    (os : Os) (l : Lsm) → IsLoaded l → Ensures IsLoaded (load_existing_sstables os l)
unfolding load_existing_sstables
load_existing_sstables-IsLoaded os l c = load_listed-IsLoaded os l l.manifest c

after_replay-IsLoaded :
    (os : Os) (ring_ok : Bool) (w : Wal) (es : List Entry) (l : Lsm)
    → IsLoaded l
    → Ensures IsLoaded (after_replay os ring_ok w es l)
unfolding after_replay
after_replay-IsLoaded os ring_ok w [] l c = c
after_replay-IsLoaded os ring_ok w (e ∷ es) l c =
    Ensures->>= (λ x. Unit {0}) IsLoaded (Wal.reset os ring_ok w) _
      (Ensures-any (Wal.reset os ring_ok w))
      (λ (w', r) v. elim (Option-cases r) [
        | inl n ↦ rw n (record { counted = c.counted; valid = c.valid })
        | inr (x, s) ↦ rw s tt
      ])

recover_wal-IsLoaded :
    (os : Os) (ring_ok : Bool) (w : Wal) (l : Lsm)
    → IsLoaded l
    → Ensures IsLoaded (recover_wal os ring_ok w l)
unfolding recover_wal
recover_wal-IsLoaded os ring_ok w l c =
    Ensures->>= (λ es. Unit {0}) IsLoaded (Wal.replay w) _ (Ensures-any (Wal.replay w))
      (λ es u.
        after_replay-IsLoaded os ring_ok w es (record l { memtable = reinsert es l.memtable })
          (record { counted = c.counted; valid = reinsert-IsValid es l.memtable c.valid }))

fresh_tree-IsLoaded :
    (opts : Options) (now : ℕ) (disk : Disk) (manifest : Option (List (List Bytes)))
    → IsLoaded (fresh_tree opts now disk manifest)
unfolding fresh_tree
fresh_tree-IsLoaded opts now disk manifest = record {
  counted = length-replicate (if opts.num_levels == 0 then 7 else opts.num_levels) [];
  valid = new-IsValid;
}

open_log-IsLoaded :
    (os : Os) (ring_ok : Bool) (opts : Options) (log : Bytes) (l : Lsm)
    → IsLoaded l
    → Ensures IsLoaded (open_log os ring_ok opts log l)
unfolding open_log
open_log-IsLoaded os ring_ok opts log l c =
    let opening = Wal.open_wal os ring_ok (wal_path opts.dir) opts.wal_sync_mode log in
    elim (Bool-cases opts.no_wal) [
      | inl bare ↦ rw bare c
      | inr logged ↦ rw logged (
          Ensures->>= (λ w. Unit {0}) IsLoaded opening _ (Ensures-any opening)
            (λ w v.
              recover_wal-IsLoaded os ring_ok w (record l { wal = some w })
                (record { counted = c.counted; valid = c.valid })))
    ]

-- A tree that Open returns is consistent.
pub open_tree-IsConsistent :
    (os : Os) (ring_ok : Bool) (opts : Options) (now : ℕ) (log : Bytes) (disk : Disk)
    (manifest : Option (List (List Bytes)))
    → Ensures IsConsistent (open_tree os ring_ok opts now log disk manifest)
unfolding open_tree
open_tree-IsConsistent os ring_ok opts now log disk manifest =
    let l = fresh_tree opts now disk manifest in
    Ensures->>= (λ x. Unit {0}) IsConsistent (call os.mkdir_ok) _ (Ensures-any (call os.mkdir_ok))
      (λ x u.
        Ensures->>= IsLoaded IsConsistent (open_log os ring_ok opts log l) _
          (open_log-IsLoaded os ring_ok opts log l (fresh_tree-IsLoaded opts now disk manifest))
          (λ l' d.
            Ensures->>= IsLoaded IsConsistent (load_existing_sstables os l') _
              (load_existing_sstables-IsLoaded os l' d)
              (λ l'' e. write_manifest-IsConsistent os (update_level_stats l'') (
                unfold update_level_stats in
                record { sizes = refl; counted = e.counted; valid = e.valid }))))
