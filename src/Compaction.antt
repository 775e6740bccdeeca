-- ===== src/Compaction.antt =====
-- internal/compaction/compaction.go: the merge of table files into new ones.
pub mod Heap
pub mod Order
pub mod Pending
pub mod Merge
pub mod Survivors
pub mod Newest
pub mod Cursor
pub mod Inputs
use lsm_tree_go.Common.{
  ℕ, zero, suc, ◌+◌, ◌*◌, ◌^◌, Bool, true, false, ◌&&◌, Option, none, some, List, [], ◌∷◌, ◌++◌,
  length, ltb, leb, if◌then◌else◌,
}
use lsm_tree_go.Common.Decimal.{decimal, decimal_8}
use lsm_tree_go.Common.Int.{ltb_ℤ}
use lsm_tree_go.Common.Keys.{Bytes, key_lt, key_eq}
use lsm_tree_go.Common.Map.{insert, erase, is_some}
use lsm_tree_go.Common.Outcome.{Outcome, ok, ◌>>=◌}
use lsm_tree_go.MemTable.{Entry, zero_entry}
use lsm_tree_go.SparseIndex
use lsm_tree_go.SsTable.Writer
use lsm_tree_go.SsTable.Writer.{Os, Writer}
use lsm_tree_go.SsTable.Reader.{SsTable, EntryIter, iter, next}

-- The table files of the directory, by path. A file comes in when it is closed: nothing reads it before.
abbrev pub Disk : Type 0
Disk = List (Bytes × Bytes)

-- filepath.Join of a clean directory and a name without slashes
unfoldable pub join : Bytes → Bytes → Bytes
join dir name = dir ++ b'/' ∷ name

abbrev pub sst_suffix : Bytes
sst_suffix = b'.' ∷ b's' ∷ b's' ∷ b't' ∷ []

abbrev pub level_multiplier : ℕ
level_multiplier = 10

-- LevelSize. The sizes of the levels that there are stay below 2^63.
unfoldable pub level_size : ℕ → ℕ → ℕ
level_size base level = base * level_multiplier ^ level

pub record Stats : Type 0 where
  pub bytes_written : ℕ
  pub input_files : ℕ
  pub output_files : ℕ

pub record HeapEntry : Type 0 where
  pub entry : Entry
  pub iter : EntryIter

-- Less: by key, and the newer of one key first.
unfoldable pub entry_less : Entry → Entry → Bool
entry_less a b = if key_eq a.key b.key then ltb_ℤ b.timestamp a.timestamp else key_lt a.key b.key

abbrev pub less : HeapEntry → HeapEntry → Bool
less a b = entry_less a.entry b.entry

-- What stands for an item out of range.
abbrev pub no_entry : HeapEntry
no_entry = record {
  entry = zero_entry;
  iter = record {
    sst = record {
      path = [];
      sparse_index = SparseIndex.new 128;
      bloom_filter = none;
      contents = [];
      is_mapped = false;
      data_size = 0;
    };
    pos = 0;
  };
}

abbrev pub target_size : ℕ
target_size = 4 * 2 ^ 20

abbrev pub entries_per_chunk : ℕ
entries_per_chunk = 100000

-- The variables of DoCompact that the writing changes, and the files.
pub record Output : Type 0 where
  pub writer : Option Writer
  pub chunk_size : ℕ
  pub file_id : ℕ
  pub paths : List Bytes
  pub bytes_written : ℕ
  pub output_files : ℕ
  pub disk : Disk

-- The loop that fills the heap: a table without entries is left out.
unfoldable pub first_entries : List SsTable → Outcome (List HeapEntry)
first_entries [] = ok []
first_entries (sst ∷ tables) = do
  first ← next (iter sst)
  h ← first_entries tables
  ok (with_first first h)
  where
    with_first : Option (Entry × EntryIter) → List HeapEntry → List HeapEntry
    with_first none h = h
    with_first (some (e, it)) h = record { entry = e; iter = it } ∷ h

-- flushChunk
unfoldable pub flush_chunk : Os → Output → Outcome Output
flush_chunk os out = by_writer out.writer
  where
    by_writer : Option Writer → Outcome Output
    by_writer none = ok out
    by_writer (some w) = do
      (contents, w') ← Writer.close os w
      ok (record out {
        writer = none;
        chunk_size = 0;
        bytes_written = out.bytes_written + Writer.info w';
        output_files = out.output_files + 1;
        disk = insert w.path contents out.disk;
      })

-- `%d-%08d.sst`
unfoldable pub chunk_path : Bytes → ℕ → ℕ → Bytes
chunk_path dir level id = join dir (decimal level ++ (b'-' ∷ (decimal_8 id ++ sst_suffix)))

-- `if w == nil`: a new file where none is being written.
unfoldable pub open_chunk : Os → Bytes → ℕ → Output → Outcome (Writer × Output)
open_chunk os dir level out = by_writer out.writer
  where
    path : Bytes
    path = chunk_path dir level out.file_id

    by_writer : Option Writer → Outcome (Writer × Output)
    by_writer (some w) = ok (w, out)
    by_writer none = do
      w ← Writer.create_writer os path entries_per_chunk 128
      ok (w, record out { file_id = out.file_id + 1; paths = out.paths ++ path ∷ [] })

-- An entry that is not skipped goes to the file.
unfoldable pub write_entry : Os → Bytes → ℕ → Entry → Output → Outcome Output
write_entry os dir level e out = do
  let es = length e.key + length e.value + 16
  kept ←
      if is_some out.writer && ltb target_size (out.chunk_size + es)
      then flush_chunk os out
      else ok out
  (w, opened) ← open_chunk os dir level kept
  w' ← Writer.append os e w
  ok (record opened { writer = some w'; chunk_size = opened.chunk_size + es })

abbrev pub is_bottom_level : ℕ → Bool
is_bottom_level level = leb 6 level

-- The main loop's variables, with `lastKey`.
pub record State : Type 0 where
  pub last_key : Bytes
  pub out : Output

-- The rest of a round of the main loop, for the entry taken from the heap.
unfoldable pub emit : Os → Bytes → ℕ → Entry → State → Outcome State
emit os dir level e st =
    if key_eq e.key st.last_key
    then ok st
    else if e.tombstone && is_bottom_level level
    then ok (record st { last_key = e.key })
    else (write_entry os dir level e st.out >>= λ out. ok (record { last_key = e.key; out = out }))

-- `heap.Push` of the next entry of the table, if it has one
unfoldable pub refill : Option (Entry × EntryIter) → List HeapEntry → List HeapEntry
refill none h = h
refill (some (e, it)) h = Heap.push no_entry less (record { entry = e; iter = it }) h

-- The main loop. Every round takes a byte of a table at least, so the size of the tables is fuel enough.
unfoldable pub merge_loop : Os → Bytes → ℕ → ℕ → List HeapEntry → State → Outcome State
merge_loop os dir level zero h st = ok st
merge_loop os dir level (suc fuel) [] st = ok st
merge_loop os dir level (suc fuel) (x ∷ h) st =
    let least = Heap.pop no_entry less (x ∷ h) in
    next least.0.iter >>= λ more. emit os dir level least.0.entry st >>= λ st'.
    merge_loop os dir level fuel (refill more least.1) st'

abbrev pub total_size : List SsTable → ℕ
total_size [] = 0
total_size (sst ∷ tables) = sst.data_size + total_size tables

-- The end of DoCompact: the paths, the statistics and the files.
unfoldable pub finish : Os → ℕ → Output → Outcome (List Bytes × Option Stats × Disk)
finish os inputs out = do
  done ← flush_chunk os out
  let stats : Stats = record {
    bytes_written = done.bytes_written;
    input_files = inputs;
    output_files = done.output_files;
  }
  ok (done.paths, some stats, done.disk)

abbrev pub start : ℕ → Disk → Output
start id disk = record {
  writer = none;
  chunk_size = 0;
  file_id = id;
  paths = [];
  bytes_written = 0;
  output_files = 0;
  disk = disk;
}

-- DoCompact from the filled heap on; `nil` for an empty one.
unfoldable pub merge_heap :
    Os
    → List SsTable
    → Bytes
    → ℕ
    → ℕ
    → Disk
    → List HeapEntry
    → Outcome (List Bytes × Option Stats × Disk)
merge_heap os tables dir level id disk [] = ok ([], none, disk)
merge_heap os tables dir level id disk (x ∷ h) =
    merge_loop os dir level (total_size tables) (Heap.init no_entry less (x ∷ h))
      (record { last_key = []; out = start id disk })
    >>= λ st. finish os (length tables) st.out

-- DoCompact
unfoldable pub do_compact :
    Os → List SsTable → Bytes → ℕ → ℕ → Disk → Outcome (List Bytes × Option Stats × Disk)
do_compact os tables dir level id disk =
    first_entries tables >>= λ h. merge_heap os tables dir level id disk h

-- CleanupSSTables
unfoldable pub cleanup_sstables : List Bytes → Disk → Disk
cleanup_sstables [] disk = disk
cleanup_sstables (p ∷ paths) disk = cleanup_sstables paths (erase p disk)
