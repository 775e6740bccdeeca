-- ===== src/Lsm/History.antt =====
-- The tree of internal/lsm/lsm.go as a map from keys to values, over PutBatch, Delete and Get.
use lsm_tree_go.Common.{◌≡◌, Bool, Option, none, List, [], ◌∷◌, if◌then◌else◌}
use lsm_tree_go.Common.Int.{ℤ}
use lsm_tree_go.Common.Keys.{Bytes, key_eq}
use lsm_tree_go.Common.Outcome.{Error, Outcome, ok}
use lsm_tree_go.SsTable.Writer.{Os}
use lsm_tree_go.Lsm.{Lsm, KeyValue, write_batch, delete, get}
use lsm_tree_go.Lsm.Flush.{put_batch}
use lsm_tree_go.Lsm.Answers.{after_put, FlushesFor}

-- A write of the map: pairs in their order, or a key that goes.
pub data Write : Type 0 where
  put : List KeyValue → Write
  remove : Bytes → Write

-- What a map answers after a write, given what it answered before.
unfoldable pub after_write : Bytes → Write → Outcome (Option Bytes) → Outcome (Option Bytes)
after_write key (put kvs) before = after_put key kvs before
after_write key (remove k) before = if key_eq k key then ok none else before

-- The writes of a history, the last one first.
unfoldable pub map_answer : Bytes → List Write → Outcome (Option Bytes) → Outcome (Option Bytes)
map_answer key [] before = before
map_answer key (w ∷ ws) before = after_write key w (map_answer key ws before)

-- The trees that calls without an error lead to from `start`, with the writes among them.
pub data History (key : Bytes) (start : Lsm) : Lsm → List Write → Type 0 where
  begun : History key start start []
  batched :
      (submit : Bytes → Option Error) (os : Os) (ring_ok : Bool) (ts : ℤ) (kvs : List KeyValue)
      (l l' : Lsm) (ws : List Write)
      → History key start l ws
      → ((m : Lsm) → write_batch submit os ts kvs l ≡ ok (m, none) → FlushesFor key os m)
      → put_batch submit os ring_ok ts kvs l ≡ ok (l', none)
      → History key start l' (put kvs ∷ ws)
  deleted :
      (submit : Bytes → Option Error) (os : Os) (ts : ℤ) (k : Bytes) (l l' : Lsm) (ws : List Write)
      → History key start l ws
      → delete submit os ts k l ≡ ok (l', none)
      → History key start l' (remove k ∷ ws)
  read :
      (k : Bytes) (found : Option Bytes) (l l' : Lsm) (ws : List Write)
      → History key start l ws
      → get k l ≡ ok (found, l')
      → History key start l' ws
