-- ===== src/Wal/Flusher.antt =====
-- asyncWriter of internal/wal/wal.go, with the writers of AppendRaw and with Close, as steps that come in any
-- order. A call of writeToMmap is one step, and so is a sync of the file.
use lsm_tree_go.Common.{
  ℕ, ◌+◌, ◌-◌, ◌≡◌, refl, Bool, true, false, not, ◌&&◌, ◌||◌, Option, none, some, ltb, ◌==◌,
  if◌then◌else◌, arith, Bool-cases, Option-cases, ◌⊎◌, inl, inr,
}
use lsm_tree_go.Common.Outcome.{Error, os_error, fail}
use lsm_tree_go.SsTable.Writer.{Os}
use lsm_tree_go.Wal
use lsm_tree_go.Wal.{Wal, sync_async}
use lsm_tree_go.Common.Map.{is_some}

-- The bytes that are in the mapped file and those that a sync has reached, the writers between writeToMmap and
-- the send on asyncCh, and the channel, the loop's own variable and what the loop leaves.
pub record Async : Type 0 where
  pub written : ℕ
  pub synced : ℕ
  pub in_flight : ℕ
  pub signal : Bool
  pub closed : Bool
  pub dirty : Bool
  pub flush_err : Option Error
  pub done : Bool

unfoldable pub started : ℕ → Async
started n = record {
  written = n;
  synced = n;
  in_flight = 0;
  signal = false;
  closed = false;
  dirty = false;
  flush_err = none;
  done = false;
}

-- A writer writes so many bytes, or sends its signal; the loop takes a signal, or gets a tick; Close closes the
-- channel; the loop finds it closed. A sync succeeds or not.
pub data Event : Type 0 where
  write : ℕ → Event
  send : Event
  receive : Event
  tick : Bool → Event
  close_channel : Event
  finish : Bool → Event

-- `flush()`
unfoldable pub flush : Bool → Async → Async
flush true a = record a { synced = a.written }
flush false a = record a { flush_err = some os_error }

abbrev pub flush_dirty : Bool → Async → Async
flush_dirty sync_ok a = if a.dirty then flush sync_ok a else a

-- A step, where it is possible: a send on the closed channel and a second close panic.
unfoldable pub step : Event → Async → Option Async
step (write n) a = some (record a { written = a.written + n; in_flight = a.in_flight + 1 })
step send a =
    if (a.in_flight == 0) || a.closed
    then none
    else some (record a { in_flight = a.in_flight - 1; signal = true })
step receive a =
    if a.done || not a.signal then none else some (record a { signal = false; dirty = true })
step (tick sync_ok) a =
    if a.done then none else some (record (flush_dirty sync_ok a) { dirty = false })
step close_channel a = if a.closed then none else some (record a { closed = true })
step (finish sync_ok) a =
    if a.done || (a.signal || not a.closed)
    then none
    else some (record (flush_dirty sync_ok a) { done = true })

pub data IsReached : Async → Type 0 where
  begun : (n : ℕ) → IsReached (started n)
  stepped : (a b : Async) (e : Event) → IsReached a → step e a ≡ some b → IsReached b

-- All bytes are synced, or a failure is kept.
abbrev pub is_settled : Async → Bool
is_settled a = (a.synced == a.written) || is_some a.flush_err

-- While bytes are not settled something is there to have them synced.
record IsCovered (a : Async) : Type 0 where
  covered : (is_settled a || (ltb 0 a.in_flight || (a.signal || a.dirty))) ≡ true
  ended : (not a.done || ((is_settled a || ltb 0 a.in_flight) && (a.closed && not a.signal))) ≡ true

abbrev Leaves : Option Async → Type 0
Leaves none = Unit {0}
Leaves (some b) = IsCovered b

-- A guard of a step.
guarded :
    (no : Bool) (b : Async) → (no ≡ false → IsCovered b) → Leaves (if no then none else some b)
guarded true b h = tt
guarded false b h = h refl

-- What the loop's flush does: nothing, a sync, or a failure that is kept.
flush_dirty-cases :
    (sync_ok : Bool) (a : Async)
    → ((a.dirty ≡ false) × (flush_dirty sync_ok a ≡ a))
      ⊎ (flush_dirty sync_ok a ≡ record a { synced = a.written })
      ⊎ (flush_dirty sync_ok a ≡ record a { flush_err = some os_error })
unfolding flush
flush_dirty-cases sync_ok a = elim (Bool-cases a.dirty) [
  | inr clean ↦ inl (clean, flush_clean a.dirty clean)
  | inl dirty ↦ inr (flush_cases sync_ok a.dirty dirty)
]
  where
    flush_clean : (d : Bool) → d ≡ false → (if d then flush sync_ok a else a) ≡ a
    flush_clean d e = rw e refl

    flush_cases :
        (ok : Bool) (d : Bool)
        → d ≡ true
        → ((if d then flush ok a else a) ≡ record a { synced = a.written })
          ⊎ ((if d then flush ok a else a) ≡ record a { flush_err = some os_error })
    flush_cases true d e = inl (rw e refl)
    flush_cases false d e = inr (rw e refl)

step-IsCovered : (e : Event) (a : Async) → IsCovered a → Leaves (step e a)
unfolding step flush
step-IsCovered (write n) a c = record {
  covered = ground (arith, c.covered);
  ended = ground (arith, c.ended);
}
step-IsCovered send a c =
    guarded ((a.in_flight == 0) || a.closed) _
      (λ g. record { covered = ground (arith, c.covered, g); ended = ground (arith, c.ended, g) })
step-IsCovered receive a c =
    guarded (a.done || not a.signal) _
      (λ g. record { covered = ground (arith, c.covered, g); ended = ground (arith, c.ended, g) })
step-IsCovered (tick sync_ok) a c = guarded a.done _ (λ g. elim (flush_dirty-cases sync_ok a) [
  | inl (clean, e) ↦
      rw e
        (record { covered = ground (arith, c.covered, clean); ended = ground (arith, c.ended, g) })
  | inr (inl e) ↦ rw e (record { covered = ground arith; ended = ground (arith, g) })
  | inr (inr e) ↦ rw e (record { covered = ground arith; ended = ground (arith, g) })
])
step-IsCovered close_channel a c =
    guarded a.closed _
      (λ g. record { covered = ground (arith, c.covered, g); ended = ground (arith, c.ended, g) })
step-IsCovered (finish sync_ok) a c = guarded (a.done || (a.signal || not a.closed)) _ (λ g.
    elim (flush_dirty-cases sync_ok a) [
      | inl (clean, e) ↦ rw e (record {
        covered = ground (arith, c.covered);
        ended = ground (arith, c.covered, g, clean);
      })
      | inr (inl e) ↦ rw e (record { covered = ground arith; ended = ground (arith, g) })
      | inr (inr e) ↦ rw e (record { covered = ground arith; ended = ground (arith, g) })
    ])

IsReached-IsCovered : (a : Async) → IsReached a → IsCovered a
IsReached-IsCovered a (begun n) = unfold started in record { covered = ground arith; ended = refl }
IsReached-IsCovered b (stepped a _ e r h) = rw h at (step-IsCovered e a (IsReached-IsCovered a r))

-- Once the loop has ended and no writer is between its write and its signal, every byte written since it was
-- started has been synced, or else a sync failed, and Close of a log in the asynchronous mode that has the
-- error which the loop left returns that error.
pub written-synced :
    (a : Async) (os : Os) (w : Wal)
    → IsReached a
    → a.done ≡ true
    → a.in_flight ≡ 0
    → w.mode ≡ sync_async
    → w.flush_err ≡ a.flush_err
    → (a.synced ≡ a.written) ⊎ ((e : Error) × (a.flush_err ≡ some e) × (Wal.close os w ≡ fail e))
written-synced a os w r d idle mode same = elim (Option-cases a.flush_err) [
  | inr (e, kept) ↦ inr (e, kept, (unfold Wal.close in rw (mode, same, kept) refl))
  | inl nothing ↦ let c = (IsReached-IsCovered a r).ended in inl (ground (arith, c, nothing))
]
