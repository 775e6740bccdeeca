-- ===== src/Compaction/Survivors.antt =====
-- Which of the entries in order DoCompact writes, and what a search of them finds.
use lsm_tree_go.Common.{
  ℕ, ◌≡◌, refl, Bool, true, false, ◌&&◌, Option, none, some, List, [], ◌∷◌, All, arith,
  if◌then◌else◌, Bool-cases, inl, inr,
}
use lsm_tree_go.Common.Keys.{
  Bytes, key_lt, key_eq, key_eq→eq, key_eq_refl, key_lt_irrefl, key_cases,
}
use lsm_tree_go.Common.Outcome.{Outcome, ok, fail, panic, ◌>>=◌}
use lsm_tree_go.MemTable.{Entry}
use lsm_tree_go.MemTable.Sorted.{find}
use lsm_tree_go.SsTable.Writer.{Os}
use lsm_tree_go.Compaction.{State, Output, entry_less, emit, write_entry, is_bottom_level}
use lsm_tree_go.Compaction.Merge.{emit_all}
use lsm_tree_go.Compaction.Order.{IsFirst, InOrder}

-- Of every key the first entry, if it is not the key last seen; on the bottom level no tombstone.
unfoldable pub survivors : Bool → Bytes → List Entry → List Entry
survivors bottom last [] = []
survivors bottom last (e ∷ es) =
    let same = survivors bottom last es in
    let dropped = survivors bottom e.key es in
    if key_eq e.key last then same else if e.tombstone && bottom then dropped else e ∷ dropped

unfoldable pub write_all : Os → Bytes → ℕ → List Entry → Output → Outcome Output
write_all os dir level [] out = ok out
write_all os dir level (e ∷ es) out =
    write_entry os dir level e out >>= λ out'. write_all os dir level es out'

-- The entry that a search of the survivors can find.
abbrev pub unless_dropped : Bool → Option Entry → Option Entry
unless_dropped bottom none = none
unless_dropped bottom (some e) = if e.tombstone && bottom then none else some e

-- No key of the list is below `last`.
abbrev pub IsFrom : Bytes → List Entry → Type 0
IsFrom last es = All (λ y. key_lt y.key last ≡ false) es

pub IsFirst-IsFrom : (e : Entry) (es : List Entry) → IsFirst e es → IsFrom e.key es
IsFirst-IsFrom e [] h = tt
IsFirst-IsFrom e (y ∷ es) h = (not_below, IsFirst-IsFrom e es h.1)
  where
    not_below : key_lt y.key e.key ≡ false
    not_below = unfold entry_less in ground (arith, h.0, key_eq→eq y.key e.key, key_lt_irrefl e.key)

find-IsFrom :
    (key last : Bytes) (es : List Entry)
    → IsFrom last es
    → key_lt key last ≡ true
    → find key es ≡ none
unfolding find
find-IsFrom key last [] h p = refl
find-IsFrom key last (e ∷ es) h p =
    ground (arith, h.0, key_eq→eq e.key key, find-IsFrom key last es h.1 p)

-- A search of the survivors finds the first entry for the key, and nothing for the key last seen, nor for
-- a tombstone that is dropped.
pub find-survivors :
    (bottom : Bool) (last key : Bytes) (es : List Entry)
    → InOrder es
    → IsFrom last es
    → find key (survivors bottom last es)
      ≡ (if key_eq key last then none else unless_dropped bottom (find key es))
unfolding find survivors
find-survivors bottom last key [] o f = ground arith
find-survivors bottom last key (e ∷ es) o f =
    let from = IsFirst-IsFrom e es o.0 in
    let skipped = find-survivors bottom last key es o.1 f.1 in
    let kept = find-survivors bottom e.key key es o.1 from in
    let below = find-IsFrom key e.key es from in
    elim (Bool-cases (key_eq e.key last)) [
      | inl same ↦
          rw same
            (ground (arith, skipped, key_eq→eq e.key last, key_eq→eq e.key key, key_eq_refl key))
      | inr new ↦ elim (Bool-cases (e.tombstone && bottom)) [
        | inl gone ↦
            rw (new, gone)
              (ground (
                arith,
                kept,
                below,
                gone,
                key_eq→eq e.key key,
                key_eq→eq key e.key,
                key_eq_refl key,
                key_eq_refl last,
                key_eq→eq key last,
                key_cases e.key last,
                f.0,
              ))
        | inr stays ↦
            rw (new, stays)
              (ground (
                arith,
                kept,
                below,
                stays,
                key_eq→eq e.key key,
                key_eq→eq key e.key,
                key_eq_refl key,
                key_eq_refl last,
                key_eq→eq key last,
                key_cases e.key last,
                f.0,
              ))
      ]
    ]

-- A round that writes, whatever the writing gives.
after_write :
    (r : Outcome Output) (key : Bytes) (f : State → Outcome State) (g : Output → Outcome Output)
    → ((out : Output) → (f (record { last_key = key; out = out }) >>= λ s. ok s.out) ≡ g out)
    → (((r >>= λ out. ok (record { last_key = key; out = out })) >>= f) >>= λ s. ok s.out)
      ≡ (r >>= g)
after_write (ok out) key f g h = h out
after_write (fail e) key f g h = refl
after_write panic key f g h = refl

-- Putting out entries writes the survivors.
pub emit_all-write_all :
    (os : Os) (dir : Bytes) (level : ℕ) (es : List Entry) (st : State)
    → (emit_all os dir level es st >>= λ s. ok s.out)
      ≡ write_all os dir level (survivors (is_bottom_level level) st.last_key es) st.out
unfolding emit_all write_all survivors emit
emit_all-write_all os dir level [] st = refl
emit_all-write_all os dir level (e ∷ es) st =
    let ih = λ (s : State). emit_all-write_all os dir level es s in
    elim (Bool-cases (key_eq e.key st.last_key)) [
      | inl same ↦ rw same (ih st)
      | inr new ↦ elim (Bool-cases (e.tombstone && is_bottom_level level)) [
        | inl gone ↦ rw (new, gone) (ih (record st { last_key = e.key }))
        | inr stays ↦
            rw (new, stays)
              (after_write (write_entry os dir level e st.out) e.key
                (λ s. emit_all os dir level es s)
                (λ out. write_all os dir level (survivors (is_bottom_level level) e.key es) out)
                (λ out. ih (record { last_key = e.key; out = out })))
      ]
    ]
