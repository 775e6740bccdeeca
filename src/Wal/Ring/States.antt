-- ===== src/Wal/Ring/States.antt =====
-- The states of a ring between the calls of the kernel, for internal/wal/io_uring_linux.go, and what the manual says
-- of io_uring_enter.
use lsm_tree_go.Common.{
  ℕ, zero, suc, ◌+◌, ◌^◌, ◌≤◌, ◌<◌, ◌≡◌, ◌≢◌, refl, sym, ap, ◌∙◌, Option, none, some, List, length,
  set, arith, length-set, get_elem?-some, Bool-cases, ltb, ◌⊎◌, inl, inr,
}
use lsm_tree_go.Common.Bits.{bit_and, bit_and-le}
use lsm_tree_go.Common.Keys.{Bytes}
use lsm_tree_go.Common.Int.{ℤ, pos, negsuc}
use lsm_tree_go.Wal.Ring.{
  Shared, Ring, Enter, returned, entered, store_cq_head, release_buf, collect, add_word, sub_word,
  cqe_place,
}
use lsm_tree_go.Wal.Ring.Queue.{IsRing}

-- Entries taken whose completions are not read yet, and completions that can be read: both heads and both tails
-- count from the start of the ring, and every entry taken gets one completion.
abbrev pub owed : Shared → ℕ
owed s = sub_word s.sq_head s.cq_head

abbrev pub readable : Shared → ℕ
readable s = sub_word s.cq_tail s.cq_head

-- Every entry that was taken is completed, and its completion read.
abbrev pub IsSettled : Ring → Type 0
IsSettled r = (r.shared.sq_head ≡ r.shared.cq_head) × (r.shared.cq_tail ≡ r.shared.cq_head)

-- What a call that took `k` entries leaves: the program's own words and entries, and no completion without an
-- entry.
pub record Leaves (s : Shared) (k : ℕ) (s' : Shared) : Type 0 where
  pub sqes : s'.sqes ≡ s.sqes
  pub sq_tail : s'.sq_tail ≡ s.sq_tail
  pub sq_mask : s'.sq_mask ≡ s.sq_mask
  pub cq_head : s'.cq_head ≡ s.cq_head
  pub cq_mask : s'.cq_mask ≡ s.cq_mask
  pub places : length s'.cqes ≡ length s.cqes
  pub cq_tail_word : s'.cq_tail < 2 ^ 32
  pub sq_head : s'.sq_head ≡ add_word s.sq_head k
  pub due : readable s ≤ owed s → readable s' ≤ owed s'

-- io_uring_enter, with the number of entries that a call takes, which can be fewer than it is given. A call that
-- only waits and succeeds leaves a completion to read, and no call waits for ever while the completions
-- that it asks for are to come. From the call numbered `quiet` on no signal interrupts one.
pub record IsKernel (enter : Enter) (taken : ℕ → ℕ → ℕ → Shared → ℕ) (quiet : ℕ) : Type 0 where
  pub at_most : (c n m : ℕ) (s : Shared) → taken c n m s ≤ n
  pub leaves :
      (c n m : ℕ) (s : Shared) (e : ℕ) (s' : Shared)
      → enter c n m s ≡ some (e, s')
      → Leaves s (taken c n m s) s'
  pub posted :
      (c m : ℕ) (s s' : Shared) → 0 < m → enter c 0 m s ≡ some (0, s') → s'.cq_tail ≢ s'.cq_head
  pub waits :
      (c n m : ℕ) (s : Shared)
      → enter c n m s ≡ none
      → sub_word (add_word s.sq_head (taken c n m s)) s.cq_head < m
  pub uninterrupted :
      (c n m : ℕ) (s : Shared) (e : ℕ) (s' : Shared)
      → quiet ≤ c
      → enter c n m s ≡ some (e, s')
      → e ≢ 4

-- A ring with the given head and tail of the queue, that has made `calls` calls or more.
pub record IsAt (fd offset head tail calls : ℕ) (r : Ring) : Type 0 where
  pub ring : IsRing r
  pub same_fd : r.fd ≡ fd
  pub same_offset : r.offset ≡ offset
  pub at_head : r.shared.sq_head ≡ head
  pub at_tail : r.shared.sq_tail ≡ tail
  pub called : calls ≤ r.calls

pub ℕ-cases : (n : ℕ) → (n ≡ 0) ⊎ ((k : ℕ) × (n ≡ suc k))
ℕ-cases zero = inl refl
ℕ-cases (suc k) = inr (k, refl)

pub ℤ-cases : (z : ℤ) → ((v : ℕ) × (z ≡ pos v)) ⊎ ((v : ℕ) × (z ≡ negsuc v))
ℤ-cases (pos v) = inl (v, refl)
ℤ-cases (negsuc v) = inr (v, refl)

pub release_buf-shared : (u : ℕ) (r : Ring) → (release_buf u r).shared ≡ r.shared
unfolding release_buf
release_buf-shared u r = elim (ℕ-cases (bit_and u 0x7fffffff)) [
  | inl e ↦ rw e refl
  | inr (i, e) ↦ elim (Bool-cases (ltb i (length r.write_bufs))) [
    | inl hit ↦ rw (e, hit) refl
    | inr out ↦ rw (e, out) refl
  ]
]

module _ {fd offset head tail calls : ℕ} where
  pub later :
      {c : ℕ} (r : Ring)
      → c ≤ calls
      → IsAt fd offset head tail calls r
      → IsAt fd offset head tail c r
  later r h a = record {
    ring = a.ring;
    same_fd = a.same_fd;
    same_offset = a.same_offset;
    at_head = a.at_head;
    at_tail = a.at_tail;
    called = omega (arith, a.called);
  }

  pub now : (r : Ring) → IsAt fd offset head tail calls r → IsAt fd offset head tail r.calls r
  now r a = record {
    ring = a.ring;
    same_fd = a.same_fd;
    same_offset = a.same_offset;
    at_head = a.at_head;
    at_tail = a.at_tail;
    called = omega arith;
  }

  pub store_cq_head-IsAt :
      (w : ℕ) (r : Ring)
      → w < 2 ^ 32
      → IsAt fd offset head tail calls r
      → IsAt fd offset head tail calls (store_cq_head w r)
  store_cq_head-IsAt w r h a =
      let i = a.ring in
      record {
        ring = record {
          mask = i.mask;
          entries = i.entries;
          places = i.places;
          head_word = i.head_word;
          tail_word = i.tail_word;
          local = i.local;
          room = i.room;
          buffers = i.buffers;
          cq_head_word = h;
          cq_tail_word = i.cq_tail_word;
          completions = i.completions;
          few = i.few;
        };
        same_fd = a.same_fd;
        same_offset = a.same_offset;
        at_head = a.at_head;
        at_tail = a.at_tail;
        called = a.called;
      }

  with_bufs-IsAt :
      (bufs : List (Option Bytes)) (n : ℕ) (r : Ring)
      → length bufs ≡ 256
      → IsAt fd offset head tail calls r
      → IsAt fd offset head tail calls (record r { write_bufs = bufs; wb_head = n })
  with_bufs-IsAt bufs n r h a =
      let i = a.ring in
      record {
        ring = record {
          mask = i.mask;
          entries = i.entries;
          places = i.places;
          head_word = i.head_word;
          tail_word = i.tail_word;
          local = i.local;
          room = i.room;
          buffers = h;
          cq_head_word = i.cq_head_word;
          cq_tail_word = i.cq_tail_word;
          completions = i.completions;
          few = i.few;
        };
        same_fd = a.same_fd;
        same_offset = a.same_offset;
        at_head = a.at_head;
        at_tail = a.at_tail;
        called = a.called;
      }

  release_buf-IsAt :
      (u : ℕ) (r : Ring)
      → IsAt fd offset head tail calls r
      → IsAt fd offset head tail calls (release_buf u r)
  unfolding release_buf
  release_buf-IsAt u r a = elim (ℕ-cases (bit_and u 0x7fffffff)) [
    | inl e ↦ rw e a
    | inr (i, e) ↦ elim (Bool-cases (ltb i (length r.write_bufs))) [
      | inl hit ↦
          rw (e, hit)
            (with_bufs-IsAt (set r.write_bufs i none) (r.wb_head + 1) r
              (length-set r.write_bufs i none ∙ a.ring.buffers) a)
      | inr out ↦ rw (e, out) a
    ]
  ]

  -- The inner loop returns, since the place it looks at is in the mapping. Without an error it has not
  -- moved a word.
  pub collect_cases :
      (n i h : ℕ) (r : Ring)
      → IsAt fd offset head tail calls r
      → ((r' : Ring) × (collect n i h r ≡ returned r' 0)
          × IsAt fd offset head tail calls r'
          × (r'.shared ≡ r.shared))
        ⊎ ((r' : Ring) × (e : ℕ) × (collect n i h r ≡ returned r' (suc e))
            × IsAt fd offset head tail calls r')
  unfolding collect
  collect_cases zero i h r a = inl (r, refl, a, refl)
  collect_cases (suc n) i h r a =
      let inside : cqe_place h r < length r.shared.cqes =
        let q = bit_and-le h r.shared.cq_mask in omega (arith, a.ring.completions, a.ring.few) in
      let (c, e) = get_elem?-some r.shared.cqes (cqe_place h r) inside in
      elim (ℤ-cases c.res) [
        | inl (v, good) ↦
            let r1 = release_buf c.user_data r in
            let kept = release_buf-shared c.user_data r in
            elim (collect_cases n (i + 1) h r1 (release_buf-IsAt c.user_data r a)) [
              | inl (r', done, a', same) ↦ inl (r', rw (e, good) done, a', same ∙ kept)
              | inr (r', x, done, a') ↦ inr (r', x, rw (e, good) done, a')
            ]
        | inr (x, bad) ↦ inr (
          store_cq_head (add_word h (i + 1)) r,
          x,
          rw (e, bad) refl,
          store_cq_head-IsAt (add_word h (i + 1)) r (omega arith) a,
        )
      ]

  -- A call leaves a ring, with the head of the queue that it moved to.
  pub entered-IsAt :
      (s : Shared) (r : Ring) (head' : ℕ)
      → (k : ℕ) → Leaves r.shared k s
      → s.sq_head ≡ head'
      → head' < 2 ^ 32
      → sub_word tail head' ≤ 256
      → IsAt fd offset head tail calls r
      → IsAt fd offset head' tail (suc calls) (entered r s)
  entered-IsAt s r head' k l e h room a =
      let i = a.ring in
      let same : s.sq_tail ≡ tail = l.sq_tail ∙ a.at_tail in
      record {
        ring = record {
          mask = l.sq_mask ∙ i.mask;
          entries = i.entries;
          places = ap length l.sqes ∙ i.places;
          head_word = omega arith;
          tail_word = omega (arith, l.sq_tail, i.tail_word);
          local = i.local ∙ sym l.sq_tail;
          room = rw (same, e) room;
          buffers = i.buffers;
          cq_head_word = omega (arith, l.cq_head, i.cq_head_word);
          cq_tail_word = l.cq_tail_word;
          completions = omega (arith, l.cq_mask, l.places, i.completions);
          few = omega (arith, l.places, i.few);
        };
        same_fd = a.same_fd;
        same_offset = a.same_offset;
        at_head = e;
        at_tail = same;
        called = omega (arith, a.called);
      }
