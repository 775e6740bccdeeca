-- ===== src/Lsm/Searched.antt =====
-- The answer of Get in internal/lsm/lsm.go does not depend on its counters.
use lsm_tree_go.Common.{
  ℕ, zero, suc, ◌≡◌, refl, sym, ap, ◌∙◌, Bool, true, false, not, Option, none, some, List, [], ◌∷◌,
  if◌then◌else◌, Option-cases, inl, inr,
}
use lsm_tree_go.Common.Keys.{Bytes}
use lsm_tree_go.Common.Outcome.{Outcome, ok, fail, panic, ◌>>=◌}
use lsm_tree_go.MemTable
use lsm_tree_go.MemTable.{Entry, MemTable}
use lsm_tree_go.SsTable.Reader
use lsm_tree_go.SsTable.Reader.{SsTable}
use lsm_tree_go.Lsm.{Lsm, Stats, visible, or_next, search_files, search_levels, get}

-- Two searches end in the same way and find the same.
abbrev Agree : Outcome (Option Entry × Stats) → Outcome (Option Entry × Stats) → Type 0
Agree (ok p) (ok q) = p.0 ≡ q.0
Agree (ok p) (fail e) = ⊥
Agree (ok p) panic = ⊥
Agree (fail e) (ok q) = ⊥
Agree (fail e) (fail d) = e ≡ d
Agree (fail e) panic = ⊥
Agree panic (ok q) = ⊥
Agree panic (fail d) = ⊥
Agree panic panic = Unit {0}

Agree-or_next :
    (a b : Outcome (Option Entry × Stats)) (f g : Stats → Outcome (Option Entry × Stats))
    → Agree a b
    → ((s t : Stats) → Agree (f s) (g t))
    → Agree (a >>= λ p. or_next p f) (b >>= λ p. or_next p g)
Agree-or_next (ok (none, s)) (ok (none, t)) f g h k = k s t
Agree-or_next (ok (some e, s)) (ok (some d, t)) f g h k = h
Agree-or_next (ok (none, s)) (ok (some d, t)) f g h k = cc
Agree-or_next (ok (some e, s)) (ok (none, t)) f g h k = cc
Agree-or_next (ok p) (fail d) f g h k = absurd h
Agree-or_next (ok p) panic f g h k = absurd h
Agree-or_next (fail e) (ok q) f g h k = absurd h
Agree-or_next (fail e) (fail d) f g h k = h
Agree-or_next (fail e) panic f g h k = absurd h
Agree-or_next panic (ok q) f g h k = absurd h
Agree-or_next panic (fail d) f g h k = absurd h
Agree-or_next panic panic f g h k = tt

Agree->>= :
    {A : Type 0} (o : Outcome A) (f g : A → Outcome (Option Entry × Stats))
    → ((a : A) → Agree (f a) (g a))
    → Agree (o >>= f) (o >>= g)
Agree->>= (ok a) f g k = k a
Agree->>= (fail e) f g k = refl
Agree->>= panic f g k = tt

Agree-if :
    (h : Bool) (a b c d : Outcome (Option Entry × Stats))
    → Agree a c
    → Agree b d
    → Agree (if h then a else b) (if h then c else d)
Agree-if true a b c d p q = p
Agree-if false a b c d p q = q

search_files-Agree :
    (key : Bytes) (files : List SsTable) (s t : Stats)
    → Agree (search_files key files s) (search_files key files t)
unfolding search_files
search_files-Agree key [] s t = refl
search_files-Agree key (sst ∷ files) s t = Agree->>= (Reader.may_contain key sst) _ _ (λ hit.
    Agree-if (not hit) _ _ _ _ (search_files-Agree key files _ _) (
      Agree->>= (Reader.get key sst) _ _ (λ e.
        Agree-or_next (ok (e, _)) (ok (e, _)) _ _ refl
          (λ s' t'. search_files-Agree key files s' t'))))

search_levels-Agree :
    (key : Bytes) (n : ℕ) (levels : List (List SsTable)) (s t : Stats)
    → Agree (search_levels key n levels s) (search_levels key n levels t)
unfolding search_levels
search_levels-Agree key zero levels s t = refl
search_levels-Agree key (suc n) [] s t = tt
search_levels-Agree key (suc n) (files ∷ levels) s t =
    Agree-or_next (search_files key files s) (search_files key files t) _ _
      (search_files-Agree key files s t) (λ s' t'. search_levels-Agree key n levels s' t')

-- What Get answers, without the counters that it moves.
abbrev pub answer : Bytes → Lsm → Outcome (Option Bytes)
answer key l = get key l >>= λ p. ok p.0

-- What Get makes of what the levels have.
abbrev reply :
    (Option Entry → Option Bytes) → Lsm → Option Entry × Stats → Outcome (Option Bytes × Lsm)
reply shown l p = ok (shown p.0, record l { stats = p.1 })

same_answer :
    (shown : Option Entry → Option Bytes) (a b : Outcome (Option Entry × Stats)) (l l' : Lsm)
    → Agree a b
    → ((a >>= λ p. reply shown l p) >>= λ p. ok p.0)
      ≡ ((b >>= λ p. reply shown l' p) >>= λ p. ok p.0)
same_answer shown (ok p) (ok q) l l' h = ap (λ o. ok (shown o)) h
same_answer shown (ok p) (fail e) l l' h = absurd h
same_answer shown (ok p) panic l l' h = absurd h
same_answer shown (fail e) (ok q) l l' h = absurd h
same_answer shown (fail e) (fail d) l l' h = ap (λ x. fail x) h
same_answer shown (fail e) panic l l' h = absurd h
same_answer shown panic (ok q) l l' h = absurd h
same_answer shown panic (fail d) l l' h = absurd h
same_answer shown panic panic l l' h = refl

-- An entry in the memtable answers, and without one the levels do, whatever the memtable.
pub answer_found :
    (key : Bytes) (l : Lsm) (e : Entry)
    → MemTable.get key l.memtable ≡ some e
    → answer key l ≡ ok (visible e)
unfolding get
answer_found key l e h = rw h refl

pub answer_below :
    (key : Bytes) (l l' : Lsm)
    → l'.levels ≡ l.levels
    → l'.num_levels ≡ l.num_levels
    → MemTable.get key l'.memtable ≡ MemTable.get key l.memtable
    → answer key l' ≡ answer key l
answer_below key l l' same_levels same_count same =
    elim (Option-cases (MemTable.get key l.memtable)) [
      | inl nothing ↦
          unfold get in
          rw (same, nothing, same_levels, same_count)
            (same_answer _ (search_levels key l.num_levels l.levels l'.stats)
              (search_levels key l.num_levels l.levels l.stats)
              (record l' { num_levels = l.num_levels; levels = l.levels }) l
              (search_levels-Agree key l.num_levels l.levels l'.stats l.stats))
      | inr (e, found) ↦ answer_found key l' e (same ∙ found) ∙ sym (answer_found key l e found)
    ]
