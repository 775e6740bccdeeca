-- ===== src/Lsm/Apart.antt =====
-- What HasOverlappingLevels says of a level.
use mathlib.Core.List.{Perm}
use mathlib.Core.List.Perm
use lsm_tree_go.Common.{
  ◌<◌, ◌≡◌, true, false, List, [], ◌∷◌, All, length, leb, arith, Bool-cases, inl, inr,
}
use lsm_tree_go.Common.Keys.{key_lt, key_lt_trans, key_cases}
use lsm_tree_go.Common.Outcome.{ok, Outcome-eq_of_ok}
use lsm_tree_go.SsTable.Reader.{SsTable}
use lsm_tree_go.Lsm.Info.{Span, spans, insert_span, sort_spans, has_overlap, level_overlaps}

-- The last index key is not below the first.
abbrev pub IsRange : Span → Type 0
IsRange s = key_lt s.last s.first ≡ false

-- Every span ends below the start of those behind it.
abbrev pub IsChain : List Span → Type 0
IsChain [] = Unit
IsChain (s ∷ ss) = All (λ t. key_lt s.last t.first ≡ true) ss × IsChain ss

insert_span-perm : (s : Span) (ss : List Span) → Perm (insert_span s ss) (s ∷ ss)
unfolding insert_span
insert_span-perm s [] = Perm.rfl
insert_span-perm s (t ∷ ss) = elim (Bool-cases (key_lt t.first s.first)) [
  | inl before ↦ rw before (Perm.trans (Perm.cons t (insert_span-perm s ss)) (Perm.swap s t ss))
  | inr here ↦ rw here Perm.rfl
]

sort_spans-perm : (ss : List Span) → Perm (sort_spans ss) ss
unfolding sort_spans
sort_spans-perm [] = Perm.rfl
sort_spans-perm (s ∷ ss) =
    Perm.trans (insert_span-perm s (sort_spans ss)) (Perm.cons s (sort_spans-perm ss))

insert_span-All :
    (P : Span → Type 0) (s : Span) (ss : List Span) → P s → All P ss → All P (insert_span s ss)
unfolding insert_span
insert_span-All P s [] p h = (p, tt)
insert_span-All P s (t ∷ ss) p h = elim (Bool-cases (key_lt t.first s.first)) [
  | inl before ↦ rw before (h.0, insert_span-All P s ss p h.1)
  | inr here ↦ rw here (p, h)
]

sort_spans-All : (P : Span → Type 0) (ss : List Span) → All P ss → All P (sort_spans ss)
unfolding sort_spans
sort_spans-All P [] h = tt
sort_spans-All P (s ∷ ss) h = insert_span-All P s (sort_spans ss) h.0 (sort_spans-All P ss h.1)

-- What lies behind the start of a range lies behind all that ends before the range.
behind :
    (s t : Span) (ss : List Span)
    → key_lt s.last t.first ≡ true
    → IsRange t
    → All (λ u. key_lt t.last u.first ≡ true) ss
    → All (λ u. key_lt s.last u.first ≡ true) ss
behind s t [] p r h = tt
behind s t (u ∷ ss) p r h = (past, behind s t ss p r h.1)
  where
    past : key_lt s.last u.first ≡ true
    past = ground (
      arith,
      h.0,
      key_cases t.first t.last,
      key_lt_trans s.last t.first t.last,
      key_lt_trans s.last t.last u.first,
    )

has_overlap-IsChain : (ss : List Span) → All IsRange ss → has_overlap ss ≡ false → IsChain ss
unfolding has_overlap
has_overlap-IsChain [] r h = tt
has_overlap-IsChain (s ∷ []) r h = (tt, tt)
has_overlap-IsChain (s ∷ t ∷ ss) r h = elim (Bool-cases (key_lt s.last t.first)) [
  | inr overlap ↦ absurd (let q = rw overlap at h in cc)
  | inl apart ↦
      let rest = has_overlap-IsChain (t ∷ ss) r.1 (rw apart at h) in
      ((apart, behind s t ss apart r.1.0 rest.0), rest)
]

-- Where no table's last index key is below its first and a level of several tables is said not to overlap, the
-- tables can be put in an order in which each ends below the starts of all behind it: no two share a key of
-- their ranges.
pub level_overlaps_lem :
    (files : List SsTable) (ss : List Span)
    → 1 < length files
    → spans files ≡ ok ss
    → All IsRange ss
    → level_overlaps files ≡ ok false
    → (out : List Span) × Perm out ss × IsChain out
unfolding level_overlaps
level_overlaps_lem files ss n e r h =
    let several : leb (length files) 1 ≡ false = ground arith in
    (
      sort_spans ss,
      sort_spans-perm ss,
      has_overlap-IsChain (sort_spans ss) (sort_spans-All IsRange ss r)
          (Outcome-eq_of_ok (has_overlap (sort_spans ss)) false (rw (several, e) at h)),
    )
