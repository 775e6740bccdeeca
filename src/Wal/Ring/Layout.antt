-- ===== src/Wal/Ring/Layout.antt =====
-- init of internal/wal/io_uring_linux.go: the layout of the two structs that the kernel reads and writes.
use lsm_tree_go.Common.{
  ℕ, zero, suc, ◌+◌, ◌*◌, ◌/◌, List, [], ◌∷◌, get_elem?, Option, some, none, ◌==◌, if◌then◌else◌,
}
use lsm_tree_go.Common.Outcome.{Outcome, ok, panic, ◌>>◌}

-- The sizes of the fields in bytes, in the order of the struct; a field is aligned to its size.
unfoldable pub sqe_fields : List ℕ
sqe_fields = 1 ∷ 1 ∷ 2 ∷ 4 ∷ 8 ∷ 8 ∷ 4 ∷ 4 ∷ 8 ∷ 2 ∷ 2 ∷ 4 ∷ 8 ∷ 8 ∷ []

unfoldable pub cqe_fields : List ℕ
cqe_fields = 8 ∷ 4 ∷ 4 ∷ []

abbrev align : ℕ → ℕ → ℕ
align zero n = n
align (suc m) n = (n + m) / suc m * suc m

-- `unsafe.Offsetof` of the fields from `pos` on
unfoldable pub offsets : ℕ → List ℕ → List ℕ
offsets pos [] = []
offsets pos (size ∷ sizes) = align size pos ∷ offsets (align size pos + size) sizes

-- `unsafe.Sizeof`, of a struct aligned to eight bytes
unfoldable pub size_of : ℕ → List ℕ → ℕ
size_of pos [] = align 8 pos
size_of pos (size ∷ sizes) = size_of (align size pos + size) sizes

-- `if got != want { panic(…) }`
abbrev pub expect : Option ℕ → ℕ → Outcome (Unit {0})
expect none want = panic
expect (some got) want = if got == want then ok tt else panic

unfoldable pub init : Outcome (Unit {0})
init =
    expect (some (size_of 0 sqe_fields)) 64
    >> expect (get_elem? sqe 0) 0
    >> expect (get_elem? sqe 1) 1
    >> expect (get_elem? sqe 3) 4
    >> expect (get_elem? sqe 4) 8
    >> expect (get_elem? sqe 5) 16
    >> expect (get_elem? sqe 6) 24
    >> expect (get_elem? sqe 8) 32
    >> expect (some (size_of 0 cqe_fields)) 16
    >> expect (get_elem? cqe 0) 0
    >> expect (get_elem? cqe 1) 8
  where
    sqe : List ℕ
    sqe = offsets 0 sqe_fields

    cqe : List ℕ
    cqe = offsets 0 cqe_fields
