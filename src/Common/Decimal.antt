-- ===== src/Common/Decimal.antt =====
-- Numbers in decimal: `%d` and `%08d` of fmt, and strconv.Atoi.
use lsm_tree_go.Common.Tests.{ltb, leb, ◌==◌, if◌then◌else◌, ◌>>=◌}
use lsm_tree_go.Common.Lists.{length, replicate}
use lsm_tree_go.Common.Int.{ℤ, pos, negsuc}
use lsm_tree_go.Common.Keys.{Bytes}
use Prim.Native.Nat.{ℕ, zero, suc, ◌+◌, ◌-◌, ◌*◌, ◌/◌, ◌%◌, ◌^◌}
use mathlib.Core.Bool.{◌&&◌}
use mathlib.Core.Path.{◌≡◌, refl}
use mathlib.Core.Option.{Option, none, some}
use mathlib.Core.List.{[], ◌∷◌, ◌++◌}

-- The digits in front of `behind`. A uint64 has twenty at most.
decimal_loop : ℕ → ℕ → Bytes → Bytes
decimal_loop zero n behind = behind
decimal_loop (suc fuel) n behind =
    let digits = (48 + n % 10) ∷ behind in
    let more = decimal_loop fuel (n / 10) digits in if ltb n 10 then digits else more

-- `%d`
unfoldable pub decimal : ℕ → Bytes
unfolding decimal_loop
decimal n = decimal_loop 20 n []

-- `%08d`
unfoldable pub decimal_8 : ℕ → Bytes
decimal_8 n = let digits = decimal n in replicate (8 - length digits) 48 ++ digits

digits_value : ℕ → Bytes → Option ℕ
digits_value n [] = some n
digits_value n (b ∷ bs) =
    let more = digits_value (n * 10 + (b - 48)) bs in if leb 48 b && leb b 57 then more else none

-- An empty list of digits is an error.
some_digits : Bytes → Option ℕ
some_digits [] = none
some_digits (b ∷ bs) = digits_value 0 (b ∷ bs)

abbrev below : ℕ → (ℕ → ℤ) → ℕ → Option ℤ
below limit f n = if leb n limit then some (f n) else none

negated : ℕ → ℤ
negated zero = pos 0
negated (suc n) = negsuc n

-- strconv.Atoi; an error is `none`.
unfoldable pub atoi : Bytes → Option ℤ
unfolding some_digits digits_value negated
atoi [] = none
atoi (b ∷ bs) =
    if b == b'-'
    then some_digits bs >>= below (2 ^ 63) negated
    else if b == b'+'
    then some_digits bs >>= below (2 ^ 63 - 1) pos
    else some_digits (b ∷ bs) >>= below (2 ^ 63 - 1) pos

number_80 : decimal_8 1204 ≡ 48 ∷ 48 ∷ 48 ∷ 48 ∷ 49 ∷ 50 ∷ 48 ∷ 52 ∷ []
unfolding decimal_8 decimal
number_80 = refl

read_back : atoi (decimal 907) ≡ some (pos 907)
unfolding atoi decimal
read_back = refl
