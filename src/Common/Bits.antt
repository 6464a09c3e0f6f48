-- ===== src/Common/Bits.antt =====
-- The bits of a byte: what `|= mask` and `&= ^mask` do to a mask `1 << i`, by a table over all
-- bytes and bits.
use Prim.Native.Nat.{ℕ, zero, suc, ◌-◌, ◌^◌, ◌<◌, bit_and, bit_or}
use mathlib.Core.Path.{◌≡◌, refl}
use mathlib.Core.Bool.{Bool, true, false, not}
use native.Mathlib.Omega.{arith}
use local_worker.Common.Tests.{ltb, ◌==◌, if◌then◌else◌, same_bool, same_bool→eq, ltb→lt, ==_iff}

-- `x&mask != 0`
abbrev pub has_bit : ℕ → ℕ → Bool
has_bit x mask = not (bit_and x mask == 0)

-- `x |= mask`
abbrev pub raise_bit : ℕ → ℕ → ℕ
raise_bit x mask = bit_or x mask

-- `x &= ^mask` on a byte
abbrev pub lower_bit : ℕ → ℕ → ℕ
lower_bit x mask = bit_and x (255 - mask)

-- The branch that the drivers make on a Boolean value.
abbrev pub put_bit : Bool → ℕ → ℕ → ℕ
put_bit v x mask = if v then raise_bit x mask else lower_bit x mask

-- Whether every number below the limit passes the test.
unfoldable pub check_below : ℕ → (ℕ → Bool) → Bool
check_below zero test = true
check_below (suc limit) test = if test limit then check_below limit test else false

pub check_below_lem :
    (limit : ℕ) (test : ℕ → Bool) (x : ℕ)
    → check_below limit test ≡ true
    → x < limit
    → test x ≡ true
unfolding check_below
check_below_lem zero test x passed below = absurd (omega arith)
check_below_lem (suc limit) test x passed below = ground (arith, check_below_lem limit test x)

abbrev put_row : Bool → ℕ → ℕ → ℕ → Bool
put_row v x i j =
    same_bool (has_bit (put_bit v x (2 ^ i)) (2 ^ j)) (if i == j then v else has_bit x (2 ^ j))

put_table :
    (v : Bool) → check_below 256 (λ x. check_below 8 (λ i. check_below 8 (put_row v x i))) ≡ true
unfolding check_below
put_table true = refl
put_table false = refl

-- Writing bit `i` gives it the value and leaves the other bits.
pub has_bit-put_bit :
    (v : Bool) (x i j : ℕ)
    → x < 256
    → i < 8
    → j < 8
    → has_bit (put_bit v x (2 ^ i)) (2 ^ j) ≡ (if i == j then v else has_bit x (2 ^ j))
has_bit-put_bit v x i j hx hi hj = same_bool→eq _ _ (
    check_below_lem 8 (put_row v x i) j
      (check_below_lem 8 (λ i. check_below 8 (put_row v x i)) i
        (check_below_lem 256 (λ x. check_below 8 (λ i. check_below 8 (put_row v x i))) x
          (put_table v) hx)
        hi)
      hj)

put_byte_table :
    (v : Bool) → check_below 256 (λ x. check_below 8 (λ i. ltb (put_bit v x (2 ^ i)) 256)) ≡ true
unfolding check_below
put_byte_table true = refl
put_byte_table false = refl

pub put_bit-lt : (v : Bool) (x i : ℕ) → x < 256 → i < 8 → put_bit v x (2 ^ i) < 256
put_bit-lt v x i hx hi = ltb→lt _ _ (
    check_below_lem 8 (λ i. ltb (put_bit v x (2 ^ i)) 256) i
      (check_below_lem 256 (λ x. check_below 8 (λ i. ltb (put_bit v x (2 ^ i)) 256)) x
        (put_byte_table v) hx)
      hi)

abbrev twice_row : Bool → ℕ → ℕ → Bool
twice_row v x i = put_bit v (put_bit v x (2 ^ i)) (2 ^ i) == put_bit v x (2 ^ i)

twice_table : (v : Bool) → check_below 256 (λ x. check_below 8 (twice_row v x)) ≡ true
unfolding check_below
twice_table true = refl
twice_table false = refl

-- A second write of the same bit changes nothing, which makes a retry harmless.
pub put_bit-put_bit :
    (v : Bool) (x i : ℕ)
    → x < 256
    → i < 8
    → put_bit v (put_bit v x (2 ^ i)) (2 ^ i) ≡ put_bit v x (2 ^ i)
put_bit-put_bit v x i hx hi = (==_iff _ _).0 (
    check_below_lem 8 (twice_row v x) i
      (check_below_lem 256 (λ x. check_below 8 (twice_row v x)) x (twice_table v) hx) hi)
