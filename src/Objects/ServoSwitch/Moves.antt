-- ===== src/Objects/ServoSwitch/Moves.antt =====
-- The arithmetic of a servo's move: `uint32` pulse lengths that step towards a target.
use local_worker.Common.{ℕ, ◌-◌, ◌^◌, ◌≤◌, ◌<◌, ltb, if◌then◌else◌, ◌≡◌, arith}
use local_worker.Objects.ServoSwitch.{IntSize, bits32, bits64, int_half, next_pl}

-- How far two pulse lengths are apart.
abbrev pub gap : ℕ → ℕ → ℕ
gap a b = if ltb a b then b - a else a - b

-- If `int` holds the gap, one move takes the step, or what is left of the way, off it.
pub next_pl-gap :
    (size : IntSize) (step target current : ℕ)
    → target < 2 ^ 32
    → current < 2 ^ 32
    → gap target current < int_half size
    → gap target (next_pl size step target current) ≡ gap target current - step
unfolding next_pl
next_pl-gap bits32 step target current ht hc hg = ground arith
next_pl-gap bits64 step target current ht hc hg = ground arith

-- A move stays between the two ends, also where `int` does not hold the gap: nothing wraps around.
pub next_pl-between :
    (size : IntSize) (step target current lo hi : ℕ)
    → hi < 2 ^ 32
    → lo ≤ target
    → target ≤ hi
    → lo ≤ current
    → current ≤ hi
    → (lo ≤ next_pl size step target current) × (next_pl size step target current ≤ hi)
unfolding next_pl
next_pl-between bits32 step target current lo hi h a b c d = ground arith
next_pl-between bits64 step target current lo hi h a b c d = ground arith
