-- ===== src/Util/UntilCanceled.antt =====
-- pkg/service/util/until.go: `UntilCanceled` calls a function again and again until its context ends,
-- with a delay that grows while the calls fail.
pub mod Delays
use local_worker.Common.{
  ℕ, zero, suc, ◌*◌, ◌/◌, ltb, if◌then◌else◌, List, [], ◌∷◌, M, Result, ok, err,
}

-- 10 ms and 5 s in nanoseconds
abbrev pub first_delay : ℕ
first_delay = 10_000_000

abbrev pub longest_delay : ℕ
longest_delay = 5_000_000_000

-- The product with 1.5 is exact for these durations, and its fraction is dropped.
unfoldable pub next_delay : Result (Unit {0}) → ℕ → ℕ
next_delay (ok u) delay = first_delay
next_delay (err e) delay =
    if ltb longest_delay (delay * 3 / 2) then longest_delay else delay * 3 / 2

module _ {W : Type 0} (callback : M W (Unit {0})) where
  -- The delays that are waited for, when the context ends after the given number of calls.
  unfoldable pub calls : ℕ → ℕ → W → List ℕ × W
  unfolding next_delay
  calls zero delay w = ([], w)
  calls (suc n) delay w =
      let rest = calls n (next_delay (callback w).0 delay) (callback w).1 in
      (next_delay (callback w).0 delay ∷ rest.0, rest.1)

  unfoldable pub until_canceled : ℕ → W → List ℕ × W
  unfolding calls
  until_canceled n w = calls n first_delay w
