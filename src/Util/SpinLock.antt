-- ===== src/Util/SpinLock.antt =====
-- pkg/service/util/spinlock.go: a lock that a compare-and-swap takes and a store gives back. The
-- waits of `Lock` between its attempts are counted; what the scheduler does in one is not modelled.
pub mod Exclusion
use local_worker.Common.{ℕ, zero, suc, ◌*◌, ◌==◌, ltb, if◌then◌else◌, Bool, true, false, not}

pub record SpinLock : Type 0 where
  pub flags : ℕ

-- `atomic.CompareAndSwapUint32(&l.flags, 0, 1)`
unfoldable pub try_lock : SpinLock → Bool × SpinLock
try_lock l = if l.flags == 0 then (true, record { flags = 1 }) else (false, l)

unfoldable pub unlock : SpinLock → SpinLock
unlock l = record { flags = 0 }

-- The number of times that `Lock` yields after an attempt, from the number before.
abbrev pub next_backoff : ℕ → ℕ
next_backoff backoff = if ltb backoff 64 then backoff * 2 else backoff

-- After the first attempts have failed.
unfoldable pub backoff_after : ℕ → ℕ
backoff_after zero = 1
backoff_after (suc failures) = next_backoff (backoff_after failures)
