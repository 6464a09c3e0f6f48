-- ===== src/Util/SpinLock/Exclusion.antt =====
-- Goroutines around one spin lock.
use local_worker.Common.{
  ℕ, zero, suc, ◌+◌, ◌^◌, ◌≤◌, ◌==◌, ltb, if◌then◌else◌, List, [], ◌∷◌, ◌++◌, length, ◌≡◌, refl, ap,
  ◌∙◌, arith, Bool-cases, inl, inr,
}
use local_worker.Util.SpinLock.{SpinLock, try_lock, unlock, next_backoff, backoff_after}

-- The lock, and the goroutines that are between a successful attempt and their `Unlock`.
pub record Around : Type 0 where
  pub lock : SpinLock
  pub inside : List ℕ

abbrev without : ℕ → List ℕ → List ℕ
without g [] = []
without g (x ∷ xs) = if x == g then xs else x ∷ without g xs

-- An attempt of a goroutine outside, which may fail and be made again; and `Unlock` by one inside.
pub data Step : Around → Around → Type 0 where
  attempt :
      (s : Around) (goroutine : ℕ)
      → Step s (record {
        lock = (try_lock s.lock).1;
        inside = if (try_lock s.lock).0 then goroutine ∷ s.inside else s.inside;
      })
  leave :
      (lock : SpinLock) (goroutine : ℕ) (before after : List ℕ)
      → Step
          (record { lock = lock; inside = before ++ (goroutine ∷ after) })
          (record { lock = unlock lock; inside = before ++ after })

pub data Reach (s : Around) : Around → Type 0 where
  here : Reach s s
  next : {t u : Around} → Reach s t → Step t u → Reach s u

abbrev pub free : Around
free = record { lock = record { flags = 0 }; inside = [] }

-- The flag is 1 if a goroutine is inside and 0 if none is, and there is at most one.
pub record IsExclusive (s : Around) : Type 0 where
  flag : s.lock.flags ≡ length s.inside
  pub one : length s.inside ≤ 1

attempt-IsExclusive :
    (s : Around) (g : ℕ)
    → IsExclusive s
    → IsExclusive (record {
      lock = (try_lock s.lock).1;
      inside = if (try_lock s.lock).0 then g ∷ s.inside else s.inside;
    })
unfolding try_lock
attempt-IsExclusive s g h = elim (Bool-cases (s.lock.flags == 0)) [
  | inl e ↦ rw e (record { flag = ground (arith, h.flag); one = ground (arith, h.flag) })
  | inr e ↦ rw e (record { flag = h.flag; one = h.one })
]

length-middle :
    (before : List ℕ) (g : ℕ) (after : List ℕ)
    → length (before ++ (g ∷ after)) ≡ length (before ++ after) + 1
length-middle [] g after = omega arith
length-middle (b ∷ before) g after = omega (arith, length-middle before g after)

Step-IsExclusive : {s t : Around} → Step s t → IsExclusive s → IsExclusive t
unfolding unlock
Step-IsExclusive (attempt s g) h = attempt-IsExclusive s g h
Step-IsExclusive (leave lock g before after) h = record {
  flag = omega (arith, length-middle before g after, h.one);
  one = omega (arith, length-middle before g after, h.one);
}

-- From a free lock, however the goroutines' attempts and unlocks follow each other, if only a
-- goroutine inside unlocks: at most one is inside, and the flag is 1 exactly if one is.
pub Reach-IsExclusive : {s : Around} → Reach free s → IsExclusive s
Reach-IsExclusive here = record { flag = refl; one = omega arith }
Reach-IsExclusive (next r st) = Step-IsExclusive st (Reach-IsExclusive r)

past : (k : ℕ) → backoff_after (suc (suc (suc (suc (suc (suc k)))))) ≡ 64
unfolding backoff_after
past zero = refl
past (suc k) = ap next_backoff (past k)

-- After so many failed attempts, `Lock` yields 2 to their number, from the sixth on 64 times.
backoff_after_lem : (n : ℕ) → backoff_after n ≡ (if ltb n 6 then 2 ^ n else 64)
unfolding backoff_after
backoff_after_lem zero = refl
backoff_after_lem (suc zero) = refl
backoff_after_lem (suc (suc zero)) = refl
backoff_after_lem (suc (suc (suc zero))) = refl
backoff_after_lem (suc (suc (suc (suc zero)))) = refl
backoff_after_lem (suc (suc (suc (suc (suc zero))))) = refl
backoff_after_lem (suc (suc (suc (suc (suc (suc k)))))) = past k ∙ ground arith
