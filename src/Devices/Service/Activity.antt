-- ===== src/Devices/Service/Activity.antt =====
-- The red light that `runActiveNotify` of service.go drives.
use local_worker.Common.{
  ℕ, zero, suc, ◌+◌, ◌≤◌, ◌<◌, List, [], ◌∷◌, ◌++◌, ◌≡◌, ◌≢◌, refl, ap, ◌∙◌, arith,
}
use local_worker.Devices.Service.{Notifier, Light, nothing, blink, off, notify}

-- What the run_active_notify do, at which the counter reads the numbers of the list.
abbrev run_active_notify : List ℕ → Notifier → List Light
run_active_notify [] n = []
run_active_notify (a ∷ rest) n = let out = notify a n in out.0 ∷ run_active_notify rest out.1

abbrev pub replicate : {A : Type 0} → ℕ → A → List A
replicate zero x = []
replicate (suc n) x = x ∷ replicate n x

-- No tick takes the counter of quiet run_active_notify above 20.
notify-count_le : (a : ℕ) (n : Notifier) → n.count ≤ 20 → (notify a n).1.count ≤ 20
unfolding notify
notify-count_le a n h = ground arith

still :
    (a : ℕ) (n : Notifier)
    → n.last_active_count ≡ a
    → n.count < 20
    → notify a n ≡ (nothing, record n { count = n.count + 1 })
unfolding notify
still a n e h = ground arith

stops : (a : ℕ) (n : Notifier) → n.last_active_count ≡ a → n.count ≡ 20 → (notify a n).0 ≡ off
unfolding notify
stops a n e h = ground arith

changed :
    (a : ℕ) (n : Notifier)
    → n.last_active_count ≢ a
    → notify a n ≡ (blink, record { last_active_count = a; count = 0 })
unfolding notify
changed a n h = ground arith

quiet :
    (k a : ℕ) (n : Notifier)
    → n.last_active_count ≡ a
    → n.count + k ≡ 20
    → run_active_notify (replicate (suc k) a) n ≡ replicate k nothing ++ (off ∷ [])
quiet zero a n e h = ap (λ x. x ∷ []) (stops a n e (omega arith))
quiet (suc k) a n e h =
    ap (λ out. out.0 ∷ run_active_notify (replicate (suc k) a) out.1) (still a n e (omega arith))
    ∙ ap (λ l. nothing ∷ l) (quiet k a (record n { count = n.count + 1 }) e (omega arith))

-- When the counter of activity has changed, the next tick makes the light blink; if it then stays as
-- it is, the light is switched off at the twenty-first tick after that one, and nothing is done with it
-- before.
blink_then_off :
    (a : ℕ) (n : Notifier)
    → n.last_active_count ≢ a
    → run_active_notify (a ∷ replicate 21 a) n ≡ blink ∷ (replicate 20 nothing ++ (off ∷ []))
blink_then_off a n h =
    ap (λ out. out.0 ∷ run_active_notify (replicate 21 a) out.1) (changed a n h)
    ∙ ap (λ l. blink ∷ l) (quiet 20 a (record { last_active_count = a; count = 0 }) refl refl)
