-- ===== src/Objects/Service/Pings/Uptime.antt =====
-- The uptime that a worker reports.
use local_worker.Common.{ℕ, true, false, List, [], ◌∷◌, map, ◌≡◌, refl, ap, ap₂, arith}
use local_worker.Devices.Service.{online, is_status}
use local_worker.Objects.Service.Pings.{
  Identity, Situation, Pinger, message, restarted, after_ping, ping_round, ping_rounds,
}

abbrev AllOnline : List Situation → Type 0
AllOnline [] = Unit
AllOnline (s ∷ ss) = (is_status s.status online ≡ true) × AllOnline ss

-- The pinger counts from `start`.
abbrev CountsFrom : ℕ → Pinger → Type 0
CountsFrom start p = (p.start_time ≡ start) × (p.was_not_online ≡ false)

after_ping-CountsFrom :
    (start : ℕ) (s : Situation) (p : Pinger)
    → CountsFrom start p
    → CountsFrom start (after_ping s p).1
after_ping-CountsFrom start s p h = ground arith

restarted-CountsFrom :
    (start : ℕ) (now : ℕ) (p : Pinger) → CountsFrom start p → CountsFrom start (restarted now p)
restarted-CountsFrom start now p h = ground arith

steady :
    (identity : Identity) (start : ℕ) (ss : List Situation) (p : Pinger)
    → AllOnline ss
    → CountsFrom start p
    → (ping_rounds identity ss p).0 ≡ map (message identity start) ss
unfolding ping_rounds ping_round
steady identity start [] p all h = refl
steady identity start (s ∷ ss) p all h =
    let q = restarted s.now p in
    let counts = restarted-CountsFrom start s.now p h in
    rw (all.0) (
      ap₂ ◌∷◌ (ap (λ t. message identity t s) counts.0) (
        steady identity start ss (after_ping s q).1 all.1 (after_ping-CountsFrom start s q counts)))

-- After a round in which the worker is not online, and as long as it is online from then on: each round
-- sends one message, whose uptime is counted in seconds from the first of these rounds.
pub ping_rounds-since_online :
    (identity : Identity) (d s : Situation) (ss : List Situation) (p : Pinger)
    → is_status d.status online ≡ false
    → AllOnline (s ∷ ss)
    → (ping_rounds identity (d ∷ s ∷ ss) p).0 ≡ map (message identity s.now) (s ∷ ss)
unfolding ping_rounds ping_round
ping_rounds-since_online identity d s ss p off all =
    rw (off, all.0)
      (ap (λ ms. message identity s.now s ∷ ms)
        (steady identity s.now ss _ all.1 (
          after_ping-CountsFrom s.now s (record p { start_time = s.now; was_not_online = false })
            (refl, refl))))
