-- ===== src/Util/UntilCanceled/Delays.antt =====
-- The delays of until.go.
use local_worker.Common.{ℕ, zero, suc, ◌≤◌, List, [], ◌∷◌, M, Result, ok, err, ◌≡◌, refl, arith}
use local_worker.Util.UntilCanceled.{first_delay, longest_delay, next_delay, calls, until_canceled}

abbrev InBounds : List ℕ → Type 0
InBounds [] = Unit
InBounds (d ∷ ds) = (first_delay ≤ d) × (d ≤ longest_delay) × InBounds ds

next_delay-bounds :
    (r : Result (Unit {0})) (d : ℕ)
    → first_delay ≤ d
    → d ≤ longest_delay
    → (first_delay ≤ next_delay r d) × (next_delay r d ≤ longest_delay)
unfolding next_delay
next_delay-bounds (ok u) d low high = omega arith
next_delay-bounds (err e) d low high = ground arith

module _ {W : Type 0} (callback : M W (Unit {0})) where
  calls-InBounds :
      (n d : ℕ) (w : W) → first_delay ≤ d → d ≤ longest_delay → InBounds (calls callback n d w).0
  unfolding calls
  calls-InBounds zero d w low high = tt
  calls-InBounds (suc n) d w low high =
      let b = next_delay-bounds (callback w).0 d low high in
      (b.0, b.1, calls-InBounds n _ (callback w).1 b.0 b.1)

  -- The calls of the function, whatever they return.
  abbrev repeat : ℕ → W → W
  repeat zero w = w
  repeat (suc n) w = repeat n (callback w).1

  calls-repeat : (n d : ℕ) (w : W) → (calls callback n d w).1 ≡ repeat n w
  unfolding calls
  calls-repeat zero d w = refl
  calls-repeat (suc n) d w = calls-repeat n _ (callback w).1

  -- Until its context ends, `UntilCanceled` calls the function again whatever it returned, and waits
  -- between 10 milliseconds and 5 seconds after each call.
  until_canceled-InBounds :
      (n : ℕ) (w : W)
      → ((until_canceled callback n w).1 ≡ repeat n w) × InBounds (until_canceled callback n w).0
  unfolding until_canceled
  until_canceled-InBounds n w =
      (calls-repeat n first_delay w, calls-InBounds n first_delay w (omega arith) (omega arith))
