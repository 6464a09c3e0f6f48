-- ===== src/Bridge/Bus/Recovery.antt =====
-- `recoverFromLockup` of pkg/service/bridge/i2c.go: pulses on the clock line of the bus. The GPIO
-- library and the file that takes the pin back are parameters; the waits are left out. No bus has
-- the flag that makes `NewI2CBus` and `execute` call it.
use local_worker.Common.{
  ℕ, zero, suc, Bool, true, false, List, ◌∷◌, M, Ends, wrap, and_then, wrapping, pure, ok, err,
  Result, ◌>>=◌, ◌>>◌, ◌≡◌, ap, ◌∙◌,
}

-- `gpio.Output` and `gpio.Input`, given the number of the pin and whether it is active low; `Write`
-- of an output; and the file /sys/class/gpio/unexport.
pub record GpioLibrary (P W : Type 0) : Type 0 where
  pub output : ℕ → Bool → Bool → M W P
  pub input : ℕ → Bool → M W P
  pub write : P → Bool → M W (Unit {0})
  pub unexport : ℕ → M W (Unit {0})

abbrev recover_num_clocks : ℕ
recover_num_clocks = 10

module _ {P W : Type 0} (gpio : GpioLibrary P W) where
  -- The loop with `n` turns left.
  unfoldable pub clock : P → ℕ → M W (Unit {0})
  clock scl zero = pure tt
  clock scl (suc n) = do wrap (gpio.write scl false); wrap (gpio.write scl true); clock scl n

  unfoldable recover_from_lockup : ℕ → M W (Unit {0})
  unfolding clock
  recover_from_lockup scl_pin = do
    scl ← wrap (gpio.output scl_pin true true)
    clock scl recover_num_clocks
    _ ← wrap (gpio.input scl_pin true)
    wrap (gpio.unexport scl_pin)

-- What has been written, newest first, after `n` more pulses.
abbrev pulsed : ℕ → List Bool → List Bool
pulsed zero written = written
pulsed (suc n) written = pulsed n (true ∷ false ∷ written)

-- What was written to the line, newest first; the other calls write nothing.
pub record Writes {P W : Type 0} (gpio : GpioLibrary P W) (written : W → List Bool) : Type 0 where
  pub of_write :
      (scl : P) (v : Bool) (w : W)
      → Ends (λ _ t. written t ≡ v ∷ written w) (λ t. Unit) (gpio.write scl v w)
  pub of_output :
      (n : ℕ) (a v : Bool) (w : W)
      → Ends (λ _ t. written t ≡ written w) (λ t. Unit) (gpio.output n a v w)
  pub of_input :
      (n : ℕ) (a : Bool) (w : W)
      → Ends (λ _ t. written t ≡ written w) (λ t. Unit) (gpio.input n a w)
  pub of_unexport :
      (n : ℕ) (w : W) → Ends (λ _ t. written t ≡ written w) (λ t. Unit) (gpio.unexport n w)

abbrev OnSuccess : {A W : Type 0} → (A → W → Type 0) → Result A × W → Type 0
OnSuccess Good out = Ends Good (λ t. Unit) out

wrapped :
    {A W : Type 0} (Good : A → W → Type 0) (out : Result A × W)
    → OnSuccess Good out
    → OnSuccess Good (wrapping out)
wrapped Good (ok a, t) h = h
wrapped Good (err e, t) h = tt

then_wrapped :
    {A B W : Type 0} (Good : A → W → Type 0) (Good' : B → W → Type 0) (f : A → M W B)
    (out : Result A × W)
    → OnSuccess Good out
    → ((a : A) (t : W) → Good a t → OnSuccess Good' (f a t))
    → OnSuccess Good' (and_then f (wrapping out))
then_wrapped Good Good' f (ok a, t) h g = g a t h
then_wrapped Good Good' f (err e, t) h g = tt

module _ {P W : Type 0} (gpio : GpioLibrary P W) (written : W → List Bool)
    (writes : Writes gpio written) where
  -- The line has been written to as `l` says.
  abbrev Written : {A : Type 0} → List Bool → A → W → Type 0
  Written l a t = written t ≡ l

  then_write :
      (scl : P) (v : Bool) (l l' : List Bool) (m : M W (Unit {0})) (w : W)
      → written w ≡ l
      → ((t : W) → written t ≡ v ∷ l → OnSuccess (Written l') (m t))
      → OnSuccess (Written l') ((wrap (gpio.write scl v) >> m) w)
  then_write scl v l l' m w e g =
      then_wrapped (λ (_ : Unit {0}) t. written t ≡ v ∷ written w) (Written l') (λ _. m)
        (gpio.write scl v w) (writes.of_write scl v w) (λ _ t h. g t (h ∙ ap (λ x. v ∷ x) e))

  clock-pulsed :
      (scl : P) (n : ℕ) (l : List Bool) (w : W)
      → written w ≡ l
      → OnSuccess (Written (pulsed n l)) (clock gpio scl n w)
  unfolding clock
  clock-pulsed scl zero l w e = e
  clock-pulsed scl (suc n) l w e =
      let goal = pulsed n (true ∷ false ∷ l) in
      then_write scl false l goal (wrap (gpio.write scl true) >> clock gpio scl n) w e (λ t h.
        then_write scl true (false ∷ l) goal (clock gpio scl n) t h
          (clock-pulsed scl n (true ∷ false ∷ l)))

  then_clock :
      (l : List Bool) (m : M W (Unit {0})) (out : Result (Unit {0}) × W)
      → OnSuccess (Written l) out
      → ((t : W) → written t ≡ l → OnSuccess (Written l) (m t))
      → OnSuccess (Written l) (and_then (λ _. m) out)
  then_clock l m (ok a, t) h g = g t h
  then_clock l m (err e, t) h g = tt

  released :
      {A : Type 0} (l : List Bool) (w : W) (out : Result A × W)
      → written w ≡ l
      → OnSuccess (λ _ t. written t ≡ written w) out
      → OnSuccess (Written l) out
  released l w (ok x, t) e h = h ∙ e
  released l w (err x, t) e h = tt

  -- If the recovery succeeds, the line has got ten pulses, each a write of false and then of true, and
  -- nothing else.
  recover_from_lockup-pulsed :
      (scl_pin : ℕ) (w : W)
      → OnSuccess
          (Written (pulsed recover_num_clocks (written w)))
          (recover_from_lockup gpio scl_pin w)
  unfolding recover_from_lockup
  recover_from_lockup-pulsed scl_pin w =
      let l = pulsed recover_num_clocks (written w) in
      then_wrapped (λ (_ : P) t. written t ≡ written w) (Written l) _
        (gpio.output scl_pin true true w) (writes.of_output scl_pin true true w)
        (λ scl t h.
          then_clock l _ (clock gpio scl recover_num_clocks t)
            (clock-pulsed scl recover_num_clocks (written w) t h)
            (λ u k.
              then_wrapped (λ (_ : P) v. written v ≡ l) (Written l) _ (gpio.input scl_pin true u)
                (released l u (gpio.input scl_pin true u) k (writes.of_input scl_pin true u))
                (λ _ v e.
                  wrapped (Written l) (gpio.unexport scl_pin v)
                    (released l v (gpio.unexport scl_pin v) e (writes.of_unexport scl_pin v)))))
