-- ===== src/Devices/Ads1115/Conversion.antt =====
-- What the value is that `Get` of ads1115.go returns.
use local_worker.Common.{
  ℕ, zero, suc, ◌==◌, Bool, true, false, Option, none, some, ◌≡◌, ◌⊎◌, inl, inr, ◌∙◌, bit_and,
  Result, ok, err, pure, ◌>>=◌, ◌>>◌, modify, Ends, Ends-bind, arith,
}
use local_worker.Bridge.{Host, I2cBus, on_world, lift_world}
use local_worker.Devices.Ads1115.{
  Ads1115, Waiting, os_mask, os_not_busy, create_config_bits, read_word_reg, is_conversion_complete,
  wait_complete, read_config, fetch_value, unless_complete, write_config, get,
}
use local_worker.Devices.Ads1115.Registers.{
  ConverterOn, Given, Fetched, read_word_reg-Ends, write_config-Ends,
}

-- What `Get` leaves: a value only if it is what the conversion register reads.
abbrev pub Converted : {W : Type 0} → (W → ℕ) → (W → ℕ → ℕ) → Option ℕ → Host Ads1115 W → Type 0
Converted given value none t = given t.world ≡ 0xC1A3
Converted given value (some x) t = (x ≡ value t.world 0) × (given t.world ≡ 0xC1A3)

module _ {W : Type 0} (bus : I2cBus Ads1115 W) (a : ℕ) (given : W → ℕ) (value : W → ℕ → ℕ)
    (pointer : W → ℕ) (chip : ConverterOn bus a given value pointer) (waiting : Waiting W)
    (checks : (w : W)
      → Ends (λ _ t. given t ≡ given w) (λ t. given t ≡ given w) (waiting.check_context w))
    (sleeps : (w : W) → given (waiting.sleep w) ≡ given w) where
  -- The configuration of a single shot on the first input, with the bit that starts it.
  abbrev Started : Host Ads1115 W → Type 0
  Started = Given bus a given value pointer chip 0xC1A3

  checked :
      (s : Host Ads1115 W)
      → Started s
      → (out : Result (Unit {0}) × W)
      → Ends (λ _ t. given t ≡ given s.world) (λ t. given t ≡ given s.world) out
      → Ends (λ _. Started) Started (lift_world s out)
  checked s g (ok x, w) h = (g.0, h ∙ g.1)
  checked s g (err e, w) h = (g.0, h ∙ g.1)

  turn_branch :
      (fuel : ℕ) (s : Host Ads1115 W) (complete : Bool)
      → Started s
      → Ends
          (λ _. Started)
          Started
          (wait_complete bus waiting fuel (record s { world = waiting.sleep s.world }))
      → Ends
          (λ _. Started)
          Started
          (unless_complete bus
            (on_world (modify waiting.sleep) >> wait_complete bus waiting fuel)
            complete
            s)
  turn_branch fuel s true g h = g
  turn_branch fuel s false g h = h

  complete-Ends :
      (s : Host Ads1115 W) → Started s → Ends (λ _. Started) Started (is_conversion_complete bus s)
  unfolding is_conversion_complete
  complete-Ends s g =
      Ends-bind (Fetched bus a given value pointer chip 0xC1A3 1) Started (λ _. Started) Started
        (λ status. pure (bit_and status os_mask == os_not_busy)) (read_word_reg bus 1 s)
        (read_word_reg-Ends bus a given value pointer chip 0xC1A3 1 s g) (λ _ t j. j.1) (λ t j. j)

  wait_complete-Ends :
      (fuel : ℕ) (s : Host Ads1115 W)
      → Started s
      → Ends (λ _. Started) Started (wait_complete bus waiting fuel s)
  unfolding wait_complete
  wait_complete-Ends zero s g = g
  wait_complete-Ends (suc fuel) s g =
      Ends-bind (λ _. Started) Started (λ _. Started) Started
        (λ _.
          is_conversion_complete bus
          >>= unless_complete bus
              (on_world (modify waiting.sleep) >> wait_complete bus waiting fuel))
        (lift_world s (waiting.check_context s.world))
        (checked s g (waiting.check_context s.world) (checks s.world))
        (λ _ t j.
          Ends-bind (λ _. Started) Started (λ _. Started) Started
            (unless_complete bus
              (on_world (modify waiting.sleep) >> wait_complete bus waiting fuel))
            (is_conversion_complete bus t) (complete-Ends t j)
            (λ complete u k. turn_branch fuel u complete k (
              wait_complete-Ends fuel (record u { world = waiting.sleep u.world })
                (k.0, sleeps u.world ∙ k.1)))
            (λ u k. k))
        (λ t j. j)

  abbrev Kept : Host Ads1115 W → Host Ads1115 W → Type 0
  Kept s t = (given t.world ≡ given s.world) ⊎ (given t.world ≡ 0xC1A3)

  finish :
      (first : Host Ads1115 W) (complete : Bool) (s : Host Ads1115 W)
      → Started s
      → Ends (Converted given value) (Kept first) (fetch_value bus complete s)
  unfolding fetch_value
  finish first true s g =
      Ends-bind (Fetched bus a given value pointer chip 0xC1A3 0) Started (Converted given value)
        (Kept first) (λ v. pure (some v)) (read_word_reg bus 0 s)
        (read_word_reg-Ends bus a given value pointer chip 0xC1A3 0 s g) (λ v t j. (j.0, j.1.1))
        (λ t j. inr j.1)
  finish first false s g = g.1

  -- On a bus where the converter answers at the driver's address, and where neither the check of the context nor the sleep touches the converter: a
  -- value that `Get` returns is what the conversion register reads in the end, and the
  -- configuration register was last given a single shot on the first input, with the bit that
  -- starts it (0xC1A3), for whatever pin was asked. When `Get` fails, the configuration register
  -- was last given that or what it had before.
  pub get-Converted :
      (fuel pin : ℕ) (s : Host Ads1115 W)
      → s.driver.address ≡ a
      → Ends
          (Converted given value)
          (λ t. (given t.world ≡ given s.world) ⊎ (given t.world ≡ 0xC1A3))
          (get bus waiting fuel pin s)
  unfolding get create_config_bits read_config
  get-Converted fuel pin s e =
      Ends-bind (λ _. Started) (Given bus a given value pointer chip (given s.world))
        (Converted given value) (Kept s)
        (λ _. read_word_reg bus 1 >>= λ _. wait_complete bus waiting fuel >>= fetch_value bus)
        (write_config bus 0xC1A3 s)
        (write_config-Ends bus a given value pointer chip 0xC1A3 s e (omega arith))
        (λ _ t j.
          Ends-bind (Fetched bus a given value pointer chip 0xC1A3 1) Started
            (Converted given value) (Kept s)
            (λ _. wait_complete bus waiting fuel >>= fetch_value bus) (read_word_reg bus 1 t)
            (read_word_reg-Ends bus a given value pointer chip 0xC1A3 1 t j)
            (λ _ u k.
              Ends-bind (λ _. Started) Started (Converted given value) (Kept s) (fetch_value bus)
                (wait_complete bus waiting fuel u) (wait_complete-Ends fuel u k.1) (finish s)
                (λ v l. inr l.1))
            (λ u k. inr k.1))
        (λ t j. inl j.1)
