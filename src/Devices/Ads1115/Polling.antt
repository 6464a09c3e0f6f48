-- ===== src/Devices/Ads1115/Polling.antt =====
-- The loop of `Get` in ads1115.go ends when its context does. `clock` is the time that a state of
-- the world shows: no call of the bus puts it back, and each sleep moves it on.
use local_worker.Common.{
  ℕ, zero, suc, ◌+◌, ◌≤◌, ◌<◌, ◌==◌, Bool, true, false, Option, none, some, ◌≡◌, refl, true≢false,
  sym, List, [], ◌∷◌, bit_and, M, Result, ok, err, pure, wrap, wrapping, ◌>>=◌, ◌>>◌, modify, Ends,
  Ends-bind, arith,
}
use local_worker.Bridge.{Host, I2cDevice, I2cBus, on_world, lift_world}
use local_worker.Bridge.Runs.{Runs, Runs-rule}
use local_worker.Devices.Ads1115.{
  Ads1115, Waiting, os_mask, os_not_busy, word_of, create_config_bits, read_word_reg,
  write_word_reg, word_bytes, is_conversion_complete, wait_complete, read_config, fetch_value,
  unless_complete, write_config, get,
}

abbrev pub is_some : {A : Type 0} → Option A → Bool
is_some none = false
is_some (some a) = true

module _ {W : Type 0} (clock : W → ℕ) where
  abbrev pub LaterThan : W → W → Type 0
  LaterThan v w = clock v ≤ clock w

  -- A transfer does not put back the clock, whether it succeeds or not.
  pub record TimedDevice (dev : I2cDevice W) : Type 0 where
    pub write :
        (bytes : List ℕ) (w : W) → Ends (λ _. LaterThan w) (LaterThan w) (dev.write_device bytes w)
    pub read : (n : ℕ) (w : W) → Ends (λ _. LaterThan w) (LaterThan w) (dev.read_device n w)

  pub record TimedBus (bus : I2cBus Ads1115 W) : Type 1 where
    pub runs :
        (A : Type 0) (a : ℕ) (op : I2cDevice W → M (Host Ads1115 W) A) (s : Host Ads1115 W)
        → Runs LaterThan TimedDevice op 2 s (bus.execute A a op s)

  -- A context that has ended when the clock shows the deadline.
  pub record Deadline (waiting : Waiting W) (deadline : ℕ) : Type 0 where
    pub check :
        (w : W)
        → Ends (λ _ t. (clock w < deadline) × LaterThan w t) (LaterThan w) (waiting.check_context w)
    pub sleeps : (w : W) → clock w < clock (waiting.sleep w)

  abbrev At : ℕ → Host Ads1115 W → Type 0
  At c s = c ≤ clock s.world

  lifted :
      {A : Type 0} (s : Host Ads1115 W) (c : ℕ)
      → At c s
      → (out : Result A × W) → Ends (λ _. LaterThan s.world) (LaterThan s.world) out
      → Ends (λ _. At c) (At c) (lift_world s out)
  lifted s c i (ok a, w) h = omega arith
  lifted s c i (err e, w) h = omega arith

  wrapped_lifted :
      {A : Type 0} (s : Host Ads1115 W) (c : ℕ)
      → At c s
      → (out : Result A × W) → Ends (λ _. LaterThan s.world) (LaterThan s.world) out
      → Ends (λ _. At c) (At c) (wrapping (lift_world s out))
  wrapped_lifted s c i (ok a, w) h = omega arith
  wrapped_lifted s c i (err e, w) h = omega arith

  module _ (bus : I2cBus Ads1115 W) (timed : TimedBus bus) where
    read_word_op-Ends :
        (reg : ℕ) (dev : I2cDevice W) (s : Host Ads1115 W) (c : ℕ)
        → TimedDevice dev
        → At c s
        → Ends
            (λ _. At c)
            (At c)
            ((wrap (on_world (dev.write_device (reg ∷ [])))
                >> (wrap (on_world (dev.read_device 2)) >>= λ bytes. pure (word_of bytes)))
              s)
    read_word_op-Ends reg dev s c d i =
        Ends-bind (λ _. At c) (At c) (λ _. At c) (At c)
          (λ _. wrap (on_world (dev.read_device 2)) >>= λ bytes. pure (word_of bytes))
          (wrapping (lift_world s (dev.write_device (reg ∷ []) s.world)))
          (wrapped_lifted s c i _ (d.write (reg ∷ []) s.world))
          (λ _ t j.
            Ends-bind (λ _. At c) (At c) (λ _. At c) (At c) (λ bytes. pure (word_of bytes))
              (wrapping (lift_world t (dev.read_device 2 t.world)))
              (wrapped_lifted t c j _ (d.read 2 t.world)) (λ _ u k. k) (λ u k. k))
          (λ t j. j)

    read_word_reg-Ends :
        (reg : ℕ) (s : Host Ads1115 W) (c : ℕ)
        → At c s
        → Ends (λ _. At c) (At c) (read_word_reg bus reg s)
    unfolding read_word_reg
    read_word_reg-Ends reg s c i =
        Runs-rule (At c) (λ _. At c) (λ t w later j. omega arith)
          (λ dev t d j. read_word_op-Ends reg dev t c d j) (timed.runs ℕ s.driver.address _ s) i

    write_word_reg-Ends :
        (reg v : ℕ) (s : Host Ads1115 W) (c : ℕ)
        → At c s
        → Ends (λ _. At c) (At c) (write_word_reg bus reg v s)
    unfolding write_word_reg
    write_word_reg-Ends reg v s c i =
        Runs-rule (At c) (λ _. At c) (λ t w later j. omega arith)
          (λ dev t d j. lifted t c j _ (d.write (reg ∷ word_bytes v) t.world))
          (timed.runs Unit s.driver.address _ s) i

    is_conversion_complete-Ends :
        (s : Host Ads1115 W) (c : ℕ)
        → At c s
        → Ends (λ _. At c) (At c) (is_conversion_complete bus s)
    unfolding is_conversion_complete
    is_conversion_complete-Ends s c i =
        Ends-bind (λ _. At c) (At c) (λ _. At c) (At c)
          (λ status. pure (bit_and status os_mask == os_not_busy)) (read_word_reg bus 1 s)
          (read_word_reg-Ends 1 s c i) (λ _ t j. j) (λ t j. j)

    module _ (waiting : Waiting W) (deadline : ℕ) (ends : Deadline waiting deadline) where
      abbrev Complete : Bool → Host Ads1115 W → Type 0
      Complete b s = b ≡ true

      abbrev Stopped : Host Ads1115 W → Type 0
      Stopped s = Unit

      checked :
          (s : Host Ads1115 W) (out : Result (Unit {0}) × W)
          → Ends (λ _ t. (clock s.world < deadline) × LaterThan s.world t) (LaterThan s.world) out
          → Ends
              (λ _ t. (clock s.world < deadline) × At (clock s.world) t)
              Stopped
              (lift_world s out)
      checked s (ok a, w) h = h
      checked s (err e, w) h = tt

      branch :
          (n : ℕ) (s : Host Ads1115 W) (complete : Bool)
          → Ends Complete Stopped
              (wait_complete bus waiting n (record s { world = waiting.sleep s.world }))
          → Ends Complete Stopped (
              unless_complete bus
                (on_world (modify waiting.sleep) >> wait_complete bus waiting n)
                complete
                s)
      branch n s true h = refl
      branch n s false h = h

      turn :
          (n : ℕ) (s : Host Ads1115 W)
          → (clock s.world < deadline
              → (t : Host Ads1115 W) → clock s.world < clock t.world
              → Ends Complete Stopped (wait_complete bus waiting n t))
          → Ends Complete Stopped (wait_complete bus waiting (suc n) s)
      unfolding wait_complete
      turn n s rest =
          Ends-bind (λ _ t. (clock s.world < deadline) × At (clock s.world) t) Stopped Complete
            Stopped
            (λ _.
              is_conversion_complete bus
              >>= unless_complete bus
                  (on_world (modify waiting.sleep) >> wait_complete bus waiting n))
            (lift_world s (waiting.check_context s.world))
            (checked s (waiting.check_context s.world) (ends.check s.world))
            (λ _ t j.
              Ends-bind (λ _. At (clock s.world)) (At (clock s.world)) Complete Stopped
                (unless_complete bus
                  (on_world (modify waiting.sleep) >> wait_complete bus waiting n))
                (is_conversion_complete bus t) (is_conversion_complete-Ends t (clock s.world) j.1)
                (λ complete u k. branch n u complete (
                  rest j.0 (record u { world = waiting.sleep u.world })
                    (omega (arith, ends.sleeps u.world))))
                (λ u k. tt))
            (λ t j. tt)

      -- One turn more than the time that is left is enough.
      wait_complete-Ends :
          (n : ℕ) (s : Host Ads1115 W)
          → deadline ≤ clock s.world + n
          → Ends Complete Stopped (wait_complete bus waiting (suc n) s)
      wait_complete-Ends zero s h = turn zero s (λ before t later. absurd (omega arith))
      wait_complete-Ends (suc n) s h =
          turn (suc n) s (λ before t later. wait_complete-Ends n t (omega arith))

      finish :
          (complete : Bool) (s : Host Ads1115 W)
          → Complete complete s
          → Ends (λ r _. is_some r ≡ true) Stopped (fetch_value bus complete s)
      unfolding fetch_value
      finish true s h =
          Ends-bind (λ _. At 0) (At 0) (λ r _. is_some r ≡ true) Stopped (λ v. pure (some v))
            (read_word_reg bus 0 s) (read_word_reg-Ends 0 s 0 (omega arith)) (λ v t j. refl)
            (λ t j. tt)
      finish false s h = absurd (true≢false (sym h))

      -- If no transfer and no check of the context puts back the clock, each sleep moves it on, and the
      -- context has ended when the clock shows the deadline, then one turn of the loop more than the
      -- time to the deadline is enough for `Get` of any pin: it returns a value or an error.
      pub get-returns :
          (n pin : ℕ) (s : Host Ads1115 W)
          → deadline ≤ clock s.world + n
          → Ends (λ r _. is_some r ≡ true) (λ _. Unit {0}) (get bus waiting (suc n) pin s)
      unfolding get create_config_bits write_config read_config
      get-returns n pin s h =
          Ends-bind (λ _. At (clock s.world)) (At (clock s.world)) (λ r _. is_some r ≡ true) Stopped
            (λ _.
              read_word_reg bus 1 >>= λ _. wait_complete bus waiting (suc n) >>= fetch_value bus)
            (write_word_reg bus 1 0xC1A3 s)
            (write_word_reg-Ends 1 0xC1A3 s (clock s.world) (omega arith))
            (λ _ t j.
              Ends-bind (λ _. At (clock s.world)) (At (clock s.world)) (λ r _. is_some r ≡ true)
                Stopped (λ _. wait_complete bus waiting (suc n) >>= fetch_value bus)
                (read_word_reg bus 1 t) (read_word_reg-Ends 1 t (clock s.world) j)
                (λ _ u k.
                  Ends-bind Complete Stopped (λ r _. is_some r ≡ true) Stopped (fetch_value bus)
                    (wait_complete bus waiting (suc n) u) (wait_complete-Ends n u (omega arith))
                    finish (λ v j. tt))
                (λ u k. tt))
            (λ t j. tt)
