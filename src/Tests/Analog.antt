-- ===== src/Tests/Analog.antt =====
-- The theorems on the analog converter, at a chip that is busy until its clock shows 3.
use local_worker.Common.{
  ℕ, ◌+◌, ◌==◌, ltb, if◌then◌else◌, true, ◌≡◌, refl, ◌⊎◌, some, List, [], ◌∷◌, M, Result, ok, err,
  Error, Ends, arith,
}
use local_worker.Bridge.{Host, I2cDevice, I2cBus}
use local_worker.Bridge.Runs.{Runs, done, again, refused}
use local_worker.Devices.Ads1115.{
  Ads1115, Waiting, word_of, word_bytes, get, create_config_bits, write_config, write_word_reg,
  read_config, read_word_reg, wait_complete, is_conversion_complete, fetch_value,
}
use local_worker.Devices.Ads1115.Words.{word_of-word_bytes}
use local_worker.Devices.Ads1115.Polling.{
  TimedDevice, TimedBus, Deadline, LaterThan, is_some, get-returns,
}
use local_worker.Devices.Ads1115.Registers.{Converter, ConverterOn}
use local_worker.Devices.Ads1115.Conversion.{Converted, get-Converted}

record AdcWorld : Type 0 where
  given : ℕ
  pointer : ℕ
  clock : ℕ

abbrev status_at : ℕ → ℕ
status_at time = if ltb time 3 then 0x41A3 else 0xC1A3

abbrev value_of : AdcWorld → ℕ → ℕ
value_of w r = if r == 1 then status_at w.clock else 1234

abbrev adc_write : List ℕ → AdcWorld → AdcWorld
adc_write [] w = w
adc_write (r ∷ []) w = record w { pointer = r }
adc_write (r ∷ v ∷ vs) w = record w { given = word_of (v ∷ vs) }

abbrev adc_device : I2cDevice AdcWorld
adc_device = record {
  read_byte_reg = λ r w. (ok 0, w);
  write_byte_reg = λ r v w. (ok tt, w);
  read_byte = λ w. (ok 0, w);
  write_byte = λ v w. (ok tt, w);
  read_device = λ n w. (ok (word_bytes (value_of w w.pointer)), w);
  write_device = λ bytes w. (ok tt, adc_write bytes w);
}

abbrev adc_bus : I2cBus Ads1115 AdcWorld
adc_bus = record { execute = λ A address op s. op adc_device s }

-- The context ends when the clock shows 10.
abbrev adc_waiting : Waiting AdcWorld
adc_waiting = record {
  check_context = λ w. if ltb w.clock 10 then (ok tt, w) else (err (Error.reported 1), w);
  sleep = λ w. record w { clock = w.clock + 1 };
}

abbrev adc_host : Host Ads1115 AdcWorld
adc_host = record {
  driver = record { address = 0x48 };
  active_count = 0;
  world = record { given = 0x8583; pointer = 0; clock = 0 };
}

adc_device-Converter : Converter (λ w. w.given) value_of (λ w. w.pointer) adc_device
unfolding word_bytes word_of
adc_device-Converter = record {
  select = λ r w. (refl, refl);
  configure = λ v w h. word_of-word_bytes v h;
  fetch = λ w. (refl, refl);
}

module _ (Same : AdcWorld → AdcWorld → Type 0) (same : (w : AdcWorld) → Same w w)
    (Dev : I2cDevice AdcWorld → Type 0) (dev : Dev adc_device) where
  run_once :
      {A : Type 0} (op : I2cDevice AdcWorld → M (Host Ads1115 AdcWorld) A)
      (s : Host Ads1115 AdcWorld) (out : Result A × Host Ads1115 AdcWorld)
      → op adc_device s ≡ out
      → Runs Same Dev op 2 s out
  run_once op s (ok a, t) e = done adc_device (same s.world) dev e
  run_once op s (err x, t) e = again adc_device (same s.world) dev e (refused (same t.world))

adc_bus-ConverterOn : ConverterOn adc_bus 0x48 (λ w. w.given) value_of (λ w. w.pointer)
adc_bus-ConverterOn = record {
  words = λ w r. ground arith;
  runs = λ A op s.
      run_once (λ v w. w.given ≡ v.given) (λ w. refl)
        (Converter (λ w. w.given) value_of (λ w. w.pointer)) adc_device-Converter op s
        (op adc_device s) refl;
}

later_write : (bytes : List ℕ) (w : AdcWorld) → LaterThan (λ w. w.clock) w (adc_write bytes w)
later_write [] w = omega arith
later_write (r ∷ []) w = omega arith
later_write (r ∷ v ∷ vs) w = omega arith

adc_device-TimedDevice : TimedDevice (λ w. w.clock) adc_device
adc_device-TimedDevice = record { write = later_write; read = λ n w. omega arith }

adc_bus-TimedBus : TimedBus (λ w. w.clock) adc_bus
adc_bus-TimedBus = record {
  runs = λ A a op s.
      run_once (LaterThan (λ w. w.clock)) (λ w. omega arith) (TimedDevice (λ w. w.clock))
        adc_device-TimedDevice op s (op adc_device s) refl;
}

adc_waiting-Deadline : Deadline (λ w. w.clock) adc_waiting 10
adc_waiting-Deadline = record { check = λ w. ground arith; sleeps = λ w. omega arith }

get_run : (get adc_bus adc_waiting 11 3 adc_host).0 ≡ ok (some 1234)
unfolding get create_config_bits write_config write_word_reg read_config read_word_reg wait_complete
    word_bytes is_conversion_complete word_of fetch_value
get_run = refl

get-returns_example :
    Ends (λ r _. is_some r ≡ true) (λ _. Unit {0}) (get adc_bus adc_waiting 11 3 adc_host)
get-returns_example =
    get-returns (λ w. w.clock) adc_bus adc_bus-TimedBus adc_waiting 10 adc_waiting-Deadline 10 3
      adc_host (omega arith)

adc_check :
    (w : AdcWorld)
    → Ends (λ _ t. t.given ≡ w.given) (λ t. t.given ≡ w.given) (adc_waiting.check_context w)
adc_check w = ground arith

get-Converted_example :
    Ends
      (Converted (λ w. w.given) value_of)
      (λ t. (t.world.given ≡ 0x8583) ⊎ (t.world.given ≡ 0xC1A3))
      (get adc_bus adc_waiting 11 3 adc_host)
get-Converted_example =
    get-Converted adc_bus 0x48 (λ w. w.given) value_of (λ w. w.pointer) adc_bus-ConverterOn
      adc_waiting adc_check (λ w. refl) 11 3 adc_host refl
