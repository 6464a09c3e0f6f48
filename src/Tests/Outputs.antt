-- ===== src/Tests/Outputs.antt =====
-- The theorems on relays, outputs and sensors, at pins that never fail.
use local_worker.Common.{
  ℕ, ◌==◌, ◌<◌, if◌then◌else◌, Bool, true, false, ◌≡◌, refl, ok, none, List, [], ◌∷◌, Ends, arith,
  pure,
}
use local_worker.Objects.{Gpio, Site, straight, off}
use local_worker.Objects.Lines.{Drives}
use local_worker.Objects.RelaySwitch.{Relay, RelaySwitch, switch_to, run_step, disable_all}
use local_worker.Objects.RelaySwitch.Release.{run_step-releases}
use local_worker.Objects.RelaySwitch.Safety.{
  Wired, NotBoth, Directed, noted, energised, switch_to-safe,
}
use local_worker.Objects.BinaryOutput
use local_worker.Objects.BinaryOutput.{BinaryOutput, noting}
use local_worker.Objects.BinaryOutput.Requests.{parts, request-outcome}
use local_worker.Objects.BinarySensor
use local_worker.Objects.BinarySensor.{BinarySensor, gpio_reader}
use local_worker.Objects.BinarySensor.Publishing.{
  Feed, Event, round, sends, hardware_changes, run, step, Told, no_lost_change,
}

abbrev pub Lines : Type 0
Lines = ℕ → Bool

abbrev pub AnyLines : Lines → Type 0
AnyLines s = Unit {0}

abbrev pub level : Lines → ℕ → Bool
level s = s

abbrev pub line_pins : Gpio Lines
line_pins = record {
  pin_count = 8;
  set_direction = λ pin direction. pure tt;
  set = λ pin v s. (ok tt, λ q. if pin == q then v else s q);
  get = λ pin s. (ok (s pin), s);
  mqtt = none;
}

pub line_pins-Drives : (n : ℕ) → Drives line_pins AnyLines level n n
line_pins-Drives n = record { set_meets = λ v s ready. (tt, λ q. refl) }

abbrev relay : ℕ → Relay Lines
relay pin = record {
  device = line_pins;
  pin = pin;
  invert = false;
  pulse = 1_000_000_000;
  mqtt_state_topic = [];
  mqtt_command_topic = [];
}

abbrev switch_site : Site (RelaySwitch Lines) Lines
switch_site = record {
  object = record {
    straight_relay = relay 1;
    off_relay = relay 2;
    disable_all_needed = true;
    disable_all_time = 5;
    send_actual_needed = false;
    requested_direction = straight;
  };
  hardware = λ q. q == 1;
}

switch_site-Wired : Wired AnyLines level switch_site.object 1 2
switch_site-Wired = record {
  straight_drives = line_pins-Drives 1;
  off_drives = line_pins-Drives 2;
  apart = λ e. omega (arith, e);
}

switch_to-safe_example :
    Ends
      (λ _ t.
        (t.object ≡ noted 7 off switch_site.object)
        × AnyLines t.hardware
        × Directed level switch_site.object 1 2 off switch_site.hardware t.hardware
        × NotBoth level switch_site.object 1 2 t.hardware)
      (λ t.
        (t.object ≡ record (switch_site.object) { send_actual_needed = true })
        × NotBoth level switch_site.object 1 2 t.hardware)
      (switch_to 7 off switch_site)
switch_to-safe_example =
    switch_to-safe AnyLines level 7 off switch_site 1 2 switch_site-Wired tt refl

run_step-releases_example :
    (5 < 9)
    × (energised level (relay 1) 1 (run_step 9 switch_site).1.hardware ≡ false)
    × (energised level (relay 2) 2 (run_step 9 switch_site).1.hardware ≡ false)
unfolding run_step disable_all
run_step-releases_example =
    run_step-releases AnyLines level 9 switch_site 1 2 switch_site-Wired tt refl refl

abbrev output_site : Site (BinaryOutput Lines) Lines
output_site = record {
  object = record {
    output_device = line_pins;
    pin = 4;
    invert = true;
    target_state = 0;
    current_state = 0;
    send_actual_needed = false;
    initialized = true;
    place = noting;
  };
  hardware = λ q. true;
}

-- The request comes right after a call of `Set`: it is lost.
request-outcome_example :
    ((parts 5 (parts 3 (BinaryOutput.process_message 1 output_site).1)).object.current_state ≡ 1)
    × ((parts 5 (parts 3 (BinaryOutput.process_message 1 output_site).1)).hardware ≡ (λ q. true))
request-outcome_example = request-outcome 1 output_site 5 (λ e. omega (arith, e))

-- The contact on pin 6 is closed; nothing has been published.
abbrev sensor_site : Site (BinarySensor Lines) Lines
sensor_site = record {
  object = record {
    reader = gpio_reader line_pins 6;
    invert = false;
    send_now = false;
    last_power = true;
    last_value = false;
    changes = 0;
    recent_errors = 0;
    last_sent = 100;
    actual_value = 0;
  };
  hardware = λ q. q == 6;
}

abbrev sensor_feed : Feed Lines
sensor_feed = record { site = sensor_site; queued = 0; sent = []; seen = none }

-- The contact opens, and no message is accepted then.
abbrev contact : List (Event Lines)
contact =
    round 200 true
    ∷ hardware_changes (λ q. false)
    ∷ round 201 false
    ∷ sends
    ∷ round 202 true
    ∷ sends
    ∷ []

contact_told : (run contact sensor_feed).sent ≡ 0 ∷ 0 ∷ []
unfolding run step BinarySensor.run_step BinarySensor.report gpio_reader
contact_told = refl

no_lost_change_example : Told (run contact sensor_feed).seen (run contact sensor_feed)
no_lost_change_example = no_lost_change contact sensor_feed refl refl
