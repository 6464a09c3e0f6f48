-- ===== src/Tests/Tracks.antt =====
-- The theorems on the track inverter and the magnetic switch, at pins that never fail.
use local_worker.Common.{ℕ, ◌==◌, ◌||◌, Bool, true, false, ◌≡◌, [], Ends, arith}
use local_worker.Objects.{Site, off, straight}
use local_worker.Objects.PhaseRelay.{PhaseRelay}
use local_worker.Objects.TrackInverter.{TrackInverter, default, reverse}
use local_worker.Objects.TrackInverter.Safety as Inverter
use local_worker.Objects.MagneticSwitch.{MagnetPin, MagneticSwitch, switch_to}
use local_worker.Objects.MagneticSwitch.Pins as Pins
use local_worker.Objects.MagneticSwitch.Polarity as Magnets
use local_worker.Tests.Outputs.{Lines, AnyLines, level, line_pins, line_pins-Drives}

abbrev track_relay : ℕ → Bool → PhaseRelay Lines
track_relay pin active = record {
  device = line_pins;
  pin = pin;
  last_active = active;
  invert = false;
  mqtt_state_topic = [];
  mqtt_command_topic = [];
}

-- The track stands in the default state and is to be reversed.
abbrev track : Site (TrackInverter Lines) Lines
track = record {
  object = record {
    a_in_a = track_relay 1 true;
    a_in_b = track_relay 2 false;
    b_in_a = track_relay 3 false;
    b_in_b = track_relay 4 true;
    target_state = reverse;
    current_state = default;
    send_actual_needed = true;
    initialized = true;
  };
  hardware = λ q. q == 1 || q == 4;
}

abbrev coils : Inverter.Coils
coils = record { aa = 1; ab = 2; ba = 3; bb = 4 }

abbrev magnet_pin : ℕ → MagnetPin Lines
magnet_pin pin = record { device = line_pins; pin = pin; invert = false }

abbrev magnets : Site (MagneticSwitch Lines) Lines
magnets = record {
  object = record {
    straight_magnet = record { a = magnet_pin 1; b = magnet_pin 2; invert_pins = false };
    off_magnet = record { a = magnet_pin 3; b = magnet_pin 4; invert_pins = true };
    always_enabled = false;
    disable_all_needed = false;
    send_actual_needed = false;
    requested_direction = straight;
  };
  hardware = λ q. q == 1;
}

abbrev magnet_lines : Pins.MagnetLines
magnet_lines = record { sa = 1; sb = 2; oa = 3; ob = 4 }

magnets-Wired : Pins.Wired AnyLines level magnet_lines magnets.object
magnets-Wired = record {
  sa_drives = line_pins-Drives 1;
  sb_drives = line_pins-Drives 2;
  oa_drives = line_pins-Drives 3;
  ob_drives = line_pins-Drives 4;
  sa_sb = λ e. omega (arith, e);
  sa_oa = λ e. omega (arith, e);
  sa_ob = λ e. omega (arith, e);
  sb_oa = λ e. omega (arith, e);
  sb_ob = λ e. omega (arith, e);
  oa_ob = λ e. omega (arith, e);
}

switch_to-Polarised_example :
    Ends
      (λ _ t.
        (t.object
          ≡ record (magnets.object) { send_actual_needed = true; requested_direction = off })
        × Magnets.Polarised AnyLines level magnet_lines magnets.object magnets-Wired true off
            t.hardware)
      (λ t. t.object ≡ record (magnets.object) { send_actual_needed = true })
      (switch_to off true magnets)
switch_to-Polarised_example =
    Magnets.switch_to-Polarised AnyLines level magnet_lines off true magnets magnets-Wired tt
