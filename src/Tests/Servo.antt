-- ===== src/Tests/Servo.antt =====
-- The theorems on the servo switch, at a servo that never fails.
use local_worker.Common.{ℕ, ◌≤◌, true, ◌≡◌, refl, ok, none, arith}
use local_worker.Objects.{Pwm, Site, off}
use local_worker.Objects.ServoSwitch.{ServoSwitch, RunState, IntSize, run_step}
use local_worker.Objects.ServoSwitch.Run.{InRange, run_step-InRange, run_rounds, moves_reach}

-- The hardware is the pulse length that the servo was last given.
abbrev servo_pwm : Pwm ℕ
servo_pwm = record {
  pwm_pin_count = 16;
  set_pwm = λ index on_value off_value enabled final_state s. (ok tt, off_value);
  mqtt = none;
}

-- A servo on its way from 450 to 150, in steps of 70.
abbrev servo_site : Site (ServoSwitch ℕ) ℕ
servo_site = record {
  object = record {
    servo = record {
      device = servo_pwm;
      index = 3;
      straight_pl = 450;
      off_pl = 150;
      step_size = 70;
      phase_straight = none;
      phase_off = none;
    };
    send_actual_needed = true;
    current_pl = 450;
    target_pl = 150;
    state = RunState.move_servo;
    run_target = 150;
    target_direction = off;
    last_send_actual = 0;
    start_servo_move_time = 0;
    servo_settle_done_time = 0;
  };
  hardware = 450;
}

servo_site-InRange : InRange 150 450 servo_site.object
servo_site-InRange = record {
  word = omega arith;
  straight_low = omega arith;
  straight_high = omega arith;
  off_low = omega arith;
  off_high = omega arith;
  current_low = omega arith;
  current_high = omega arith;
  target_low = omega arith;
  target_high = omega arith;
  run_low = omega arith;
  run_high = omega arith;
}

run_step-InRange_example : InRange 150 450 (run_step IntSize.bits32 9 servo_site).1.object
run_step-InRange_example = run_step-InRange IntSize.bits32 150 450 9 servo_site servo_site-InRange

moves_reach_example :
    (n : ℕ) × (n ≤ 5)
    × ((run_rounds IntSize.bits32 (λ k. k) n servo_site).object
        ≡ record (servo_site.object) { current_pl = 150 })
moves_reach_example =
    moves_reach IntSize.bits32 5 (λ k. k) servo_site (λ i a b e f h. refl) refl (omega arith)
      (omega arith) (omega arith) (omega arith)
