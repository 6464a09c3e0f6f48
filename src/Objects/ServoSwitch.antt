-- ===== src/Objects/ServoSwitch.antt =====
-- pkg/service/objects/servo_switch.go: a switch that a servo moves, with an optional relay for the
-- power of each direction. `Run` is a state machine that advances every 50 ms; `run_step` is one
-- round, given the size of `int` and the time `now` that the clock reads in it. The waits have no effect here.
pub mod Moves
pub mod Run
use local_worker.Common.{
  ℕ, ◌*◌, ◌+◌, ◌-◌, ◌/◌, ◌%◌, ◌^◌, leb, ltb, ◌==◌, if◌then◌else◌, Bool, true, false, ◌&&◌, Option,
  none, some, M, throw, Error, ok, pure, attempt, ignore, failed, ◌>>=◌, ◌>>◌,
}
use local_worker.Objects.{
  Pwm, SwitchDirection, straight, off, other, SwitchActual, is_straight, is_off, Site, on_hardware,
  get_object, modify_object,
}
use local_worker.Objects.PhaseRelay
use local_worker.Objects.PhaseRelay.{PhaseRelay, zoom}

-- `servoSwitchRunState`
pub data RunState : Type 0 where
  idle deactivate_relays move_servo servo_settle disable_servo activate_relays : RunState

-- Pulse lengths are `uint32`; `step_size` is an `int` of at least 1.
pub record Servo (S : Type 0) : Type 0 where
  pub device : Pwm S
  pub index : ℕ
  pub straight_pl : ℕ
  pub off_pl : ℕ
  pub step_size : ℕ
  pub phase_straight : Option (PhaseRelay S)
  pub phase_off : Option (PhaseRelay S)

-- The fields of `servoSwitch`, and from `state` on the local variables of `Run`.
pub record ServoSwitch (S : Type 0) : Type 0 where
  pub servo : Servo S
  pub send_actual_needed : Bool
  pub current_pl : ℕ
  pub target_pl : ℕ
  pub state : RunState
  pub run_target : ℕ
  pub target_direction : SwitchDirection
  pub last_send_actual : ℕ
  pub start_servo_move_time : ℕ
  pub servo_settle_done_time : ℕ

abbrev pub second : ℕ
second = 1_000_000_000

-- The size of `int` on the machine: 64 bits, or 32 as on linux/arm. A value of it stands as its bit
-- pattern, with the wrap-around; the patterns from half of the word on are the negative values.
pub data IntSize : Type 0 where
  bits32 bits64 : IntSize

abbrev int_word : IntSize → ℕ
int_word bits32 = 2 ^ 32
int_word bits64 = 2 ^ 64

abbrev pub int_half : IntSize → ℕ
int_half bits32 = 2 ^ 31
int_half bits64 = 2 ^ 63

-- `int(a) - int(b)` for `uint32` values
abbrev int_difference : IntSize → ℕ → ℕ → ℕ
int_difference size a b = (a + int_word size - b) % int_word size

-- `absInt`; the smallest value stays negative.
abbrev abs_int : IntSize → ℕ → ℕ
abs_int size x = if leb (int_half size) x then int_word size - x else x

-- `minInt`, where `a` is not negative.
abbrev min_int : IntSize → ℕ → ℕ → ℕ
min_int size a b = if leb (int_half size) b then b else if ltb a b then a else b

-- `absInt(int(a) - int(b))`
abbrev distance : IntSize → ℕ → ℕ → ℕ
distance size a b = abs_int size (int_difference size a b)

abbrev u32 : ℕ → ℕ
u32 n = n % 2 ^ 32

-- The direction that a pulse length stands for.
abbrev pub direction_of : {S : Type 0} → Servo S → ℕ → SwitchDirection
direction_of v pl = if pl == v.off_pl then off else straight

-- The pulse length of the next move.
unfoldable pub next_pl : IntSize → ℕ → ℕ → ℕ → ℕ
next_pl size step_size target current =
    let step = min_int size step_size (distance size target current) in
    if ltb current target then u32 (current + u32 step) else u32 (current + 2 ^ 32 - u32 step)

module _ {S : Type 0} where
  -- `if r := o.servo.phase…; r != nil { … }` for each of the two relays.
  abbrev at_straight : M (Site (PhaseRelay S) S) Bool → M (Site (ServoSwitch S) S) (Unit {0})
  at_straight m s = elim s.object.servo.phase_straight [
    | none ↦ (ok tt, s)
    | some r ↦
        ignore
          (zoom (λ _. r) (λ r o. record o { servo = record (o.servo) { phase_straight = some r } })
            m)
          s
  ]

  abbrev at_off : M (Site (PhaseRelay S) S) Bool → M (Site (ServoSwitch S) S) (Unit {0})
  at_off m s = elim s.object.servo.phase_off [
    | none ↦ (ok tt, s)
    | some r ↦
        ignore
          (zoom (λ _. r) (λ r o. record o { servo = record (o.servo) { phase_off = some r } }) m) s
  ]

  -- `if r := o.servo.phase…; r != nil { if err := r.configure(ctx) … }`
  abbrev configure_straight : M (Site (ServoSwitch S) S) (Unit {0})
  configure_straight s = elim s.object.servo.phase_straight [
    | none ↦ (ok tt, s)
    | some r ↦
        zoom (λ _. r) (λ r o. record o { servo = record (o.servo) { phase_straight = some r } })
          PhaseRelay.configure s
  ]

  abbrev configure_off : M (Site (ServoSwitch S) S) (Unit {0})
  configure_off s = elim s.object.servo.phase_off [
    | none ↦ (ok tt, s)
    | some r ↦
        zoom (λ _. r) (λ r o. record o { servo = record (o.servo) { phase_off = some r } })
          PhaseRelay.configure s
  ]

  unfoldable pub configure : M (Site (ServoSwitch S) S) (Unit {0})
  configure = do
    modify_object (λ o. record o {
      target_pl = o.servo.straight_pl;
      current_pl = u32 (o.servo.straight_pl + o.servo.off_pl) / 2;
      send_actual_needed = true;
    })
    configure_straight
    configure_off
    o ← get_object
    on_hardware (o.servo.device.set_pwm o.servo.index 0 o.current_pl true false)
    on_hardware (o.servo.device.set_pwm o.servo.index 0 o.current_pl false true)

  -- What `Run` does before its loop.
  unfoldable run_start : ℕ → M (Site (ServoSwitch S) S) (Unit {0})
  run_start now = modify_object (λ o. record o {
    send_actual_needed = true;
    last_send_actual = now;
    state = idle;
    run_target = o.target_pl;
    target_direction = straight;
  })

  -- `servoSwitchRunStateIdle`
  unfoldable pub run_idle : ℕ → M (Site (ServoSwitch S) S) (Option SwitchActual)
  run_idle now = do
    modify_object (λ o. record o {
      run_target = o.target_pl;
      target_direction = direction_of o.servo o.target_pl;
    })
    o ← get_object
    if o.run_target == o.current_pl
        then (let message : SwitchActual = record {
          request = o.target_direction;
          actual = direction_of o.servo o.current_pl;
        } in
            if o.send_actual_needed
            then (do
              modify_object (λ o. record o { send_actual_needed = false })
              pure (some message))
            else (if ltb (5 * second) (now - o.last_send_actual)
                then (do
                  modify_object (λ o. record o { last_send_actual = now })
                  pure (some message))
                else pure none))
        else (do modify_object (λ o. record o { state = deactivate_relays }); pure none)

  unfoldable pub run_deactivate_relays : ℕ → M (Site (ServoSwitch S) S) (Unit {0})
  run_deactivate_relays now = do
    at_straight PhaseRelay.deactivate_relay
    at_off PhaseRelay.deactivate_relay
    modify_object (λ o. record o { start_servo_move_time = now; state = move_servo })

  unfoldable pub run_move_servo : IntSize → ℕ → M (Site (ServoSwitch S) S) (Unit {0})
  run_move_servo size now = do
    o ← get_object
    if o.run_target == o.current_pl
        then modify_object (λ o. record o {
          servo_settle_done_time = now + (now - o.start_servo_move_time) / 2;
          state = servo_settle;
        })
        else (let next = next_pl size o.servo.step_size o.run_target o.current_pl in
            do
              r ← attempt (
                  on_hardware
                    (o.servo.device.set_pwm o.servo.index 0 next true (next == o.run_target)))
              if failed r then pure tt else modify_object (λ o. record o { current_pl = next }))

  unfoldable pub run_servo_settle : ℕ → M (Site (ServoSwitch S) S) (Unit {0})
  run_servo_settle now = do
    o ← get_object
    if ltb o.servo_settle_done_time now
        then modify_object (λ o. record o { state = disable_servo })
        else pure tt

  unfoldable pub run_disable_servo : M (Site (ServoSwitch S) S) (Unit {0})
  run_disable_servo = do
    o ← get_object
    ignore (on_hardware (o.servo.device.set_pwm o.servo.index 0 o.current_pl false true))
    modify_object (λ o. record o { state = activate_relays })

  unfoldable pub run_activate_relays : M (Site (ServoSwitch S) S) (Unit {0})
  run_activate_relays = do
    o ← get_object
    (if is_straight o.target_direction then at_straight PhaseRelay.activate_relay else pure tt)
    (if is_off o.target_direction then at_off PhaseRelay.activate_relay else pure tt)
    modify_object (λ o. record o { send_actual_needed = true; state = idle })

  quiet : M (Site (ServoSwitch S) S) (Unit {0}) → M (Site (ServoSwitch S) S) (Option SwitchActual)
  quiet m = do m; pure none

  -- The `switch state` of `Run`.
  unfoldable pub dispatch :
      IntSize → RunState → ℕ → M (Site (ServoSwitch S) S) (Option SwitchActual)
  unfolding quiet
  dispatch size idle now = run_idle now
  dispatch size deactivate_relays now = quiet (run_deactivate_relays now)
  dispatch size move_servo now = quiet (run_move_servo size now)
  dispatch size servo_settle now = quiet (run_servo_settle now)
  dispatch size disable_servo now = quiet run_disable_servo
  dispatch size activate_relays now = quiet run_activate_relays

  unfoldable pub run_step : IntSize → ℕ → M (Site (ServoSwitch S) S) (Option SwitchActual)
  unfolding dispatch
  run_step size now s = dispatch size s.object.state now s

  -- `SwapUint32` of the target, and the note that a change is to be reported.
  abbrev swap_target : ℕ → ServoSwitch S → ServoSwitch S
  swap_target target o =
      if o.target_pl == target
      then o
      else record o { target_pl = target; send_actual_needed = true }

  unfoldable pub process_message : SwitchDirection → M (Site (ServoSwitch S) S) (Unit {0})
  process_message straight = modify_object (λ o. swap_target o.servo.straight_pl o)
  process_message off = modify_object (λ o. swap_target o.servo.off_pl o)
  process_message (other _) = throw Error.invalid_argument

  unfoldable pub process_power_message : Bool → M (Site (ServoSwitch S) S) (Unit {0})
  process_power_message enabled =
      if enabled then modify_object (λ o. record o { send_actual_needed = true }) else pure tt
