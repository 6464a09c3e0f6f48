-- ===== src/Objects/StatusService.antt =====
-- pkg/service/objects/status_service.go: three channels of eight messages, for outputs, sensors and
-- switches, and a loop for each that sends what stands in its channel. A publisher waits ten seconds
-- for room; here it finds room or it does not. The network's calls are a parameter.
pub mod Fifo
use local_worker.Common.{
  ℕ, ltb, if◌then◌else◌, Bool, true, false, List, [], ◌∷◌, ◌++◌, M, Result, ok, err, Error, length,
}

abbrev pub channel_capacity : ℕ
channel_capacity = 8

-- `case channel <- msg`, or the timeout.
abbrev pub put_message : {A : Type 0} → A → List A → Bool × List A
put_message message channel =
    if ltb (length channel) channel_capacity
    then (true, channel ++ (message ∷ []))
    else (false, channel)

-- A turn of the loop `once`: nothing to do while the channel is empty. An error ends `once`, and
-- `UntilCanceled` calls it again.
abbrev pub send_message :
    {A W : Type 0} → (A → M W (Unit {0})) → List A → W → Result (Unit {0}) × List A × W
send_message send [] w = (ok tt, [], w)
send_message send (message ∷ rest) w = ((send message w).0, rest, (send message w).1)

pub record StatusService (Output Sensor Switch : Type 0) : Type 0 where
  pub output_actuals : List Output
  pub sensor_actuals : List Sensor
  pub switch_actuals : List Switch

pub record NetworkControl (Output Sensor Switch W : Type 0) : Type 0 where
  pub set_output_actual : Output → M W (Unit {0})
  pub set_sensor_actual : Sensor → M W (Unit {0})
  pub set_switch_actual : Switch → M W (Unit {0})

module _ {Output Sensor Switch : Type 0} where
  abbrev new_status_service : StatusService Output Sensor Switch
  new_status_service = record { output_actuals = []; sensor_actuals = []; switch_actuals = [] }

  unfoldable publish_output_actual :
      Output → StatusService Output Sensor Switch → Bool × StatusService Output Sensor Switch
  publish_output_actual message s =
      let out = put_message message s.output_actuals in (out.0, record s { output_actuals = out.1 })

  unfoldable publish_sensor_actual :
      Sensor → StatusService Output Sensor Switch → Bool × StatusService Output Sensor Switch
  publish_sensor_actual message s =
      let out = put_message message s.sensor_actuals in (out.0, record s { sensor_actuals = out.1 })

  unfoldable publish_switch_actual :
      Switch → StatusService Output Sensor Switch → Bool × StatusService Output Sensor Switch
  publish_switch_actual message s =
      let out = put_message message s.switch_actuals in (out.0, record s { switch_actuals = out.1 })

  module _ {W : Type 0} (nw : NetworkControl Output Sensor Switch W) where
    unfoldable send_output :
        StatusService Output Sensor Switch
        → W
        → Result (Unit {0}) × StatusService Output Sensor Switch × W
    send_output s w =
        let out = send_message nw.set_output_actual s.output_actuals w in
        (out.0, record s { output_actuals = out.1 }, out.2)

    unfoldable send_sensor :
        StatusService Output Sensor Switch
        → W
        → Result (Unit {0}) × StatusService Output Sensor Switch × W
    send_sensor s w =
        let out = send_message nw.set_sensor_actual s.sensor_actuals w in
        (out.0, record s { sensor_actuals = out.1 }, out.2)

    unfoldable send_switch :
        StatusService Output Sensor Switch
        → W
        → Result (Unit {0}) × StatusService Output Sensor Switch × W
    send_switch s w =
        let out = send_message nw.set_switch_actual s.switch_actuals w in
        (out.0, record s { switch_actuals = out.1 }, out.2)
