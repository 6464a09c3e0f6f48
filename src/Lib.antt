-- ===== src/Lib.antt =====
-- A model of the BinkyNet local worker (Go): the process that stands beside a model railroad and
-- drives its hardware. Device drivers (pkg/service/devices) talk to chips over an I2C bus
-- (pkg/service/bridge); objects such as switches, outputs and sensors (pkg/service/objects) act on
-- the pins of devices when requests come in from the network, and publish what they did.
--
-- Common: the shared names. A Go function of result `(A, error)` over a state `S` is `M S A`; an
--   error keeps the changes made before it (Common/Outcome). Common/Bits has the bits of bytes.
-- Bridge: the interfaces `I2CBus` and `I2CDevice`, over a state `Host` of a driver's fields, the
--   activity counter and the bus. Bridge/Device is pkg/service/bridge/i2c_device.go over the system
--   calls as parameters; Bridge/Bus is i2c.go: `attempts` is `execute` with the attempts left, and
--   `i2c_bus` makes two, as the source does. Bridge/Bus/Attempts relates it to Bridge/Runs, which
--   says what a client of `Execute` may rely on; Bridge/Updates, Sequences and Ports are the
--   operations that drivers hand to it, which may run twice. Bridge/Bus/Chips takes a file of the
--   kernel to a chip, and Bridge/Bus/OneChip the bus over a kernel to the bus that the proofs of the
--   drivers suppose; Bridge/Bus/Recovery is the recovery from a lockup, and Bridge/Queue the queue
--   of i2c.go with the calls of `Execute` around it. Bridge/Led is the status led of rpi.go with the
--   goroutines that blink it, and Bridge/Boards the boards of rpi.go, orangepizero.go, virtual.go
--   and stub.go.
-- Devices: mcp23008.go, mcp23017.go, pcf8574.go, pca9685.go, ads1115.go, binkyCarSensor.go and
--   local-gpio.go, a module each with the functions of the source in snake case.
--   `strconv.ParseUint` and the API of the board are parameters. The proofs suppose a bus at which a
--   chip with byte registers answers (`ChipOn`), one with a port (`PortOn`) or a converter
--   (`ConverterOn`); a transaction that fails changes nothing in it. Devices/Mqtt has the devices
--   behind an MQTT client, which is a parameter: mqtt-gpio.go, mqtt-servo.go and
--   mqtt-status-monitor.go. Devices/Service is service.go there: which constructor makes a device
--   (Creation), what is configured, the statuses of routers, and the light that shows activity.
-- Registry: what the services of devices and of objects do alike when they configure their entries.
-- Objects: relay_switch.go, servo_switch.go (its relay is PhaseRelay), track_inverter.go,
--   magnetic_switch.go, binary_output.go, and binary_sensor.go with its readers. An object stands
--   beside the hardware in `Site`; `run_step` is one round of the loop of `Run`, given the time and
--   yielding the message that it publishes (in BinaryOutput one of the parts of a round, in
--   BinarySensor whether it publishes, since its messages share their value). The devices are records of operations; Objects/Lines is
--   what the proofs suppose of them. Objects/Creation has their constructors and util.go.
--   Objects/Service is service.go there, with the callbacks of switch.go and output.go: its
--   children are the lookup of objects, the ping messages (Pings) and what `Run` starts (Tasks).
--   Objects/StatusService is status_service.go.
-- Ncs: pkg/service/ncs, the configurations that the network master sends and the worker that runs
--   with one. Ncs/Runner is `runWorkers` of worker_runner.go with its goroutines and their
--   semaphore, Ncs/Runner/Attempts is `runWorkerWithConfig`, and Ncs/Service `Run` of ncservice.go.
-- Worker: pkg/service/worker, a worker from the opening of its bus to the closing of its devices.
-- Util: pkg/service/util, the spin lock and the loop that retries.
-- Main: the process. Main/Run is the loop of pkg/service/service.go beside the listener that hears
--   of network masters, Main/Requests service_api.go, Main/HostId registration.go, and Main/Loki
--   the loop of loki_logger.go, over the package loki; Main/Run/Virtual is the loop of a virtual
--   process.
-- Tests: the theorems at concrete chips, pins and objects.
--
-- Bytes, registers and `uint32` pulse lengths are natural numbers, with the wrap-around of the
-- source written out where it can happen; times are natural numbers of nanoseconds, texts are lists
-- of bytes, and a map is the list of its entries in some order. Lists are walked by structural
-- recursion. `Execute` makes 2 attempts; the loop of the converter's `Get` runs on fuel, and a turn
-- more than the time that is left to its context is enough.
-- An operation of an object or driver is one step, as the mutexes and the queue of the bus make it
-- (a round of a binary output, which shares no lock with requests, is up to three, and the move of a
-- track inverter takes the requests that come during it), and a context is not cancelled within it.
-- An `int` of a servo's move has 32 or 64 bits, as the machine says
-- (`IntSize`). Where goroutines meet, their order is a list of events
-- (StatusService, BinarySensor, Ncs/Runner, Main/Run, Main/Loki, Bridge/Queue, Bridge/Led) or a
-- step relation (SpinLock), and the theorems hold for every order. Not modelled: the delivery of
-- requests to receivers (a library), the delayed exit of `Reset`, the other logs, metrics, waits, the
-- recovery inside `execute` (never enabled), and gRPC, the server and the user interface.
pub mod Common
pub mod Bridge
pub mod Devices
pub mod Registry
pub mod Objects
pub mod Ncs
pub mod Worker
pub mod Util
pub mod Main
pub mod Tests
