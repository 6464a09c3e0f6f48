-- ===== src/Bridge/Bus/Attempts.antt =====
-- How often `execute` of i2c.go runs an operation, on which device, and what it leaves of the map of
-- devices.
use local_worker.Common.{
  ℕ, zero, suc, ◌≡◌, refl, Option, none, some, List, [], ◌∷◌, M, Result, ok, err, Error, Ends,
  Ends-bind, and_then, wrapping, arith, attempt, pure, ◌>>=◌,
}
use local_worker.Bridge.{Host, I2cDevice, lift_world}
use local_worker.Bridge.Runs.{Runs, refused, done, again}
use local_worker.Bridge.Device.{Kernel, FileDevice, new_i2c_device, close_device}
use local_worker.Bridge.Bus.{
  BusState, on_kernel, lift_kernel, modify_devices, find_device, device_calls, found_device,
  register_device, open_device, close_files, close_all, after_attempt, attempts, i2c_bus, error_of,
}

-- The calls that open, address and close a file change nothing that `Same` looks at.
pub record Quiet {W : Type 0} (kernel : Kernel W) (Same : W → W → Type 0) : Type 0 where
  pub same_refl : (w : W) → Same w w
  pub same_trans : (u v w : W) → Same u v → Same v w → Same u w
  pub open_quiet : (w : W) → Same w (kernel.open_file w).1
  pub close_quiet : (f : ℕ) (w : W) → Same w (kernel.close_file f w).1
  pub funcs_quiet : (f : ℕ) (w : W) → Same w (kernel.query_functionality f w).1
  pub slave_quiet : (f a : ℕ) (w : W) → Same w (kernel.set_slave f a w).1
  pub timeout_quiet : (f n : ℕ) (w : W) → Same w (kernel.set_timeout f n w).1

module _ {W : Type 0} (kernel : Kernel W) (Same : W → W → Type 0) (q : Quiet kernel Same) where
  abbrev pub SameBelow : BusState W → BusState W → Type 0
  SameBelow s t = Same s.kernel_state t.kernel_state

  -- The operation is given a device that is set to the address.
  abbrev pub DeviceAt : ℕ → I2cDevice (BusState W) → Type 0
  DeviceAt a dev = (d : FileDevice) × (d.address ≡ a) × (dev ≡ device_calls kernel d)

  unchanged :
      {A : Type 0} (w : W) (out : Result A × W) → Same w out.1 → Ends (λ _ t. Same w t) (Same w) out
  unchanged w (ok a, t) h = h
  unchanged w (err e, t) h = h

  new_i2c_device-Ends :
      (a : ℕ) (w : W)
      → Ends (λ d t. (d.address ≡ a) × Same w t) (Same w) (new_i2c_device kernel a w)
  unfolding new_i2c_device
  new_i2c_device-Ends a w =
      Ends-bind (λ _ t. Same w t) (Same w) Good (Same w) _ (kernel.open_file w)
        (unchanged w _ (q.open_quiet w))
        (λ f u hu.
          Ends-bind (λ _ t. Same w t) (Same w) Good (Same w) _ (kernel.query_functionality f u)
            (unchanged w _ (q.same_trans w u _ hu (q.funcs_quiet f u)))
            (λ n v hv.
              Ends-bind (λ _ t. Same w t) (Same w) Good (Same w) _ (kernel.set_slave f a v)
                (unchanged w _ (q.same_trans w v _ hv (q.slave_quiet f a v)))
                (λ _ x hx.
                  Ends-bind (λ _ t. Same w t) (Same w) Good (Same w) _ (kernel.set_timeout f 10 x)
                    (unchanged w _ (q.same_trans w x _ hx (q.timeout_quiet f 10 x)))
                    (λ _ y hy. (refl, hy)) (λ _ h. h))
                (λ _ h. h))
            (λ _ h. h))
        (λ _ h. h)
    where
      Good : FileDevice → W → Type 0
      Good d t = (d.address ≡ a) × Same w t

  find_device-address :
      (a : ℕ) (ds : List FileDevice) (d : FileDevice) → find_device a ds ≡ some d → d.address ≡ a
  find_device-address a [] d e = cc
  find_device-address a (x ∷ ds) d e = ground (arith, find_device-address a ds d)

  registered :
      (a : ℕ) (s : BusState W) (out : Result FileDevice × W)
      → Ends (λ d t. (d.address ≡ a) × Same s.kernel_state t) (Same s.kernel_state) out
      → Ends
          (λ d t. (d.address ≡ a) × SameBelow s t)
          (SameBelow s)
          (and_then (λ d. modify_devices (λ ds. d ∷ ds) >>= λ _. pure d) (lift_kernel s out))
  registered a s (ok d, w) h = h
  registered a s (err e, w) h = h

  found-Ends :
      (a : ℕ) (s : BusState W) (o : Option FileDevice)
      → ((d : FileDevice) → o ≡ some d → d.address ≡ a)
      → Ends (λ d t. (d.address ≡ a) × SameBelow s t) (SameBelow s) (found_device kernel a o s)
  unfolding found_device register_device
  found-Ends a s (some d) h = (h d refl, q.same_refl s.kernel_state)
  found-Ends a s none h =
      registered a s (new_i2c_device kernel a s.kernel_state) (new_i2c_device-Ends a s.kernel_state)

  open_device-Ends :
      (a : ℕ) (s : BusState W)
      → Ends (λ d t. (d.address ≡ a) × SameBelow s t) (SameBelow s) (open_device kernel a s)
  unfolding open_device
  open_device-Ends a s = found-Ends a s (find_device a s.devices) (find_device-address a s.devices)

  close_files-same :
      (ds : List FileDevice) (s : BusState W) → SameBelow s (close_files kernel ds s).1
  unfolding close_files close_device
  close_files-same [] s = q.same_refl s.kernel_state
  close_files-same (d ∷ ds) s =
      q.same_trans _ _ _ (q.close_quiet d.file s.kernel_state)
        (close_files-same ds (on_kernel (kernel.close_file d.file) s).1)

  cleared :
      (s : BusState W) (out : Result (Unit {0}) × BusState W)
      → SameBelow s out.1
      → Ends (λ _. SameBelow s) (SameBelow s) (and_then (λ _. modify_devices (λ _. [])) out)
  cleared s (ok x, t) h = h
  cleared s (err e, t) h = h

  close_all-Ends : (s : BusState W) → Ends (λ _. SameBelow s) (SameBelow s) (close_all kernel s)
  unfolding close_all
  close_all-Ends s = cleared s (close_files kernel s.devices s) (close_files-same s.devices s)

  module _ {D A : Type 0} (a : ℕ) (op : I2cDevice (BusState W) → M (Host D (BusState W)) A) where
    abbrev RunsAt : ℕ → Host D (BusState W) → Result A × Host D (BusState W) → Type 0
    RunsAt = Runs SameBelow (DeviceAt a) op

    -- What the bus itself does before the runs does not matter.
    runs_before :
        (n : ℕ) (s : Host D (BusState W)) (w : BusState W) (out : Result A × Host D (BusState W))
        → SameBelow s.world w
        → RunsAt n (record s { world = w }) out
        → RunsAt n s out
    runs_before n s w _ h (refused same) = refused (q.same_trans _ _ _ h same)
    runs_before _ s w _ h (done dev same d e) = done dev (q.same_trans _ _ _ h same) d e
    runs_before _ s w _ h (again dev same d e rest) = again dev (q.same_trans _ _ _ h same) d e rest

    module _ (n : ℕ) (next : Error → M (Host D (BusState W)) A)
        (rest : (e : Error) (s : Host D (BusState W)) → RunsAt n s (next e s)) where
      closed_runs :
          (e : Error) (s : Host D (BusState W)) (out : Result (Unit {0}) × BusState W)
          → Ends (λ _. SameBelow s.world) (SameBelow s.world) out
          → RunsAt n s (and_then (λ _. next e) (lift_world s out))
      closed_runs e s (ok x, w) h = runs_before n s w _ h (rest e (record s { world = w }))
      closed_runs e s (err x, w) h = refused h

      ran :
          (last : Error) (dev : I2cDevice (BusState W)) (s : Host D (BusState W)) (w : BusState W)
          → DeviceAt a dev
          → SameBelow s.world w
          → (out : Result A × Host D (BusState W)) → op dev (record s { world = w }) ≡ out
          → RunsAt (suc n) s (after_attempt kernel a op (next (error_of last out.0)) out.0 out.1)
      unfolding after_attempt
      ran last dev s w d h (ok x, t) e = done dev h d e
      ran last dev s w d h (err x, t) e =
          again dev h d e (closed_runs x t (close_all kernel t.world) (close_all-Ends t.world))

      opened :
          (last : Error) (s : Host D (BusState W)) (out : Result FileDevice × BusState W)
          → Ends (λ d t. (d.address ≡ a) × SameBelow s.world t) (SameBelow s.world) out
          → RunsAt (suc n) s (
              and_then
                (λ d. attempt (op (device_calls kernel d)) >>= λ r.
                  after_attempt kernel a op (next (error_of last r)) r)
                (wrapping (lift_world s out)))
      opened last s (ok d, w) h =
          ran last (device_calls kernel d) s w (d, h.0, refl) h.1
            (op (device_calls kernel d) (record s { world = w })) refl
      opened last s (err e, w) h = refused h

    attempts-Runs :
        (n : ℕ) (last : Error) (s : Host D (BusState W))
        → RunsAt n s (attempts kernel a op n last s)
    unfolding attempts
    attempts-Runs zero last s = refused (q.same_refl _)
    attempts-Runs (suc n) last s =
        opened n (λ e. attempts kernel a op n e) (attempts-Runs n) last s
          (open_device kernel a s.world) (open_device-Ends a s.world)

    -- `Execute` runs an operation at most twice, each time on a device of the address that was asked
    -- for, and a second time only if the first run failed; it returns the result of a successful run.
    -- Before, between and after the runs it keeps whatever the kernel's calls for opening, addressing
    -- and closing files keep, and the fields of the driver.
    pub execute-Runs : (s : Host D (BusState W)) → RunsAt 2 s ((i2c_bus kernel).execute A a op s)
    execute-Runs s = attempts-Runs 2 Error.unsupported s
