-- ===== src/Devices/Service/Creation/Created.antt =====
-- What `NewService` makes.
use local_worker.Common.{
  Bool, true, false, Option, none, some, List, [], ◌∷◌, ◌++◌, Result, ok, err, ◌≡◌, refl, ◌∙◌,
}
use local_worker.Common.Texts.{Text, same_text}
use local_worker.Common.Maps.{Map, put, find, Distinct, put-Distinct, find-put_self, find-put_other}
use local_worker.Devices.{DeviceConfig}
use local_worker.Devices.Service.{Status, Router, router_status_device_id, status_dev_id}
use local_worker.Devices.Service.Creation.{
  Constructors, after_ok, create_device, create_devices, create_monitors, create_status,
  monitor_for, new_service,
}

-- What holds of a result, if it is one.
abbrev pub Holds : {A : Type 0} → (A → Type 0) → Result A → Type 0
Holds P (ok a) = P a
Holds P (err e) = Unit

after_ok-Holds :
    {A B : Type 0} (P : A → Type 0) (Q : B → Type 0) (r : Result A) (f : A → Result B)
    → Holds P r
    → ((a : A) → P a → Holds Q (f a))
    → Holds Q (after_ok r f)
after_ok-Holds P Q (ok a) f h g = g a h
after_ok-Holds P Q (err e) f h g = tt

always : {A : Type 0} (r : Result A) → Holds (λ _. Unit {0}) r
always (ok a) = tt
always (err e) = tt

Holds-mono :
    {A : Type 0} (P Q : A → Type 0) (r : Result A) → Holds P r → ((a : A) → P a → Q a) → Holds Q r
Holds-mono P Q (ok a) h g = g a h
Holds-mono P Q (err e) h g = tt

abbrev pub made : {A : Type 0} → Result A → Option A
made (ok a) = some a
made (err e) = none

module _ {D : Type 0} (make : Constructors D) (is_virtual : Bool) (module_id : Text) where
  create_devices-Distinct :
      (cs : List DeviceConfig) (m : Map D)
      → Distinct m
      → Holds Distinct (create_devices make is_virtual module_id cs m)
  unfolding create_devices
  create_devices-Distinct [] m h = h
  create_devices-Distinct (c ∷ cs) m h =
      after_ok-Holds (λ _. Unit) Distinct (create_device make is_virtual module_id c)
        (λ d. create_devices make is_virtual module_id cs (put c.id d m))
        (always (create_device make is_virtual module_id c))
        (λ d _. create_devices-Distinct cs (put c.id d m) (put-Distinct c.id d m h))

  create_monitors-Distinct :
      (rs : List Router) (made : Map D × Map Status)
      → Distinct made.0
      → Holds (λ out. Distinct out.0) (create_monitors make is_virtual module_id rs made)
  unfolding create_monitors
  create_monitors-Distinct [] made h = h
  create_monitors-Distinct (r ∷ rs) made h =
      after_ok-Holds (λ _. Unit) (λ out. Distinct out.0)
        (monitor_for make is_virtual module_id (router_status_device_id r.module_id) r.module_id) _
        (always _)
        (λ d _.
          create_monitors-Distinct rs _
            (put-Distinct (router_status_device_id r.module_id) d made.0 h))

  -- No later configuration of the list has the id.
  abbrev pub NotLater : Text → List DeviceConfig → Type 0
  NotLater id [] = Unit
  NotLater id (c ∷ cs) = (same_text c.id id ≡ false) × NotLater id cs

  create_devices-keeps :
      (id : Text) (cs : List DeviceConfig) (m : Map D)
      → NotLater id cs
      → Holds (λ out. find id out ≡ find id m) (create_devices make is_virtual module_id cs m)
  unfolding create_devices
  create_devices-keeps id [] m h = refl
  create_devices-keeps id (c ∷ cs) m h =
      after_ok-Holds (λ _. Unit) (λ out. find id out ≡ find id m)
        (create_device make is_virtual module_id c)
        (λ d. create_devices make is_virtual module_id cs (put c.id d m)) (always _)
        (λ d _.
          Holds-mono (λ out. find id out ≡ find id (put c.id d m)) (λ out. find id out ≡ find id m)
            (create_devices make is_virtual module_id cs (put c.id d m))
            (create_devices-keeps id cs (put c.id d m) h.1)
            (λ out e. e ∙ find-put_other c.id d m id h.0))

  abbrev Made : DeviceConfig → Map D → Type 0
  Made c m = find c.id m ≡ made (create_device make is_virtual module_id c)

  made_here :
      (c : DeviceConfig) (cs : List DeviceConfig) (m : Map D) (r : Result D)
      → NotLater c.id cs
      → Holds
          (λ out. find c.id out ≡ made r)
          (after_ok r (λ d. create_devices make is_virtual module_id cs (put c.id d m)))
  made_here c cs m (ok d) h =
      Holds-mono (λ out. find c.id out ≡ find c.id (put c.id d m)) (λ out. find c.id out ≡ some d)
        (create_devices make is_virtual module_id cs (put c.id d m))
        (create_devices-keeps c.id cs (put c.id d m) h) (λ out e. e ∙ find-put_self c.id d m)
  made_here c cs m (err e) h = tt

  create_devices-Made :
      (before : List DeviceConfig) (c : DeviceConfig) (after : List DeviceConfig) (m : Map D)
      → NotLater c.id after
      → Holds (Made c) (create_devices make is_virtual module_id (before ++ (c ∷ after)) m)
  unfolding create_devices
  create_devices-Made [] c after m h =
      made_here c after m (create_device make is_virtual module_id c) h
  create_devices-Made (b ∷ before) c after m h =
      after_ok-Holds (λ _. Unit) (Made c) (create_device make is_virtual module_id b)
        (λ d. create_devices make is_virtual module_id (before ++ (c ∷ after)) (put b.id d m))
        (always _) (λ d _. create_devices-Made before c after (put b.id d m) h)

  -- When `NewService` succeeds: each configuration whose id no later configuration has is found under
  -- its id, as the device that its type's constructor made for it, which did not fail.
  new_service-Made :
      (rs : List Router) (before : List DeviceConfig) (c : DeviceConfig) (after : List DeviceConfig)
      → NotLater c.id after
      → Holds
          (λ s. find c.id s.devices ≡ made (create_device make is_virtual module_id c))
          (new_service make is_virtual module_id rs (before ++ (c ∷ after)))
  unfolding new_service
  new_service-Made rs before c after h =
      after_ok-Holds (λ _. Unit) (λ s. Made c s.devices)
        (create_status make is_virtual module_id rs) _ (always _)
        (λ a _.
          after_ok-Holds (Made c) (λ s. Made c s.devices)
            (create_devices make is_virtual module_id (before ++ (c ∷ after)) a.0) _
            (create_devices-Made before c after a.0 h) (λ m k. k))

module _ {D : Type 0} (make : Constructors D) (module_id : Text) where
  create_status-Distinct :
      (is_virtual : Bool) (rs : List Router)
      → Holds (λ out. Distinct out.0) (create_status make is_virtual module_id rs)
  unfolding create_status
  create_status-Distinct false rs = tt
  create_status-Distinct true [] =
      after_ok-Holds (λ _. Unit) (λ out. Distinct out.0)
        (monitor_for make true module_id status_dev_id module_id) _ (always _) (λ d _. (refl, tt))
  create_status-Distinct true (r ∷ rs) =
      create_monitors-Distinct make true module_id (r ∷ rs) ([], []) tt

  -- The devices of a service that `NewService` makes have distinct ids.
  new_service-Distinct :
      (is_virtual : Bool) (rs : List Router) (cs : List DeviceConfig)
      → Holds (λ s. Distinct s.devices) (new_service make is_virtual module_id rs cs)
  unfolding new_service
  new_service-Distinct is_virtual rs cs =
      after_ok-Holds (λ out. Distinct out.0) (λ s. Distinct s.devices)
        (create_status make is_virtual module_id rs) _ (create_status-Distinct is_virtual rs)
        (λ a h.
          after_ok-Holds Distinct (λ s. Distinct s.devices)
            (create_devices make is_virtual module_id cs a.0) _
            (create_devices-Distinct make is_virtual module_id cs a.0 h) (λ m k. k))
