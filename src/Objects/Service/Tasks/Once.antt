-- ===== src/Objects/Service/Tasks/Once.antt =====
-- Every object is run, and every type of the objects once.
use local_worker.Common.{
  ℕ, ◌+◌, if◌then◌else◌, if_cases, Bool, true, false, ◌||◌, Option, none, some, List, [], ◌∷◌, ◌++◌,
  ◌≡◌, refl, ap, ◌∙◌, arith,
}
use local_worker.Common.Maps.{Map}
use local_worker.Objects.Service.{ObjectService}
use local_worker.Objects.Service.Tasks.{
  TypeInstance, switch_type, output_type, binary_sensor_type, same_type, Task, run_statuses,
  send_ping_messages, run_object, run_type, wait_for_objects, was_visited, type_task, visit,
  start_each, tasks_for, run,
}

module _ {O : Type 0} where
  -- The objects among the tasks, and how often a type is.
  abbrev pub objects_of : List (Task O) → Map O
  objects_of [] = []
  objects_of (run_object address obj ∷ ts) = (address, obj) ∷ objects_of ts
  objects_of (_ ∷ ts) = objects_of ts

  abbrev pub times : TypeInstance → List (Task O) → ℕ
  times t [] = 0
  times t (run_type u ∷ ts) = (if same_type u t then 1 else 0) + times t ts
  times t (_ ∷ ts) = times t ts

  objects_of-append :
      (xs ys : List (Task O)) → objects_of (xs ++ ys) ≡ objects_of xs ++ objects_of ys
  objects_of-append [] ys = refl
  objects_of-append (run_object a o ∷ xs) ys = ap (λ l. (a, o) ∷ l) (objects_of-append xs ys)
  objects_of-append (run_statuses ∷ xs) ys = objects_of-append xs ys
  objects_of-append (send_ping_messages ∷ xs) ys = objects_of-append xs ys
  objects_of-append (run_type t ∷ xs) ys = objects_of-append xs ys
  objects_of-append (wait_for_objects ∷ xs) ys = objects_of-append xs ys

  times-append :
      (t : TypeInstance) (xs ys : List (Task O)) → times t (xs ++ ys) ≡ times t xs + times t ys
  times-append t [] ys = omega arith
  times-append t (run_object a o ∷ xs) ys = times-append t xs ys
  times-append t (run_statuses ∷ xs) ys = times-append t xs ys
  times-append t (send_ping_messages ∷ xs) ys = times-append t xs ys
  times-append t (run_type u ∷ xs) ys = omega (arith, times-append t xs ys)
  times-append t (wait_for_objects ∷ xs) ys = times-append t xs ys

  append-nil : (xs : Map O) → xs ++ [] ≡ xs
  append-nil [] = refl
  append-nil (x ∷ xs) = ap (λ l. x ∷ l) (append-nil xs)

  module _ (type_of : O → Option TypeInstance) where
    abbrev is_of : TypeInstance → Option TypeInstance → Bool
    is_of t none = false
    is_of t (some u) = same_type u t

    -- Whether an object of the type is configured.
    abbrev pub has_type : TypeInstance → Map O → Bool
    has_type t [] = false
    has_type t ((address, obj) ∷ objects) = is_of t (type_of obj) || has_type t objects

    objects_of-type_task :
        (u : Option TypeInstance) (visited : List TypeInstance)
        → objects_of (type_task type_of u visited) ≡ []
    objects_of-type_task none visited = refl
    objects_of-type_task (some u) visited =
        if_cases (λ ts. objects_of ts ≡ []) (was_visited u visited) [] (run_type u ∷ []) (λ _. refl)
          (λ _. refl)

    start_each-objects :
        (visited : List TypeInstance) (objects : Map O)
        → objects_of (start_each type_of visited objects) ≡ objects
    unfolding start_each
    start_each-objects visited [] = refl
    start_each-objects visited ((address, obj) ∷ objects) =
        ap (λ l. (address, obj) ∷ l)
          (objects_of-append (type_task type_of (type_of obj) visited) _
            ∙ ap
                (λ l.
                  l
                  ++ objects_of (start_each type_of (visit type_of (type_of obj) visited) objects))
                (objects_of-type_task (type_of obj) visited)
            ∙ start_each-objects (visit type_of (type_of obj) visited) objects)

    same_type-eq : (t u : TypeInstance) → same_type u t ≡ true → u ≡ t
    same_type-eq switch_type switch_type h = refl
    same_type-eq output_type output_type h = refl
    same_type-eq binary_sensor_type binary_sensor_type h = refl
    same_type-eq switch_type output_type h = absurd (ground arith)
    same_type-eq switch_type binary_sensor_type h = absurd (ground arith)
    same_type-eq output_type switch_type h = absurd (ground arith)
    same_type-eq output_type binary_sensor_type h = absurd (ground arith)
    same_type-eq binary_sensor_type switch_type h = absurd (ground arith)
    same_type-eq binary_sensor_type output_type h = absurd (ground arith)

    -- A type is started once, unless it runs already or no object is of it.
    expected : TypeInstance → List TypeInstance → Map O → ℕ
    expected t visited objects =
        if was_visited t visited then 0 else if has_type t objects then 1 else 0

    visit_step :
        (t : TypeInstance) (u : Option TypeInstance) (visited : List TypeInstance) (n : ℕ)
        (b : Bool)
        → n ≡ (if was_visited t (visit type_of u visited) then 0 else if b then 1 else 0)
        → times t (type_task type_of u visited) + n
          ≡ (if was_visited t visited then 0 else if is_of t u || b then 1 else 0)
    visit_step t none visited n b h = ground arith
    visit_step t (some u) visited n b h = ground (arith, same_type-eq t u)

    start_each-times :
        (t : TypeInstance) (visited : List TypeInstance) (objects : Map O)
        → times t (start_each type_of visited objects) ≡ expected t visited objects
    unfolding start_each expected
    start_each-times t visited [] = ground arith
    start_each-times t visited ((address, obj) ∷ objects) =
        times-append t (type_task type_of (type_of obj) visited) _
        ∙ visit_step t (type_of obj) visited _ (has_type t objects)
            (start_each-times t (visit type_of (type_of obj) visited) objects)

    -- `Run` starts every object that is configured, each in one goroutine, and for each type of object one
    -- message loop if an object of that type is configured, and none otherwise.
    pub run-each_once :
        (s : ObjectService O) (t : TypeInstance)
        → (objects_of (run type_of s).0 ≡ s.configured_objects)
          × (times t (run type_of s).0 ≡ (if has_type t s.configured_objects then 1 else 0))
    unfolding run expected
    run-each_once s t = of_map s.configured_objects
      where
        of_map :
            (objects : Map O)
            → (objects_of (tasks_for type_of objects) ≡ objects)
              × (times t (tasks_for type_of objects) ≡ (if has_type t objects then 1 else 0))
        of_map [] = (refl, refl)
        of_map (x ∷ objects) = (
          objects_of-append (start_each type_of [] (x ∷ objects)) (wait_for_objects ∷ [])
              ∙ append-nil _
              ∙ start_each-objects [] (x ∷ objects),
          times-append t (start_each type_of [] (x ∷ objects)) (wait_for_objects ∷ [])
              ∙ omega (arith, start_each-times t [] (x ∷ objects)),
        )
