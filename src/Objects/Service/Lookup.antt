-- ===== src/Objects/Service/Lookup.antt =====
-- Which object a request reaches in service.go.
use local_worker.Common.{
  if◌then◌else◌, false, Option, none, some, List, [], ◌∷◌, ◌++◌, M, Result, ok, err, ◌≡◌, refl, ap,
  ◌∙◌,
}
use local_worker.Common.Texts.{Text, same_text, same_text_refl}
use local_worker.Common.Maps.{Map, find, Distinct, put-Distinct, find-put_self, find-put_other}
use local_worker.Registry.Partition.{find-configure_each, trace, succeeded}
use local_worker.Objects.Service.{
  ObjectConfig, Addresses, Constructors, ObjectService, create_object, create_objects, add_object,
  new_service, configure, object_by_address, or_else, global_object, process_on, on_request,
}

module _ {O : Type 0} (make : Constructors O) (address_of : Text → Text) where
  abbrev pub NotLater : Text → List ObjectConfig → Type 0
  NotLater address [] = Unit
  NotLater address (c ∷ cs) = (same_text (address_of c.id) address ≡ false) × NotLater address cs

  find-add_object :
      (a b : Text) (r : Result O) (m : Map O)
      → same_text a b ≡ false
      → find b (add_object make a r m) ≡ find b m
  find-add_object a b (ok o) m h = find-put_other a o m b h
  find-add_object a b (err e) m h = refl

  create_objects-keeps :
      (address : Text) (cs : List ObjectConfig) (m : Map O)
      → NotLater address cs
      → find address (create_objects make address_of cs m) ≡ find address m
  unfolding create_objects
  create_objects-keeps address [] m h = refl
  create_objects-keeps address (c ∷ cs) m h =
      create_objects-keeps address cs _ h.1
      ∙ find-add_object (address_of c.id) address (create_object make c (address_of c.id)) m h.0

  create_objects_lem :
      (before : List ObjectConfig) (c : ObjectConfig) (after : List ObjectConfig) (m : Map O)
      (o : O)
      → create_object make c (address_of c.id) ≡ ok o
      → NotLater (address_of c.id) after
      → find (address_of c.id) (create_objects make address_of (before ++ (c ∷ after)) m) ≡ some o
  unfolding create_objects
  create_objects_lem [] c after m o e h =
      create_objects-keeps (address_of c.id) after _ h
      ∙ ap (λ r. find (address_of c.id) (add_object make (address_of c.id) r m)) e
      ∙ find-put_self (address_of c.id) o m
  create_objects_lem (b ∷ before) c after m o e h = create_objects_lem before c after _ o e h

  add_object-Distinct :
      (a : Text) (r : Result O) (m : Map O) → Distinct m → Distinct (add_object make a r m)
  add_object-Distinct a (ok o) m h = put-Distinct a o m h
  add_object-Distinct a (err e) m h = h

  create_objects-Distinct :
      (cs : List ObjectConfig) (m : Map O)
      → Distinct m
      → Distinct (create_objects make address_of cs m)
  unfolding create_objects
  create_objects-Distinct [] m h = h
  create_objects-Distinct (c ∷ cs) m h =
      create_objects-Distinct cs _
        (add_object-Distinct (address_of c.id) (create_object make c (address_of c.id)) m h)

module _ {O W X : Type 0} (addresses : Addresses) (make : Constructors O)
    (call_configure : O → M W (Unit {0})) (process_message : O → Option (X → M W (Unit {0}))) where
  -- A service from its creation through `Configure`.
  abbrev pub started : Text → List ObjectConfig → W → ObjectService O
  started module_id configs w =
      (configure call_configure (new_service make addresses module_id configs) w).1

  abbrev pub outcomes : Text → List ObjectConfig → W → Map (O × Result (Unit {0}))
  outcomes module_id configs w =
      trace call_configure (new_service make addresses module_id configs).objects w

  object_by_address-started :
      (module_id : Text) (configs : List ObjectConfig) (w : W) (address : Text)
      → find address (started module_id configs w).configured_objects
        ≡ succeeded (find address (outcomes module_id configs w))
  unfolding configure new_service
  object_by_address-started module_id configs w address =
      find-configure_each call_configure _ w address
        (create_objects-Distinct make (addresses.join_module_local module_id) configs [] tt)

  found_globally :
      (s : ObjectService O) (address id : Text)
      → addresses.split_address address ≡ (addresses.global_module_id, id)
      → find address s.configured_objects ≡ none
      → (object_by_address addresses address s).0
        ≡ find (addresses.join_module_local s.module_id id) s.configured_objects
  unfolding object_by_address
  found_globally s address id e h =
      ap (λ x. or_else x (global_object addresses address s)) h
      ∙ ap
          (λ x.
            if same_text x.0 addresses.global_module_id
            then find (addresses.join_module_local s.module_id x.1) s.configured_objects
            else none)
          e
      ∙ ap
          (λ b.
            if b
            then find (addresses.join_module_local s.module_id id) s.configured_objects
            else none)
          (same_text_refl addresses.global_module_id)

  -- A request for a global address, in a service in which no configured object has that address: the
  -- object that has the id in the module processes the message, if its `Configure` succeeded when the
  -- service was configured; if that failed, or there is no such object, nothing happens.
  pub on_request-global :
      (module_id : Text) (configs : List ObjectConfig) (w v : W) (address id : Text) (message : X)
      → addresses.split_address address ≡ (addresses.global_module_id, id)
      → find address (started module_id configs w).configured_objects ≡ none
      → on_request addresses process_message (started module_id configs w) address message v
        ≡ process_on addresses process_message
            (succeeded
              (find (addresses.join_module_local module_id id) (outcomes module_id configs w)))
            message
            v
  unfolding on_request configure new_service
  on_request-global module_id configs w v address id message e h =
      ap (λ o. process_on addresses process_message o message v)
        (found_globally (started module_id configs w) address id e h
          ∙ object_by_address-started module_id configs w
              (addresses.join_module_local module_id id))

module _ {O : Type 0} (addresses : Addresses) (make : Constructors O) (module_id : Text) where
  -- The objects of a new service do not depend on what else could be made: a configuration whose
  -- constructor yields an object has that object under its address, unless a later configuration has
  -- the same address, and whatever constructors failed.
  new_service-find :
      (before : List ObjectConfig) (c : ObjectConfig) (after : List ObjectConfig) (o : O)
      → create_object make c (addresses.join_module_local module_id c.id) ≡ ok o
      → NotLater make
          (addresses.join_module_local module_id)
          (addresses.join_module_local module_id c.id)
          after
      → find
          (addresses.join_module_local module_id c.id)
          (new_service make addresses module_id (before ++ (c ∷ after))).objects
        ≡ some o
  unfolding new_service
  new_service-find before c after o e h =
      create_objects_lem make (addresses.join_module_local module_id) before c after [] o e h
