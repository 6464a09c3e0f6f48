-- ===== src/Devices/Service/Statuses.antt =====
-- The status of the worker and of its routers in service.go.
use mathlib.Core.List.{Perm, perm_middle}
use mathlib.Core.List.Perm
use local_worker.Common.{
  if◌then◌else◌, Bool, true, false, not, ◌||◌, Bool-cases, List, [], ◌∷◌, ◌++◌, ◌≡◌, refl, ap, ap₂,
  ◌∙◌, inl, inr, none, arith, subst, sym,
}
use local_worker.Common.Texts.{Text}
use local_worker.Common.Maps.{Map, find, find_or}
use local_worker.Devices.Service.{
  Status, unknown, online, offline, is_status, Router, DeviceService, status_dev_id,
  router_status_device_id, combine, reduce_statuses, status_of_all, get_status, is_online,
  refreshed, cleared, walk, get_online_router_infos, get_offline_router_infos,
}

abbrev some_status : Status → Map Status → Bool
some_status s [] = false
some_status s ((k, t) ∷ m) = is_status t s || some_status s m

-- Online if one of them is, else offline if one of them is, else unknown.
abbrev best : Bool → Bool → Status
best any_online any_offline =
    if any_online then online else (if any_offline then offline else unknown)

reduce_statuses_lem :
    (acc : Status) (m : Map Status)
    → reduce_statuses acc m
      ≡ best
          (is_status acc online || some_status online m)
          (is_status acc offline || some_status offline m)
reduce_statuses_lem unknown [] = refl
reduce_statuses_lem online [] = refl
reduce_statuses_lem offline [] = refl
reduce_statuses_lem acc ((k, s) ∷ m) =
    reduce_statuses_lem (combine acc s) m
    ∙ combined acc s (some_status online m) (some_status offline m)
  where
    combined :
        (a b : Status) (x y : Bool)
        → best (is_status (combine a b) online || x) (is_status (combine a b) offline || y)
          ≡ best
              (is_status a online || (is_status b online || x))
              (is_status a offline || (is_status b offline || y))
    combined unknown unknown x y = refl
    combined unknown online x y = refl
    combined unknown offline x y = refl
    combined online unknown x y = refl
    combined online online x y = refl
    combined online offline x y = refl
    combined offline unknown x y = refl
    combined offline online x y = refl
    combined offline offline x y = ground arith

module _ {D : Type 0} where
  -- `GetStatus` without a router, when the map has no status of the worker itself: it is online if one
  -- of the statuses is, else offline if one of them is, else unknown.
  get_status-best :
      (s : DeviceService D)
      → find status_dev_id s.last_statuses ≡ none
      → get_status [] s
        ≡ best (some_status online s.last_statuses) (some_status offline s.last_statuses)
  unfolding get_status
  get_status-best s h = rw h (all s.last_statuses)
    where
      twice :
          (b : Status) (x y : Bool)
          → best
              (is_status b online || (is_status b online || x))
              (is_status b offline || (is_status b offline || y))
            ≡ best (is_status b online || x) (is_status b offline || y)
      twice unknown x y = refl
      twice online x y = refl
      twice offline x y = refl

      all : (m : Map Status) → status_of_all m ≡ best (some_status online m) (some_status offline m)
      all [] = refl
      all ((k, t) ∷ m) =
          reduce_statuses_lem t ((k, t) ∷ m)
          ∙ twice t (some_status online m) (some_status offline m)

abbrev All : {A : Type 0} → (A → Type 0) → List A → Type 0
All P [] = Unit
All P (x ∷ xs) = P x × All P xs

abbrev pub ids : List Router → List Text
ids [] = []
ids (r ∷ rs) = r.module_id ∷ ids rs

abbrev pick : (Text → Bool) → List Text → List Text
pick p [] = []
pick p (x ∷ xs) = if p x then x ∷ pick p xs else pick p xs

module _ (p : Text → Bool) where
  pick_step :
      (b : Bool) (x : Text) (l l' xs : List Text)
      → Perm (l ++ l') xs
      → Perm ((if b then x ∷ l else l) ++ (if not b then x ∷ l' else l')) (x ∷ xs)
  pick_step true x l l' xs h = Perm.cons x h
  pick_step false x l l' xs h = Perm.trans (perm_middle l l') (Perm.cons x h)

  pick-Perm : (xs : List Text) → Perm (pick p xs ++ pick (λ x. not (p x)) xs) xs
  pick-Perm [] = Perm.nil
  pick-Perm (x ∷ xs) = pick_step (p x) x _ _ xs (pick-Perm xs)

  module _ (change : Router → Router)
      (same : (r : Router) → (change r).module_id ≡ r.module_id) where
    ids-walk :
        (rs : List Router)
        → (ids (walk (λ r. p r.module_id) change rs).0 ≡ pick p (ids rs))
          × (ids (walk (λ r. p r.module_id) change rs).1 ≡ ids rs)
    ids-walk [] = (refl, refl)
    ids-walk (r ∷ rs) = elim (Bool-cases (p r.module_id)) [
      | inl e ↦ rw e (rw (same r, (ids-walk rs).0, (ids-walk rs).1) (refl, refl))
      | inr e ↦ rw e (rw ((ids-walk rs).0, (ids-walk rs).1) (refl, refl))
    ]

    walk-All :
        (P : Router → Type 0)
        → ((r : Router) → p r.module_id ≡ true → P (change r))
        → (rs : List Router) → All P (walk (λ r. p r.module_id) change rs).0
    walk-All P h [] = tt
    walk-All P h (r ∷ rs) = elim (Bool-cases (p r.module_id)) [
      | inl e ↦ rw e (h r e, walk-All P h rs)
      | inr e ↦ rw e (walk-All P h rs)
    ]

module _ {D : Type 0} (s : DeviceService D) where
  -- A router as the list of online routers shows it.
  abbrev Online : Router → Type 0
  Online r =
      (get_status r.module_id s ≡ online)
      × (r.uptime ≡ find_or 0 (router_status_device_id r.module_id) s.last_uptime_seconds)
      × (r.ip_address ≡ find_or [] (router_status_device_id r.module_id) s.last_ip_address)

  abbrev NotOnline : Router → Type 0
  NotOnline r =
      (is_status (get_status r.module_id s) online ≡ false) × (r.uptime ≡ 0) × (r.ip_address ≡ [])

  false_of_not : (b : Bool) → not b ≡ true → b ≡ false
  false_of_not b h = ground arith

  online_eq : (x : Status) → is_status x online ≡ true → x ≡ online
  online_eq online h = refl
  online_eq unknown h = absurd (ground arith)
  online_eq offline h = absurd (ground arith)

  -- The two calls that a ping message makes, `GetOnlineRouterInfos` and then `GetOfflineRouterInfos`:
  -- together they list the ids of all routers, each once. A router of the first list is online and
  -- carries the uptime and the address last heard of it; one of the second is not online, and its
  -- uptime and address are cleared.
  router_infos-Perm :
      Perm
        (ids (get_online_router_infos s).0
          ++ ids (get_offline_router_infos (get_online_router_infos s).1).0)
        (ids s.routers)
      × All Online (get_online_router_infos s).0
      × All NotOnline (get_offline_router_infos (get_online_router_infos s).1).0
  unfolding get_online_router_infos get_offline_router_infos get_status
  router_infos-Perm = (
    subst (λ l. Perm l (ids s.routers))
        (sym (ap₂ ◌++◌ first.0 (second.0 ∙ ap (pick (λ x. not (p x))) first.1)))
        (pick-Perm p (ids s.routers)),
    walk-All p (refreshed s) (λ r. refl) Online (λ r e. (online_eq _ e, refl, refl)) s.routers,
    walk-All (λ x. not (p x)) cleared (λ r. refl) NotOnline (λ r e. (false_of_not _ e, refl, refl))
        (walk (is_online s) (refreshed s) s.routers).1,
  )
    where
      p : Text → Bool
      p x = is_status (get_status x s) online

      first :
          (ids (walk (λ r. p r.module_id) (refreshed s) s.routers).0 ≡ pick p (ids s.routers))
          × (ids (walk (λ r. p r.module_id) (refreshed s) s.routers).1 ≡ ids s.routers)
      first = ids-walk p (refreshed s) (λ r. refl) s.routers

      second :
          (ids
              (walk
                (λ r. not (p r.module_id))
                cleared
                (walk (λ r. p r.module_id) (refreshed s) s.routers).1).0
            ≡ pick (λ x. not (p x)) (ids (walk (λ r. p r.module_id) (refreshed s) s.routers).1))
          × (ids
                (walk
                  (λ r. not (p r.module_id))
                  cleared
                  (walk (λ r. p r.module_id) (refreshed s) s.routers).1).1
              ≡ ids (walk (λ r. p r.module_id) (refreshed s) s.routers).1)
      second =
          ids-walk (λ x. not (p x)) cleared (λ r. refl)
            (walk (λ r. p r.module_id) (refreshed s) s.routers).1
