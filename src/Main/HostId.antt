-- ===== src/Main/HostId.antt =====
-- pkg/service/registration.go: the id of the host, from a file or from the network interfaces; and
-- `NewService` of service.go, which asks for it unless it is given one. What the system yields is a
-- parameter: the file, `net.Interfaces` and the names of the platform. So are `strings.TrimSpace`,
-- the hash in hexadecimal digits and `sort.Strings`.
pub mod Order
use mathlib.Core.List.{filter_map}
use local_worker.Common.{
  ℕ, ltb, if◌then◌else◌, Bool, ◌&&◌, not, Option, none, some, List, [], ◌∷◌, ◌++◌, Result, ok, err,
  Error, map_ok, length,
}
use local_worker.Common.Texts.{Text, take}

-- The flags that are looked at, and the text of the address, which is empty if there is none.
pub record Interface : Type 0 where
  pub up : Bool
  pub loopback : Bool
  pub hardware_addr : Text

pub record System : Type 0 where
  pub machine_id : Result Text
  pub interfaces : Result (List Interface)
  pub goos : Text
  pub goarch : Text

pub record TextCalls : Type 0 where
  pub trim_space : Text → Text
  pub sha1_hex : Text → Text
  pub sort : List Text → List Text

-- The branches of the loop over the interfaces.
abbrev pub usable_addr : Interface → Option Text
usable_addr v =
    if v.up && not v.loopback
    then (if ltb 0 (length v.hardware_addr) then some v.hardware_addr else none)
    else none

-- `strings.Join` with a comma.
unfoldable pub join : List Text → Text
join [] = []
join (x ∷ []) = x
join (x ∷ y ∷ xs) = x ++ (b',' ∷ join (y ∷ xs))

module _ (calls : TextCalls) where
  -- `id[:10]`
  abbrev pub digest : Text → Text
  digest text = take 10 (calls.sha1_hex text)

  unfoldable pub id_of_interfaces : System → List Interface → Text
  unfolding join
  id_of_interfaces system ifs =
      digest (join (calls.sort (filter_map usable_addr ifs) ++ (system.goos ∷ system.goarch ∷ [])))

  unfoldable pub create_host_id : System → Result Text
  unfolding id_of_interfaces
  create_host_id system = elim system.machine_id [
    | ok content ↦ ok (digest (calls.trim_space content))
    | err e ↦ map_ok (id_of_interfaces system) system.interfaces
  ]

  abbrev pub wrapped : Result Text → Result Text
  wrapped (ok id) = ok id
  wrapped (err e) = err (Error.wrapped e)

  -- `NewService`, as far as it finds the id: from the configuration, if it has one.
  unfoldable new_service_host_id : Text → System → Result Text
  unfolding create_host_id
  new_service_host_id [] system = wrapped (create_host_id system)
  new_service_host_id (x ∷ xs) system = ok (x ∷ xs)
