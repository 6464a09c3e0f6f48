-- ===== src/Main/HostId/Order.antt =====
-- The id of the host does not depend on the order in which the system lists its interfaces.
use mathlib.Core.List.{Perm}
use mathlib.Core.List.Perm
use local_worker.Common.{List, ◌++◌, [], ◌∷◌, ok, err, Error, ◌≡◌, ap}
use local_worker.Common.Texts.{Text}
use local_worker.Main.HostId.{
  Interface, System, TextCalls, usable_addr, join, digest, id_of_interfaces, create_host_id,
}

module _ (calls : TextCalls)
    (sorts : (xs ys : List Text) → Perm xs ys → calls.sort xs ≡ calls.sort ys) where
  -- With a sort that gives the same list for any order of the same texts: without a readable machine
  -- id, systems that differ only in the order in which they list their interfaces have the same id.
  pub create_host_id-Perm :
      (system : System) (e : Error) (ifs ifs' : List Interface)
      → Perm ifs ifs'
      → create_host_id calls (record system { machine_id = err e; interfaces = ok ifs })
        ≡ create_host_id calls (record system { machine_id = err e; interfaces = ok ifs' })
  unfolding create_host_id id_of_interfaces
  create_host_id-Perm system e ifs ifs' same =
      ap (λ l. ok (digest calls (join (l ++ (system.goos ∷ system.goarch ∷ [])))))
        (sorts _ _ (Perm.filter_map usable_addr same))
