-- ===== src/Registry.antt =====
-- What pkg/service/devices/service.go and pkg/service/objects/service.go do alike: they configure
-- every entry of a map, keep those that succeed in a second map, and list the ids of both. The order
-- in which Go walks a map is the order of the list, which the theorems leave open.
pub mod Partition
use local_worker.Common.{ℕ, Option, none, some, List, [], ◌∷◌, M, Result, ok, err, Error}
use local_worker.Common.Texts.{Text}
use local_worker.Common.Maps.{Map, find, keys}

abbrev pub add_outcome :
    {D W : Type 0}
    → Text
    → D
    → Result (Unit {0})
    → (Map D × List Error) × W
    → (Map D × List Error) × W
add_outcome k d (ok _) ((configured, errors), w) = (((k, d) ∷ configured, errors), w)
add_outcome k d (err e) ((configured, errors), w) = ((configured, e ∷ errors), w)

-- The entries whose `Configure` succeeds, and the errors of the others.
unfoldable pub configure_each :
    {D W : Type 0} → (D → M W (Unit {0})) → Map D → W → (Map D × List Error) × W
configure_each setup [] w = (([], []), w)
configure_each setup ((k, d) ∷ m) w =
    add_outcome k d (setup d w).0 (configure_each setup m (setup d w).1)

abbrev keep_missing : {D : Type 0} → Text → Option D → List Text → List Text
keep_missing k none ids = k ∷ ids
keep_missing k (some d) ids = ids

-- The keys of a map that another map does not have.
unfoldable pub missing_from : {D : Type 0} → Map D → Map D → List Text
missing_from configured [] = []
missing_from configured ((k, d) ∷ m) =
    keep_missing k (find k configured) (missing_from configured m)
