-- ===== src/Vsphere/Mobs.antt =====
-- virtualmachine/vsphere/util.go: findMob, findComputeResource and findClusterComputeResource. The
-- error errorEmpty, which findMob tells from the others by identity, is a value of its own.
pub mod Direct
pub mod Depth
use libretto.Base.{ℕ, zero, suc, String, Bool, List, [], ◌∷◌, ◌==◌, ◌||◌, if◌then◌else◌}
use libretto.Go.Error.{new, object_not_found}
use libretto.Go.Result.{panic, Reply, answer, failure}
use libretto.Go.Action.{◌>>=◌, ◌>>◌, pure, fail, lift, attempt, request}
use libretto.Vsphere.Types.{Mor, error_empty}
use libretto.Vsphere.Api.{Cloud, Method, retrieve, MoDatacenter, MoCompute}

-- What a call of findMob returns: an object, errorEmpty, or, in the model, that the depth did not
-- suffice.
pub data Mob : Type 0 where
  found : Mor → Mob
  empty : Mob
  too_deep : Mob

abbrev pub is_compute : String → Bool
is_compute type = (type == "ComputeResource") || (type == "ClusterComputeResource")

module _ {F : Type 0} (cloud : Cloud F) where
  abbrev pub compute_properties : List String
  compute_properties = "name" ∷ "host" ∷ "resourcePool" ∷ "datastore" ∷ "network" ∷ []

  abbrev pub ask_compute : Mor → List String → Method F MoCompute
  ask_compute mor ps = request (retrieve mor ps) (λ log. cloud.compute_of log mor)

  -- The result of the search in a folder below is only looked at for an error.
  abbrev pub below : Method F Mob → Reply Mob → Method F Mob
  below rest (failure e) = fail e
  below rest (answer too_deep) = pure too_deep
  below rest (answer empty) = rest
  below rest (answer (found mor)) = rest

  abbrev pub compared : String → Method F Mob → MoCompute → Method F Mob
  compared name rest cr = if cr.name == name then pure (found cr.self) else rest

  module _ (search : Mor → Method F Mob) (name : String) where
    unfoldable pub find_in : List Mor → Method F Mob
    find_in [] = fail (object_not_found (new "Could not find the mob") name)
    find_in (child ∷ children) =
        if child.type == "Folder"
        then (do reply ← attempt (search child); below (find_in children) reply)
        else (if is_compute child.type
            then (do cr ← ask_compute child compute_properties; compared name (find_in children) cr)
            else find_in children)

    abbrev pub some_in : List Mor → Method F Mob
    some_in [] = pure empty
    some_in (child ∷ children) = find_in (child ∷ children)

  unfoldable pub find_mob_within : ℕ → String → Mor → Method F Mob
  unfolding find_in
  find_mob_within zero name mor = pure too_deep
  find_mob_within (suc n) name mor = do
    children ← request (retrieve mor ("childEntity" ∷ [])) (λ log. cloud.children_of log mor)
    some_in (find_mob_within n name) name children

  abbrev pub outcome_of : Mob → Method F Mor
  outcome_of (found mor) = pure mor
  outcome_of empty = fail error_empty
  outcome_of too_deep = lift panic

  -- The folders stand at most `depth` below each other.
  unfoldable pub find_mob : ℕ → Mor → String → Method F Mor
  unfolding find_mob_within
  find_mob depth mor name = do mob ← find_mob_within depth name mor; outcome_of mob

  unfoldable pub find_compute_resource : ℕ → MoDatacenter → String → Method F MoCompute
  unfolding find_mob
  find_compute_resource depth dc name = do
    mor ← find_mob depth dc.host_folder name
    ask_compute mor compute_properties

  unfoldable pub find_cluster_compute_resource : ℕ → MoDatacenter → String → Method F MoCompute
  unfolding find_mob
  find_cluster_compute_resource depth dc name = do
    mor ← find_mob depth dc.host_folder name
    ask_compute mor
        ("name" ∷ "configuration" ∷ "host" ∷ "resourcePool" ∷ "datastore" ∷ "network" ∷ [])
