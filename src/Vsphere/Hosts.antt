-- ===== src/Vsphere/Hosts.antt =====
-- virtualmachine/vsphere/util.go: getNetworkName, validateHost, filterHosts, the resource pools and
-- getVMLocation. A random host is the one at the index that util.Random gives.
pub mod Suitable
pub mod Located
use libretto.Base.{
  ℕ, zero, suc, ◌-◌, ◌+◌, String, Bool, true, false, Option, none, some, List, [], ◌∷◌, ◌<>◌, ◌==◌,
  ◌&&◌, ◌||◌, not, if◌then◌else◌, length, map,
}
use libretto.Util
use libretto.Util.{nth}
use libretto.Go.Error.{new, object_not_found}
use libretto.Go.Result.{Reply, answer, failure, first}
use libretto.Go.Action.{◌>>=◌, ◌>>◌, pure, fail, lift, attempt, request, note, calls}
use libretto.Vsphere.Types.{
  Vm, Mor, Network, Location, resource_pool_depth, err_no_hosts_in_cluster,
  error_destination_not_supported,
}
use libretto.Vsphere.Api.{
  Cloud, Method, retrieve, retrieve_all, list_resource_pools, set_datacenter, random, MoDatacenter,
}
use libretto.Vsphere.Session.{find_host_system}
use libretto.Vsphere.Mobs.{find_compute_resource, find_cluster_compute_resource, ask_compute}

-- A key of a map.
abbrev pub member : String → List String → Bool
member s [] = false
member s (t ∷ ts) = (t == s) || member s ts

module _ {F : Type 0} (cloud : Cloud F) where
  unfoldable pub get_network_name : Mor → Method F String
  get_network_name mor =
      if (mor.type == "Network") || (mor.type == "DistributedVirtualPortgroup")
      then request (retrieve mor ("name" ∷ [])) (λ log. cloud.name_of log mor)
      else fail (new ("Could not retrieve the network name for: " <> mor.value))

  abbrev pub named : Mor → String → Method F String
  named mor name =
      if name == "" then fail (new ("Network name empty for: " <> mor.value)) else pure name

  -- The names of a host's networks.
  unfoldable pub network_names : List Mor → Method F (List String)
  unfolding get_network_name
  network_names [] = pure []
  network_names (mor ∷ mors) = do
    name ← get_network_name mor
    checked ← named mor name
    names ← network_names mors
    pure (checked ∷ names)

  -- `for _, v := range vm.Networks`, which stops at the first that the host does not have.
  unfoldable pub has_networks : List Network → List String → Bool
  has_networks [] names = true
  has_networks (nw ∷ nws) names =
      let rest = has_networks nws names in if member nw.name names then rest else false

  unfoldable pub has_datastore : String → List Mor → Method F Bool
  has_datastore datastore [] = pure false
  has_datastore datastore (mor ∷ mors) = do
    name ← request (retrieve mor ("name" ∷ [])) (λ log. cloud.name_of log mor)
    if name == datastore then pure true else has_datastore datastore mors

  unfoldable pub validate_host : Vm F → Mor → Method F Bool
  unfolding network_names has_networks has_datastore
  validate_host vm host = do
    hs ← request (retrieve host ("network" ∷ "datastore" ∷ [])) (λ log. cloud.host_of log host)
    names ← network_names hs.network
    if vm.datastore == "" then pure (has_networks vm.networks names) else (do
      found ← has_datastore vm.datastore hs.datastore
      pure (has_networks vm.networks names && found))

  abbrev pub kept : Mor → Bool → List Mor → List Mor
  kept host valid hosts = if valid then host ∷ hosts else hosts

  unfoldable pub filter_hosts : Vm F → List Mor → Method F (List Mor)
  unfolding validate_host
  filter_hosts vm [] = pure []
  filter_hosts vm (host ∷ hosts) = do
    valid ← validate_host vm host
    rest ← filter_hosts vm hosts
    pure (kept host valid rest)

  abbrev pub valid_host : Vm F → String → Mor → Bool → Method F Mor
  valid_host vm name host valid =
      if valid
      then pure host
      else fail (
          new (
            "The host "
            <> cloud.format name
            <> " does not have a valid configuration. Required datastore: "
            <> cloud.format vm.datastore
            <> ". Required network: "
            <> cloud.show_networks vm.networks
            <> "."))

  abbrev pub suitable : Vm F → String → Mor → Method F Mor
  suitable vm name host = do valid ← validate_host vm host; valid_host vm name host valid

  abbrev pub pooled : Mor → List Mor → Option Mor → Method F Location
  pooled host networks none = fail (new "No valid resource pool found on the host")
  pooled host networks (some pool) =
      pure (record { host = some host; resource_pool = pool; networks = networks })

  unfoldable pub host_location : ℕ → Vm F → MoDatacenter → Method F Location
  unfolding find_compute_resource validate_host
  host_location depth vm dc = do
    cr ← find_compute_resource cloud depth dc vm.destination.destination_name
    first_host ← lift (first cr.host)
    host ← suitable vm vm.destination.destination_name first_host
    pooled host cr.network cr.resource_pool

  -- util.Random from 0.
  abbrev pub drawn : ℕ → Method F ℕ
  drawn max = do log ← calls; note random; lift (Util.random (cloud.intn log) 0 max)

  abbrev pub any_host : List Mor → Method F Mor
  any_host [] = fail (new "No suitable hosts found in the cluster")
  any_host (host ∷ hosts) = do n ← drawn (length hosts); lift (nth (host ∷ hosts) n)

  abbrev pub some_hosts : List Mor → Method F (Unit {0})
  some_hosts [] = fail err_no_hosts_in_cluster
  some_hosts (host ∷ hosts) = pure tt

  abbrev pub cluster_host : Vm F → List Mor → Method F Mor
  cluster_host vm hosts =
      if vm.destination.host_system == ""
      then (do filtered ← filter_hosts vm hosts; any_host filtered)
      else (do
        found ← find_host_system cloud hosts vm.destination.host_system
        suitable vm vm.destination.host_system found.0)

  unfoldable pub cluster_location : ℕ → Vm F → MoDatacenter → Method F Location
  unfolding find_cluster_compute_resource validate_host filter_hosts find_host_system
  cluster_location depth vm dc = do
    cr ← find_cluster_compute_resource cloud depth dc vm.destination.destination_name
    some_hosts cr.host
    host ← cluster_host vm cr.host
    pooled host cr.network cr.resource_pool

  abbrev pub pool_among : String → Method F (Mor × Mor) → List (Mor × Mor) → Method F (Mor × Mor)
  pool_among moid rest [] = rest
  pool_among moid rest ((pool, owner) ∷ pools) =
      if moid == pool.value then pure (pool, owner) else pool_among moid rest pools

  abbrev pub ask_pools : List Mor → Method F (List (Mor × Mor))
  ask_pools [] = pure []
  ask_pools (pool ∷ pools) =
      request (retrieve_all (pool ∷ pools) ("name" ∷ "owner" ∷ []))
        (λ log. cloud.pools_of log (pool ∷ pools))

  -- The pools at a path, with their owners.
  unfoldable pub find_resource_pool_list_at_path : String → Method F (List (Mor × Mor))
  find_resource_pool_list_at_path path = do
    pools ← request (list_resource_pools path) (λ log. cloud.pools_at log path)
    ask_pools pools

  abbrev pub pools_listed : Reply (List (Mor × Mor)) → List (Mor × Mor)
  pools_listed (answer pools) = pools
  pools_listed (failure e) = []

  -- A pool and its owner. An error of the list is dropped, and its pools are none.
  unfoldable pub pool_loop : ℕ → String → String → Method F (Mor × Mor)
  unfolding find_resource_pool_list_at_path
  pool_loop zero path moid =
      fail (object_not_found (new "could not find the resourcepool with moref id") moid)
  pool_loop (suc n) path moid = do
    let below = path <> "/*"
    reply ← attempt (find_resource_pool_list_at_path below)
    pool_among moid (pool_loop n below moid) (pools_listed reply)

  unfoldable pub find_resource_pool_by_moid : String → Method F (Mor × Mor)
  unfolding pool_loop
  find_resource_pool_by_moid moid = pool_loop resource_pool_depth "*/Resources" moid

  unfoldable pub pool_location : Vm F → MoDatacenter → Method F Location
  unfolding find_resource_pool_by_moid
  pool_location vm dc = do
    note (set_datacenter dc.self)
    pool ← find_resource_pool_by_moid vm.destination.moid
    cr ← ask_compute cloud pool.1 ("network" ∷ [])
    pure (record { host = none; resource_pool = pool.0; networks = cr.network })

  unfoldable pub get_vm_location : ℕ → Vm F → MoDatacenter → Method F Location
  unfolding host_location cluster_location pool_location
  get_vm_location depth vm dc =
      let type = vm.destination.destination_type in
      if type == "host"
      then host_location depth vm dc
      else (if type == "cluster"
          then cluster_location depth vm dc
          else (if type == "resource_pool"
              then pool_location vm dc
              else fail error_destination_not_supported))
