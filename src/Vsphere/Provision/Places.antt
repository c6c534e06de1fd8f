-- ===== src/Vsphere/Provision/Places.antt =====
-- virtualmachine/vsphere: the place of a machine is found without a change of the VM's name.
use libretto.Base.{
  ◌≡◌, zero, suc, ℕ, String, true, false, Option, none, some, List, [], ◌∷◌, ◌<>◌, ◌==◌,
}
use libretto.Go.Result.{Reply, answer, failure}
use libretto.Go.Action.{attempt, request}
use libretto.Go.Stays.{
  Stays, stays_rules, Stays-pure, Stays-fail, Stays-lift, Stays-if, Stays-bind, Stays-attempt,
}
use libretto.Vsphere.Types.{Mor, Vm, resource_pool_depth}
use libretto.Vsphere.Api.{Cloud, Method, MoDatacenter, retrieve}
use libretto.Vsphere.Session.{find_host_system}
use libretto.Vsphere.Kept.{find_first-Kept}
use libretto.Vsphere.Mobs.{
  Mob, found, empty, too_deep, below, is_compute, ask_compute, compute_properties, find_in, some_in,
  find_mob_within, outcome_of, find_mob, find_compute_resource, find_cluster_compute_resource,
}
use libretto.Vsphere.Hosts.{
  get_network_name, named, network_names, has_datastore, validate_host, filter_hosts, pooled,
  host_location, any_host, some_hosts, cluster_host, cluster_location, pool_among, pool_loop,
  find_resource_pool_list_at_path, find_resource_pool_by_moid, pool_location, get_vm_location,
  pools_listed, ask_pools,
}

module _ {F : Type 0} (cloud : Cloud F) (n : String) where
  -- The struct has this name.
  abbrev pub HasName : Vm F → Type 0
  HasName v = v.name ≡ n

  abbrev pub Named : {A : Type 0} → Method F A → Type 0
  Named m = Stays HasName m

  below-Named : (rest : Method F Mob) (r : Reply Mob) → Named rest → Named (below cloud rest r)
  below-Named rest (failure e) h = Stays-fail e
  below-Named rest (answer too_deep) h = Stays-pure too_deep
  below-Named rest (answer empty) h = h
  below-Named rest (answer (found mor)) h = h

  find_in-Named :
      (search_in : Mor → Method F Mob) (name : String) (children : List Mor)
      → ((mor : Mor) → Named (search_in mor))
      → Named (find_in cloud search_in name children)
  unfolding find_in
  find_in-Named search_in name [] h = Stays-fail _
  find_in-Named search_in name (child ∷ children) h =
      let rest = find_in-Named search_in name children h in
      Stays-if (child.type == "Folder") _ _
        (Stays-bind (attempt (search_in child)) _ (Stays-attempt (search_in child) (h child))
          λ r. below-Named _ r rest)
        (Stays-if (is_compute child.type) _ _
          (Stays-bind (ask_compute cloud child (compute_properties cloud)) _ (search stays_rules)
            λ cr. Stays-if (cr.name == name) _ _ (Stays-pure (found cr.self)) rest)
          rest)

  some_in-Named :
      (search_in : Mor → Method F Mob) (name : String) (children : List Mor)
      → ((mor : Mor) → Named (search_in mor))
      → Named (some_in cloud search_in name children)
  some_in-Named search_in name [] h = Stays-pure empty
  some_in-Named search_in name (child ∷ children) h =
      find_in-Named search_in name (child ∷ children) h

  find_mob_within-Named :
      (depth : ℕ) (name : String) (mor : Mor) → Named (find_mob_within cloud depth name mor)
  unfolding find_mob_within
  find_mob_within-Named zero name mor = Stays-pure too_deep
  find_mob_within-Named (suc d) name mor =
      let rest = find_mob_within-Named d name in search (stays_rules, some_in-Named, rest) depth 10

  outcome_of-Named : (mob : Mob) → Named (outcome_of cloud mob)
  outcome_of-Named (found mor) = Stays-pure mor
  outcome_of-Named empty = Stays-fail _
  outcome_of-Named too_deep = Stays-lift _

  find_mob-Named : (depth : ℕ) (mor : Mor) (name : String) → Named (find_mob cloud depth mor name)
  unfolding find_mob
  find_mob-Named depth mor name = search (stays_rules, find_mob_within-Named, outcome_of-Named)

  find_compute_resource-Named :
      (depth : ℕ) (dc : MoDatacenter) (name : String)
      → Named (find_compute_resource cloud depth dc name)
  unfolding find_compute_resource
  find_compute_resource-Named depth dc name = search (stays_rules, find_mob-Named)

  find_cluster-Named :
      (depth : ℕ) (dc : MoDatacenter) (name : String)
      → Named (find_cluster_compute_resource cloud depth dc name)
  unfolding find_cluster_compute_resource
  find_cluster-Named depth dc name = search (stays_rules, find_mob-Named)

  get_network_name-Named : (mor : Mor) → Named (get_network_name cloud mor)
  unfolding get_network_name
  get_network_name-Named mor = search stays_rules

  network_names-Named : (mors : List Mor) → Named (network_names cloud mors)
  unfolding network_names
  network_names-Named [] = Stays-pure []
  network_names-Named (mor ∷ mors) =
      Stays-bind (get_network_name cloud mor) _ (get_network_name-Named mor) λ name.
        Stays-bind (named cloud mor name) _ (search stays_rules) λ checked.
          Stays-bind (network_names cloud mors) _ (network_names-Named mors) λ names. Stays-pure _

  has_datastore-Named :
      (datastore : String) (mors : List Mor) → Named (has_datastore cloud datastore mors)
  unfolding has_datastore
  has_datastore-Named datastore [] = Stays-pure false
  has_datastore-Named datastore (mor ∷ mors) =
      Stays-bind (request (retrieve mor ("name" ∷ [])) (λ log. cloud.name_of log mor)) _
        (search stays_rules)
        λ name.
          Stays-if (name == datastore) _ _ (Stays-pure true) (has_datastore-Named datastore mors)

  validate_host-Named : (vm : Vm F) (host : Mor) → Named (validate_host cloud vm host)
  unfolding validate_host
  validate_host-Named vm host =
      search (stays_rules, network_names-Named, has_datastore-Named) depth 14

  filter_hosts-Named : (vm : Vm F) (hosts : List Mor) → Named (filter_hosts cloud vm hosts)
  unfolding filter_hosts
  filter_hosts-Named vm [] = Stays-pure []
  filter_hosts-Named vm (host ∷ hosts) =
      Stays-bind (validate_host cloud vm host) _ (validate_host-Named vm host) λ valid.
        Stays-bind (filter_hosts cloud vm hosts) _ (filter_hosts-Named vm hosts)
          λ rest. Stays-pure _

  pooled-Named :
      (host : Mor) (networks : List Mor) (pool : Option Mor)
      → Named (pooled cloud host networks pool)
  pooled-Named host networks none = Stays-fail _
  pooled-Named host networks (some pool) = Stays-pure _

  host_location-Named :
      (depth : ℕ) (vm : Vm F) (dc : MoDatacenter) → Named (host_location cloud depth vm dc)
  unfolding host_location
  host_location-Named depth vm dc =
      search (stays_rules, find_compute_resource-Named, validate_host-Named, pooled-Named) depth 16

  any_host-Named : (hosts : List Mor) → Named (any_host cloud hosts)
  any_host-Named [] = Stays-fail _
  any_host-Named (host ∷ hosts) = search stays_rules depth 12

  some_hosts-Named : (hosts : List Mor) → Named (some_hosts cloud hosts)
  some_hosts-Named [] = Stays-fail _
  some_hosts-Named (host ∷ hosts) = Stays-pure tt

  find_host_system-Named :
      (hosts : List Mor) (name : String) → Named (find_host_system cloud hosts name)
  unfolding find_host_system
  find_host_system-Named hosts name = search (stays_rules, find_first-Kept cloud HasName) depth 10

  cluster_host-Named : (vm : Vm F) (hosts : List Mor) → Named (cluster_host cloud vm hosts)
  cluster_host-Named vm hosts =
      search
        (
          stays_rules, filter_hosts-Named, any_host-Named, find_host_system-Named,
          validate_host-Named,
        )
        depth 16

  cluster_location-Named :
      (depth : ℕ) (vm : Vm F) (dc : MoDatacenter) → Named (cluster_location cloud depth vm dc)
  unfolding cluster_location
  cluster_location-Named depth vm dc =
      search (stays_rules, find_cluster-Named, some_hosts-Named, cluster_host-Named, pooled-Named)
        depth 16

  ask_pools-Named : (pools : List Mor) → Named (ask_pools cloud pools)
  ask_pools-Named [] = Stays-pure []
  ask_pools-Named (pool ∷ pools) = search stays_rules

  pools_at_path-Named : (path : String) → Named (find_resource_pool_list_at_path cloud path)
  unfolding find_resource_pool_list_at_path
  pools_at_path-Named path = search (stays_rules, ask_pools-Named)

  pool_among-Named :
      (moid : String) (rest : Method F (Mor × Mor)) (pools : List (Mor × Mor))
      → Named rest
      → Named (pool_among cloud moid rest pools)
  pool_among-Named moid rest [] h = h
  pool_among-Named moid rest ((pool, owner) ∷ pools) h =
      Stays-if (moid == pool.value) _ _ (Stays-pure (pool, owner))
        (pool_among-Named moid rest pools h)

  pool_loop-Named : (k : ℕ) (path moid : String) → Named (pool_loop cloud k path moid)
  unfolding pool_loop
  pool_loop-Named zero path moid = Stays-fail _
  pool_loop-Named (suc k) path moid =
      Stays-bind (attempt (find_resource_pool_list_at_path cloud (path <> "/*"))) _
        (Stays-attempt _ (pools_at_path-Named (path <> "/*")))
        λ reply.
          pool_among-Named moid _ (pools_listed cloud reply) (pool_loop-Named k (path <> "/*") moid)

  find_pool-Named : (moid : String) → Named (find_resource_pool_by_moid cloud moid)
  unfolding find_resource_pool_by_moid
  find_pool-Named moid = pool_loop-Named resource_pool_depth "*/Resources" moid

  pool_location-Named : (vm : Vm F) (dc : MoDatacenter) → Named (pool_location cloud vm dc)
  unfolding pool_location
  pool_location-Named vm dc = search (stays_rules, find_pool-Named) depth 10

  pub get_vm_location-Named :
      (depth : ℕ) (vm : Vm F) (dc : MoDatacenter) → Named (get_vm_location cloud depth vm dc)
  unfolding get_vm_location
  get_vm_location-Named depth vm dc =
      search (stays_rules, host_location-Named, cluster_location-Named, pool_location-Named) depth
        10
