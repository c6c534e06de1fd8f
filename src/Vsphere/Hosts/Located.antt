-- ===== src/Vsphere/Hosts/Located.antt =====
-- getVMLocation gives a host that has what the machine needs.
use libretto.Base.{
  All, ◌≡◌, refl, ℕ, Bool, true, false, Option, none, some, List, [], ◌∷◌, String, ◌==◌, ◌⊎◌, inl,
  inr, Bool-cases, eq_iff, length,
}
use libretto.Go.Result.{ok, first}
use libretto.Go.Action.{World, lift, note}
use libretto.Go.Yields.{
  Yields, Succeeds-ok, Yields-pure, Yields-fail, Yields-if, Yields-then, Yields-bind,
}
use libretto.Vsphere.Types.{Mor, Vm, Location}
use libretto.Vsphere.Api.{Cloud, Call, set_datacenter, MoDatacenter}
use libretto.Vsphere.Session.{find_host_system}
use libretto.Vsphere.Mobs.{ask_compute, find_compute_resource, find_cluster_compute_resource}
use libretto.Vsphere.Hosts.{
  drawn, valid_host, suitable, pooled, host_location, any_host, some_hosts, cluster_host,
  cluster_location, find_resource_pool_by_moid, pool_location, get_vm_location,
}
use libretto.Vsphere.Hosts.Suitable.{
  IsSuitable, validate_host-IsSuitable, filter_hosts-All, nth-IsSuitable,
}

module _ {F : Type 0} (cloud : Cloud F) (vm : Vm F) where
  -- No host is chosen in a resource pool.
  abbrev pub IsPlaced : Location → Type 0
  IsPlaced l =
      ((vm.destination.destination_type ≡ "resource_pool") × (l.host ≡ none))
      ⊎ ((host : Mor) × (l.host ≡ some host) × IsSuitable cloud vm host)

  valid_host-IsSuitable :
      (name : String) (host : Mor) (valid : Bool)
      → (valid ≡ true → IsSuitable cloud vm host)
      → Yields (IsSuitable cloud vm) (valid_host cloud vm name host valid)
  valid_host-IsSuitable name host true h = Yields-pure host (h refl)
  valid_host-IsSuitable name host false h = Yields-fail _

  suitable-IsSuitable :
      (name : String) (host : Mor) → Yields (IsSuitable cloud vm) (suitable cloud vm name host)
  suitable-IsSuitable name host =
      Yields-then (λ b. b ≡ true → IsSuitable cloud vm host) _ _
        (validate_host-IsSuitable cloud vm host) (valid_host-IsSuitable name host)

  pooled-IsPlaced :
      (host : Mor) (networks : List Mor) (pool : Option Mor)
      → IsSuitable cloud vm host
      → Yields IsPlaced (pooled cloud host networks pool)
  pooled-IsPlaced host networks none h = Yields-fail _
  pooled-IsPlaced host networks (some pool) h = Yields-pure _ (inr (host, refl, h))

  host_location-IsPlaced :
      (depth : ℕ) (dc : MoDatacenter) → Yields IsPlaced (host_location cloud depth vm dc)
  unfolding host_location
  host_location-IsPlaced depth dc =
      Yields-bind (find_compute_resource cloud depth dc vm.destination.destination_name) _ λ cr.
        Yields-bind (lift (first cr.host)) _ λ candidate.
          Yields-then (IsSuitable cloud vm) _ _
            (suitable-IsSuitable vm.destination.destination_name candidate)
            λ host h. pooled-IsPlaced host cr.network cr.resource_pool h

  any_host-IsSuitable :
      (hosts : List Mor)
      → All (IsSuitable cloud vm) hosts
      → Yields (IsSuitable cloud vm) (any_host cloud hosts)
  any_host-IsSuitable [] h = Yields-fail _
  any_host-IsSuitable (host ∷ hosts) h =
      Yields-bind (drawn cloud (length hosts)) _ λ n. nth-IsSuitable cloud vm (host ∷ hosts) n h

  cluster_host-IsSuitable :
      (hosts : List Mor) → Yields (IsSuitable cloud vm) (cluster_host cloud vm hosts)
  cluster_host-IsSuitable hosts =
      Yields-if (vm.destination.host_system == "") _ _
        (Yields-then (All (IsSuitable cloud vm)) _ _ (filter_hosts-All cloud vm hosts)
          any_host-IsSuitable)
        (Yields-bind (find_host_system cloud hosts vm.destination.host_system) _
          λ found. suitable-IsSuitable vm.destination.host_system found.0)

  cluster_location-IsPlaced :
      (depth : ℕ) (dc : MoDatacenter) → Yields IsPlaced (cluster_location cloud depth vm dc)
  unfolding cluster_location
  cluster_location-IsPlaced depth dc =
      Yields-bind (find_cluster_compute_resource cloud depth dc vm.destination.destination_name) _
        λ cr. Yields-bind (some_hosts cloud cr.host) _ λ _.
          Yields-then (IsSuitable cloud vm) _ _ (cluster_host-IsSuitable cr.host)
            λ host h. pooled-IsPlaced host cr.network cr.resource_pool h

  pool_location-IsPlaced :
      (dc : MoDatacenter)
      → vm.destination.destination_type ≡ "resource_pool"
      → Yields IsPlaced (pool_location cloud vm dc)
  unfolding pool_location
  pool_location-IsPlaced dc e = Yields-bind (note (set_datacenter dc.self)) _ λ _.
      Yields-bind (find_resource_pool_by_moid cloud vm.destination.moid) _ λ pool.
        Yields-bind (ask_compute cloud pool.1 ("network" ∷ [])) _ λ cr.
          Yields-pure (record { host = none; resource_pool = pool.0; networks = cr.network })
            (inl (e, refl))

  get_vm_location-yields :
      (depth : ℕ) (dc : MoDatacenter) → Yields IsPlaced (get_vm_location cloud depth vm dc)
  unfolding get_vm_location
  get_vm_location-yields depth dc =
      let type = vm.destination.destination_type in
      Yields-if (type == "host") _ _ (host_location-IsPlaced depth dc) (
        Yields-if (type == "cluster") _ _ (cluster_location-IsPlaced depth dc)
          (elim (Bool-cases (type == "resource_pool")) [
            | inl t ↦ rw t (pool_location-IsPlaced dc ((eq_iff type "resource_pool").0 t))
            | inr f ↦ rw f (Yields-fail _)
          ]))

  -- Where getVMLocation returns a place, either the destination is a resource pool and no host is
  -- chosen, or the server describes the host so that each network of the machine is named among the
  -- host's, and the machine's datastore among the host's, where the machine has one.
  pub get_vm_location-IsPlaced :
      (depth : ℕ) (dc : MoDatacenter) (w : World (Vm F) Call) {l : Location}
      → (get_vm_location cloud depth vm dc w).0 ≡ ok l
      → IsPlaced l
  get_vm_location-IsPlaced depth dc w e =
      Succeeds-ok IsPlaced _ ((get_vm_location-yields depth dc).at w) e
