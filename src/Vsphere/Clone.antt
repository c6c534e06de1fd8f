-- ===== src/Vsphere/Clone.antt =====
-- virtualmachine/vsphere/util.go: cloneFromTemplate.
use libretto.Base.{
  ℕ, String, Bool, true, Option, none, some, List, [], ◌∷◌, ◌++◌, ◌==◌, not, ◌||◌, equal,
  if◌then◌else◌, map,
}
use libretto.Go.Result
use libretto.Go.Result.{Result, ok, panic, deref}
use libretto.Go.Action.{◌>>=◌, ◌>>◌, pure, lift, get, put, request, wrap}
use libretto.Vsphere.Types.{Vm, Mor, Disk, Location, get_temp_search_filter, get_vm_search_filter}
use libretto.Vsphere.Api.{
  Cloud, Method, clone, get_spec_call, DeviceSpec, MoDatacenter, MoVm, VmConfig, CustomSpec,
  CloneSpec,
}
use libretto.Vsphere.Session.{find_datastore}
use libretto.Vsphere.Search.{find_vm}
use libretto.Vsphere.Hosts.{get_vm_location}
use libretto.Vsphere.Networks.{reconfigure_networks}
use libretto.Vsphere.Devices.{resize_and_delete_vols}
use libretto.Vsphere.Power.{start, wait_for_ip, run_task, with_message, find_own}
use libretto.Vsphere.Reconfigure.{
  create_template_name, update_custom_spec, choose, check_and_create_custom_spec,
  is_cluster_drs_enabled, reconfigure_vm,
}

module _ {F : Type 0} (cloud : Cloud F) where
  -- The relocation: its host is only set in a cluster, and its disks are moved for a linked clone.
  abbrev placed_host : Vm F → Location → Bool → Option Mor
  placed_host vm l drs_on =
      if vm.destination.destination_type == "cluster"
      then (if (not (vm.destination.host_system == "")) || not drs_on then l.host else none)
      else none

  abbrev drs_of : ℕ → Vm F → Method F Bool
  drs_of depth vm =
      if vm.destination.destination_type == "cluster"
      then is_cluster_drs_enabled cloud depth vm
      else pure true

  abbrev pub chosen_datastore : MoDatacenter → String → Method F (Option Mor)
  chosen_datastore dc name =
      if name == "" then pure none else (do ds ← find_datastore cloud dc name; pure (some ds.0))

  abbrev pub local_template : Vm F → String → Vm F
  local_template vm datastore =
      let vm' = record vm { datastore = datastore } in
      if vm.use_local_templates
      then record vm' {
        template = record vm.template { name = create_template_name vm.template.name datastore };
      }
      else vm'

  -- A number of the flavor that is not set is the template's, whose configuration is read for it.
  abbrev or_template : ℕ → (VmConfig → ℕ) → Option VmConfig → Result ℕ
  or_template given of config =
      if equal given 0 then Result.◌>>=◌ (deref config) (λ c. ok (of c)) else ok given

  abbrev fixed_disks : Option VmConfig → List (Disk F) → Result (List (Option DeviceSpec))
  fixed_disks config [] = ok []
  fixed_disks config (d ∷ ds) =
      Result.◌>>=◌ (deref config) (λ c. resize_and_delete_vols cloud c.hardware.device (d ∷ ds))

  -- Guest.IpStack, which is read for a dns server only.
  abbrev customization : Vm F → MoVm → Method F (Option CustomSpec)
  customization vm mo = do
    wrap "Error creating custom spec: " (check_and_create_custom_spec cloud)
    spec ← wrap "Error retrieving custom spec: " (request get_spec_call cloud.get_spec)
    lift (update_custom_spec vm.network_setting mo.guest spec)

  abbrev linked_host : Vm F → Location → Option Mor
  linked_host vm l = if vm.destination.host_system == "" then none else l.host

  -- The spec of a linked clone is made anew, without the customization.
  abbrev linked : Vm F → Location → CloneSpec → Option (Option Mor) → Result CloneSpec
  linked vm l spec none = if vm.use_linked_clones then panic else ok spec
  linked vm l spec (some current) = ok (
      if vm.use_linked_clones
      then record spec {
        host = linked_host vm l;
        disk_move_type = "createNewChildDiskBacking";
        customization = none;
        snapshot = current;
      }
      else spec)

  -- The clone, up to its request.
  unfoldable pub clone_spec : ℕ → Vm F → MoVm → Location → Option Mor → Method F CloneSpec
  unfolding reconfigure_networks is_cluster_drs_enabled resize_and_delete_vols
      check_and_create_custom_spec update_custom_spec
  clone_spec depth vm mo l ds = do
    drs_on ← drs_of depth vm
    changes ← reconfigure_networks cloud depth vm mo.self
    cpus ← lift (or_template vm.flavor.num_cpus (λ c. c.hardware.num_cpu) mo.config)
    memory ← lift (or_template vm.flavor.memory_mb (λ c. c.hardware.memory_mb) mo.config)
    let vm' = record vm { flavor = record vm.flavor { num_cpus = cpus; memory_mb = memory } }
    put vm'
    resizes ← lift (fixed_disks mo.config vm.fixed_disks)
    custom ← customization vm mo
    lift (
        linked vm l
          (record {
            pool = l.resource_pool;
            host = placed_host vm l drs_on;
            clone_datastore = ds;
            disk_move_type = "";
            num_cpus = vm'.flavor.num_cpus;
            memory_mb = vm'.flavor.memory_mb;
            nested_hv = vm.nested_hv;
            device_change = map some changes ++ resizes;
            customization = custom;
            snapshot = none;
          })
          mo.snapshot)

  -- What is done with the new machine.
  unfoldable pub finish_clone : Method F (Unit {0})
  unfolding find_vm get_vm_search_filter reconfigure_vm start wait_for_ip
  finish_clone = do
    vm ← get
    mo ← wrap "failed to retrieve cloned VM: " (find_own cloud)
    elim vm.disks [ [] ↦ pure tt | ◌∷◌ d ds ↦ reconfigure_vm cloud mo ]
    start cloud
    if vm.skip_ip_wait then pure tt else wait_for_ip cloud mo

  unfoldable pub clone_from_template : ℕ → MoDatacenter → List String → Method F (Unit {0})
  unfolding choose find_datastore create_template_name find_vm get_vm_location clone_spec run_task
      finish_clone get_temp_search_filter
  clone_from_template depth dc usable = do
    name ← choose cloud usable
    ds ← chosen_datastore dc name
    given ← get
    put (local_template given name)
    vm ← get
    mo ← wrap "error retrieving template: " (find_vm cloud (get_temp_search_filter vm.template))
    l ← get_vm_location cloud depth vm dc
    spec ← clone_spec depth vm mo l ds
    run_task cloud (clone mo.self dc.vm_folder vm.name spec) "error cloning vm from template: "
        "error waiting for clone task to finish: " (with_message "clone task finished with error: ")
    finish_clone
