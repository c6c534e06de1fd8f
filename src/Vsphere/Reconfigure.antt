-- ===== src/Vsphere/Reconfigure.antt =====
-- virtualmachine/vsphere/util.go: reconfigureVM, getDatastoreForVm, and the customization of a clone. The
-- mutex of the custom spec is left out: one machine is modelled.
use libretto.Base.{
  ℕ, zero, suc, String, Bool, true, false, Option, none, some, List, [], ◌∷◌, ◌++◌, ◌<>◌, ◌==◌, not,
  ◌||◌, if◌then◌else◌,
}
use libretto.Util.{choose_random_string}
use libretto.Go.Error.{new}
use libretto.Go.Result.{Result, ok, panic, first, of_reply}
use libretto.Go.Result
use libretto.Go.Action.{◌>>=◌, ◌>>◌, pure, fail, lift, get, put, calls, request, wrap}
use libretto.Vsphere.Types.{Vm, Mor, Disk, NetworkSetting}
use libretto.Vsphere.Api.{
  Cloud, Method, retrieve_all, list_devices, add_device, check_spec, create_spec_call, MoDatacenter,
  MoVm, Guest, Nic, CustomSpec,
}
use libretto.Vsphere.Session.{find_datastore, get_datacenter}
use libretto.Vsphere.Mobs.{find_cluster_compute_resource}
use libretto.Vsphere.Devices.{diff_disks, create_disk}

unfoldable pub create_template_name : String → String → String
create_template_name t ds = t <> "-" <> ds

abbrev joined : List (List String) → List String
joined [] = []
joined (s ∷ ss) = s ++ joined ss

-- The dns servers: the setting's, and those of the template's guest.
abbrev dns_list : String → Option Guest → Result (List String)
dns_list server none = if server == "" then ok [] else panic
dns_list server (some guest) = ok (if server == "" then [] else server ∷ joined guest.ip_stack)

abbrev customized :
    NetworkSetting → Option Guest → CustomSpec → List Nic → Result (Option CustomSpec)
customized setting guest spec [] = panic
customized setting guest spec (nic ∷ nics) =
    let nic' = record nic {
      ip = setting.ip;
      subnet_mask = setting.subnet_mask;
      gateway = nic.gateway ++ (setting.gateway ∷ []);
    } in
    Result.◌>>=◌ (dns_list setting.dns_server guest)
      (λ dns. ok (some (record { nics = nic' ∷ nics; dns_servers = spec.dns_servers ++ dns })))

unfoldable pub update_custom_spec :
    NetworkSetting → Option Guest → CustomSpec → Result (Option CustomSpec)
update_custom_spec setting guest spec =
    if (setting.ip == "") || (setting.subnet_mask == "")
    then ok none
    else customized setting guest spec spec.nics

module _ {F : Type 0} (cloud : Cloud F) where
  -- util.ChooseRandomString.
  unfoldable pub choose : List String → Method F String
  unfolding choose_random_string
  choose from = do log ← calls; lift (choose_random_string (cloud.intn log) from)

  abbrev make_spec : Bool → Method F (Unit {0})
  make_spec true = pure tt
  make_spec false = wrap "Error creating custom spec: " (request create_spec_call cloud.create_spec)

  unfoldable pub check_and_create_custom_spec : Method F (Unit {0})
  check_and_create_custom_spec = do there ← request check_spec cloud.spec_exists; make_spec there

  abbrev drs : Option Bool → Method F Bool
  drs (some b) = pure b
  drs none = fail (new "error fetching cluster config details")

  unfoldable pub is_cluster_drs_enabled : ℕ → Vm F → Method F Bool
  unfolding get_datacenter find_cluster_compute_resource
  is_cluster_drs_enabled depth vm = do
    dc ← get_datacenter cloud
    cr ← find_cluster_compute_resource cloud depth dc vm.destination.destination_name
    drs cr.drs_enabled

  -- getDatastoreForVm.
  unfoldable pub get_datastore_for_vm : MoVm → Method F (List String)
  get_datastore_for_vm mo = ask mo.datastore
    where
      ask : List Mor → Method F (List String)
      ask [] = pure []
      ask (ds ∷ dss) =
          wrap "Error retrieving datastores used by vm: "
            (request (retrieve_all (ds ∷ dss) ("info" ∷ [])) (λ log. cloud.names_of log (ds ∷ dss)))

  abbrev is_thin : String → Bool
  is_thin provisioning = not (cloud.to_lower provisioning == "thick")

  -- vm.Disks[index].DiskFile = file.
  abbrev set_file : ℕ → String → List (Disk F) → List (Disk F)
  set_file i file [] = []
  set_file zero file (d ∷ ds) = record d { disk_file = file } ∷ ds
  set_file (suc i) file (d ∷ ds) = d ∷ set_file i file ds

  abbrev or_else : String → String → String
  or_else s t = if s == "" then t else s

  -- A round of reconfigureVM: a disk is added, and found again as the new device.
  unfoldable pub add_one_disk : MoDatacenter → Mor → ℕ → Disk F → Method F (Unit {0})
  unfolding find_datastore diff_disks create_disk
  add_one_disk dc self i disk = do
    vm ← get
    let creating =
        " creating Disks[" <> cloud.show_number i <> "] {" <> cloud.show_disk disk <> "} : "
    before ←
        wrap ("Failed to get devices while" <> creating)
          (request (list_devices self) (λ log. cloud.devices_of log self))
    controller ←
        wrap ("Failed to get controller while" <> creating)
          (lift (of_reply (cloud.find_controller before disk.controller)))
    ds ←
        wrap ("Failed to get datastore while" <> creating)
          (find_datastore cloud dc (or_else disk.datastore vm.datastore))
    let made = create_disk cloud before controller ds.0 "" (is_thin disk.provisioning)
    let device = record made { capacity_in_kb = cloud.to_int disk.size }
    wrap ("Failed to add device while" <> creating)
        (request (add_device self device) (λ log. cloud.add_reply log self device))
    now ←
        wrap ("Failed to get devices after" <> creating)
          (request (list_devices self) (λ log. cloud.devices_of log self))
    files ← lift (diff_disks now before)
    file ← lift (first files)
    put (record vm { disks = set_file i file vm.disks })

  unfoldable pub add_all_disks : MoDatacenter → Mor → ℕ → List (Disk F) → Method F (Unit {0})
  unfolding add_one_disk
  add_all_disks dc self i [] = pure tt
  add_all_disks dc self i (disk ∷ disks) = do
    add_one_disk dc self i disk
    add_all_disks dc self (suc i) disks

  abbrev root_datastore : MoVm → Method F (Unit {0})
  root_datastore mo = do
    vm ← get
    if vm.datastore == ""
        then (do
          names ← get_datastore_for_vm mo
          name ← choose names
          put (record vm { datastore = name }))
        else pure tt

  unfoldable pub reconfigure_vm : MoVm → Method F (Unit {0})
  unfolding get_datacenter add_all_disks get_datastore_for_vm choose
  reconfigure_vm mo = do
    dc ← get_datacenter cloud
    root_datastore mo
    vm ← get
    add_all_disks dc mo.self 0 vm.disks
