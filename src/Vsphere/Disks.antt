-- ===== src/Vsphere/Disks.antt =====
-- virtualmachine/vsphere/vm.go: AddDisk and RemoveDisk.
use libretto.Base.{String, Option, none, some, List, [], ◌∷◌, ◌<>◌, ◌==◌, if◌then◌else◌}
use libretto.Go.Error.{new, message}
use libretto.Go.Result
use libretto.Go.Result.{Result, ok, Reply, answer, failure, deref}
use libretto.Go.Action.{◌>>=◌, ◌>>◌, pure, fail, lift, attempt, get, put, request, wrap}
use libretto.Vsphere.Types.{Mor, Disk, get_vm_search_filter}
use libretto.Vsphere.Api.{Cloud, Method, remove_device, Device, VmConfig}
use libretto.Vsphere.Session.{setup_session, deferred}
use libretto.Vsphere.Search.{find_vm}
use libretto.Vsphere.Devices.{file_name, is_disk}
use libretto.Vsphere.Power.{find_own}
use libretto.Vsphere.Reconfigure.{choose, reconfigure_vm}

module _ {F : Type 0} (cloud : Cloud F) where
  abbrev not_found : String → String
  not_found name = "VM :" <> name <> " not found. Error : "

  -- The methods whose session error is wrapped.
  abbrev wrapped_session : {A : Type 0} → Method F A → Method F A
  wrapped_session m = do wrap "Error setting up vSphere session: " (setup_session cloud); deferred m

  unfoldable pub add_disk : Method F (Unit {0})
  unfolding setup_session find_vm choose reconfigure_vm get_vm_search_filter
  add_disk = wrapped_session (do
    vm ← get
    mo ← wrap (not_found vm.name) (find_own cloud)
    ds ← choose cloud vm.datastores
    put (record vm { datastore = ds })
    wrap "Reconfigure failed : " (reconfigure_vm cloud mo))

  -- The `break` ends the switch: the last device with the file is taken.
  unfoldable pub disk_with_file : List Device → String → Option Device → Result (Option Device)
  disk_with_file [] file found = ok found
  disk_with_file (d ∷ ds) file found =
      if is_disk d.kind
      then Result.◌>>=◌ (file_name d.backing)
          (λ name. disk_with_file ds file (if name == file then some d else found))
      else disk_with_file ds file found

  abbrev removed_device : Mor → String → Option Device → Method F String
  removed_device self file none = pure (file <> " : No disk with name\n")
  removed_device self file (some d) = do
    reply ← attempt (request (remove_device self d) (λ log. cloud.remove_reply log self d))
    pure (told reply)
    where
      told : Reply (Unit {0}) → String
      told (answer _) = ""
      told (failure e) = file <> " : Delete disk task returned an error : " <> message e <> " \n"

  -- The errors of all the disks, one behind the other.
  unfoldable pub remove_loop : Mor → Option VmConfig → List (Disk F) → String → Method F String
  unfolding disk_with_file
  remove_loop self config [] errors = pure errors
  remove_loop self config (disk ∷ disks) errors = do
    found ←
        lift
          (Result.◌>>=◌ (deref config) (λ c. disk_with_file c.hardware.device disk.disk_file none))
    error ← removed_device self disk.disk_file found
    remove_loop self config disks (errors <> error)

  unfoldable pub remove_disk : Method F (Unit {0})
  unfolding setup_session find_vm remove_loop get_vm_search_filter
  remove_disk = wrapped_session (do
    vm ← get
    mo ← wrap (not_found vm.name) (find_own cloud)
    errors ← remove_loop mo.self mo.config vm.disks ""
    if errors == "" then pure tt else fail (new errors))
