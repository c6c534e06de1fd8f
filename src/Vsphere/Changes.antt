-- ===== src/Vsphere/Changes.antt =====
-- virtualmachine/vsphere: removeNetworkDeviceSpec and networkDeviceChangeSpec of util.go, and Reconfigure
-- of vm.go.
use libretto.Base.{
  ℕ, zero, suc, String, Option, none, some, List, [], ◌∷◌, ◌++◌, ◌<>◌, ◌==◌, ◌||◌, lookup,
  if◌then◌else◌,
}
use libretto.Go.Error.{new, object_not_found}
use libretto.Go.Result.{Result, ok, panic, Reply, answer, failure}
use libretto.Go.Action.{◌>>=◌, ◌>>◌, pure, fail, lift, attempt, request, wrap, get}
use libretto.Vsphere.Types.{Vm, Mor, Network, get_vm_search_filter}
use libretto.Vsphere.Api.{
  Cloud, Method, ConfigSpec, retrieve, start_task, wait_task, reconfigure, Device, DeviceSpec, MoVm,
  MoHost, VmConfig,
}
use libretto.Vsphere.Session.{setup_session, in_session}
use libretto.Vsphere.Search.{find_vm}
use libretto.Vsphere.Power.{find_own, task_ended, with_message}
use libretto.Vsphere.Devices.{find_by_key}
use libretto.Vsphere.Networks.{
  Mapping, removal, get_ethernet_backing, add_network_device_spec, name_networks,
}

module _ {F : Type 0} (cloud : Cloud F) where
  abbrev pub keyed : String → ℕ → Option Device → Method F DeviceSpec
  keyed name key none =
      fail
        (new ("Network: " <> name <> " device with key: " <> cloud.show_number key <> " not found"))
  keyed name key (some device) = pure (removal device)

  abbrev pub backed : String → ℕ → List Device → Method F DeviceSpec
  backed name key [] =
      fail (object_not_found (new ("device with network:" <> name <> " not found")) name)
  backed name key (device ∷ devices) = keyed name key (find_by_key (device ∷ devices) key)

  unfoldable pub remove_network_device_spec : Mor → String → ℕ → List Device → Method F DeviceSpec
  unfolding get_ethernet_backing
  remove_network_device_spec mor name key devices = do
    backing ← get_ethernet_backing cloud mor name
    backed name key (cloud.select_by_backing devices backing)

  -- nwMap[name], which is the zero of its type for a missing key.
  abbrev pub network_of : Option Mor → Mor
  network_of none = record { type = ""; value = "" }
  network_of (some mor) = mor

  abbrev pub spec_failed : String → Method F DeviceSpec → Method F DeviceSpec
  spec_failed name m = wrap ("error creating spec for network:" <> name <> ", error: ") m

  abbrev pub removed : Mapping → Network → List Device → Option ℕ → Method F DeviceSpec
  removed nw_map nw devices none = fail (new ("Device key not specified for network: " <> nw.name))
  removed nw_map nw devices (some key) =
      spec_failed nw.name
        (remove_network_device_spec (network_of (lookup nw.name nw_map)) nw.name key devices)

  -- The specs that add cards, and those that remove cards.
  unfoldable pub change_specs :
      Mapping → List Device → List Network → Method F (List DeviceSpec × List DeviceSpec)
  unfolding add_network_device_spec remove_network_device_spec
  change_specs nw_map devices [] = pure ([], [])
  change_specs nw_map devices (nw ∷ nws) =
      if (nw.operation == "") || (nw.operation == "add")
      then (do
        spec ←
            spec_failed nw.name
              (add_network_device_spec cloud (network_of (lookup nw.name nw_map)) nw.name)
        r ← change_specs nw_map devices nws
        pure (spec ∷ r.0, r.1))
      else (if nw.operation == "remove"
          then (do
            spec ← removed nw_map nw devices nw.device_key
            r ← change_specs nw_map devices nws
            pure (r.0, spec ∷ r.1))
          else fail (
              new (
                "invalid network device operation: " <> nw.operation <> " for network: "
                <> nw.name)))

  -- createNetworkMapping where its error is not looked at: the map is nil where a name was not
  -- retrieved, and is there where a network of the machine is not in it.
  abbrev pub map_or_nil : Reply Mapping → Mapping
  map_or_nil (answer m) = m
  map_or_nil (failure e) = []

  abbrev pub host_network : Option Mor → Method F MoHost
  host_network none = fail (new "host associated with vm not found")
  host_network (some host) =
      wrap "error while fetching host info: "
        (request (retrieve host ("name" ∷ "network" ∷ [])) (λ log. cloud.host_of log host))

  abbrev pub hardware_of : Option VmConfig → Result (List Device)
  hardware_of none = panic
  hardware_of (some config) = ok config.hardware.device

  unfoldable pub network_device_change_spec : Vm F → MoVm → Method F (List DeviceSpec)
  unfolding name_networks change_specs
  network_device_change_spec vm mo = do
    hs ← host_network mo.host
    names ← attempt (name_networks cloud hs.network [])
    devices ← lift (hardware_of mo.config)
    r ← change_specs (map_or_nil names) devices vm.networks
    pure (r.0 ++ r.1)

  abbrev positive : ℕ → Option ℕ
  positive zero = none
  positive (suc n) = some (suc n)

  unfoldable pub reconfigure_found : Method F (Unit {0})
  unfolding find_vm network_device_change_spec get_vm_search_filter
  reconfigure_found = do
    vm ← get
    mo ← find_own cloud
    changes ← network_device_change_spec vm mo
    let spec : ConfigSpec = record {
      num_cpus = positive vm.flavor.num_cpus;
      memory_mb = positive vm.flavor.memory_mb;
      device_change = changes;
    }
    request (start_task (reconfigure mo.self spec))
        (λ log. cloud.start_reply log (reconfigure mo.self spec))
    info ← wrap "error waiting for reconfig task to finish: " (
        request (wait_task (reconfigure mo.self spec))
          (λ log. cloud.wait_reply log (reconfigure mo.self spec)))
    task_ended cloud (with_message "reconfig task finished with error: ") info

  unfoldable pub vm_reconfigure : Method F (Unit {0})
  unfolding setup_session reconfigure_found
  vm_reconfigure = in_session cloud reconfigure_found
