-- ===== src/Vsphere/Networks.antt =====
-- virtualmachine/vsphere/util.go: the network cards of a machine (createNetworkMapping,
-- getEthernetBacking, addNetworkDeviceSpec, removeNetworkDeviceSpec, reconfigureNetworks and
-- networkDeviceChangeSpec). vm.Networks[idx:] is the list of the networks that are left.
pub mod Balance
use libretto.Base.{
  ℕ, String, Bool, true, false, Option, none, some, List, [], ◌∷◌, ◌++◌, ◌<>◌, ◌==◌, ◌||◌, lookup,
  if◌then◌else◌,
}
use libretto.Go.Error.{new, object_not_found, message}
use libretto.Go.Result.{Reply, answer, failure, of_reply}
use libretto.Go.Action.{◌>>=◌, ◌>>◌, pure, fail, lift, attempt, request}
use libretto.Vsphere.Types.{Vm, Mor, Network}
use libretto.Vsphere.Api.{
  Cloud, Method, retrieve, list_devices, Device, DeviceSpec, Kind, e1000, e1000e, vmxnet3, Backing,
  no_backing, network, add, edit, remove,
}
use libretto.Vsphere.Session.{get_datacenter}
use libretto.Vsphere.Hosts.{get_network_name, named, get_vm_location}

abbrev pub is_card : Kind → Bool
is_card e1000 = true
is_card e1000e = true
is_card vmxnet3 = true
is_card _ = false

abbrev pub Mapping : Type 0
Mapping = List (String × Mor)

abbrev pub removal : Device → DeviceSpec
removal device = record { operation = remove; device = device }

module _ {F : Type 0} (cloud : Cloud F) where
  -- nwMap: the last network of a name stands first.
  unfoldable pub name_networks : List Mor → Mapping → Method F Mapping
  unfolding get_network_name
  name_networks [] nw_map = pure nw_map
  name_networks (mor ∷ mors) nw_map = do
    name ← get_network_name cloud mor
    checked ← named cloud mor name
    name_networks mors ((checked, mor) ∷ nw_map)

  abbrev pub mapped : String → Method F Mapping → Option Mor → Method F Mapping
  mapped name rest none = fail (object_not_found (new "Could not find the network mapping") name)
  mapped name rest (some mor) = do mappings ← rest; pure ((name, mor) ∷ mappings)

  unfoldable pub map_networks : Mapping → List Network → Method F Mapping
  map_networks nw_map [] = pure []
  map_networks nw_map (nw ∷ nws) = mapped nw.name (map_networks nw_map nws) (lookup nw.name nw_map)

  unfoldable pub create_network_mapping : List Network → List Mor → Method F Mapping
  unfolding name_networks map_networks
  create_network_mapping nws mors = do nw_map ← name_networks mors []; map_networks nw_map nws

  abbrev pub port_group_reply : Reply Backing → Method F Backing
  port_group_reply (answer b) = pure b
  port_group_reply (failure e) =
      fail (new ("error fetching ethernet card backing info: " <> message e))

  unfoldable pub get_ethernet_backing : Mor → String → Method F Backing
  get_ethernet_backing mor name =
      if mor.type == "Network"
      then pure (network name (some mor))
      else (if mor.type == "DistributedVirtualPortgroup"
          then (do
            reply ← attempt (request (retrieve mor []) (λ log. cloud.port_group_backing log mor))
            port_group_reply reply)
          else pure no_backing)

  -- The device is connected at the start, and may be by its guest: two constants that are left out.
  unfoldable pub add_network_device_spec : Mor → String → Method F DeviceSpec
  unfolding get_ethernet_backing
  add_network_device_spec mor name = do
    backing ← get_ethernet_backing mor name
    device ← lift (of_reply (cloud.card_of backing))
    pure (record { operation = add; device = device })

  -- The inner loop over networkMapping, which stops at the first network of the name.
  abbrev pub edited : Device → String → Option Mor → Method F (List DeviceSpec)
  edited device name none = pure []
  edited device name (some mor) = do
    backing ← get_ethernet_backing mor name
    pure (record { operation = edit; device = record device { backing = backing } } ∷ [])

  -- The specs of the cards, and the networks that are left.
  unfoldable pub edit_cards :
      Mapping → List Device → List Network → Method F (List DeviceSpec × List Network)
  unfolding get_ethernet_backing
  edit_cards mapping [] nws = pure ([], nws)
  edit_cards mapping (device ∷ devices) [] =
      if is_card device.kind
      then (do r ← edit_cards mapping devices []; pure (removal device ∷ r.0, r.1))
      else edit_cards mapping devices []
  edit_cards mapping (device ∷ devices) (nw ∷ nws) =
      if is_card device.kind
      then (do
        specs ← edited device nw.name (lookup nw.name mapping)
        r ← edit_cards mapping devices nws
        pure (specs ++ r.0, r.1))
      else edit_cards mapping devices (nw ∷ nws)

  abbrev pub added : String → Option Mor → Method F (List DeviceSpec)
  added name none = pure []
  added name (some mor) = do spec ← add_network_device_spec mor name; pure (spec ∷ [])

  unfoldable pub add_cards : Mapping → List Network → Method F (List DeviceSpec)
  unfolding add_network_device_spec
  add_cards mapping [] = pure []
  add_cards mapping (nw ∷ nws) = do
    specs ← added nw.name (lookup nw.name mapping)
    rest ← add_cards mapping nws
    pure (specs ++ rest)

  unfoldable pub reconfigure_networks : ℕ → Vm F → Mor → Method F (List DeviceSpec)
  unfolding get_datacenter get_vm_location create_network_mapping edit_cards add_cards
  reconfigure_networks depth vm self = do
    dc ← get_datacenter cloud
    l ← get_vm_location cloud depth vm dc
    mapping ← create_network_mapping vm.networks l.networks
    devices ← request (list_devices self) (λ log. cloud.devices_of log self)
    edits ← edit_cards mapping devices vm.networks
    adds ← add_cards mapping edits.1
    pure (edits.0 ++ adds)
