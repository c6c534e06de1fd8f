-- ===== src/Gcp/Listing.antt =====
-- virtualmachine/gcp: the operations of vm.go that list what a project has. A pointer to a field of an
-- entry is to that entry's own, since the entries are pointers themselves.
use libretto.Base.{String, Option, none, some, List, [], ◌∷◌, ◌++◌, map}
use libretto.Go.Strings.{split}
use libretto.Go.Action.{◌>>=◌, ◌>>◌, get, pure, lift, request}
use libretto.Gcp.Types.{Image, Network, Subnetwork, MachineType, DiskType, Zone, Region}
use libretto.Gcp.Api.{
  Cloud, query, CloudNetwork, CloudSubnetwork, CloudMachineType, CloudDiskType, CloudZone,
  CloudRegion, CloudImage, Method,
}
use libretto.Gcp.Service.{get_service, region}

abbrev last_or : String → List String → String
last_or s [] = s
last_or s (t ∷ rest) = last_or t rest

-- convResURLToName: what stands behind the last slash.
unfoldable pub conv_res_url_to_name : String → String
unfolding split
conv_res_url_to_name url = last_or "" (split 47 url)

unfoldable pub to_network : CloudNetwork → Network
to_network network = record {
  name = network.name;
  description = network.description;
  id = network.id;
  auto_create_subnetworks = some network.auto_create_subnetworks;
  ipv4_range = network.ipv4_range;
  creation_timestamp = network.creation_timestamp;
  subnetworks = map conv_res_url_to_name network.subnetworks;
}

unfoldable pub to_subnetwork : CloudSubnetwork → Subnetwork
to_subnetwork subnetwork = record {
  name = subnetwork.name;
  description = subnetwork.description;
  id = subnetwork.id;
  creation_timestamp = subnetwork.creation_timestamp;
  gateway_address = subnetwork.gateway_address;
  network = conv_res_url_to_name subnetwork.network;
  region = conv_res_url_to_name subnetwork.region;
  ip_cidr_range = subnetwork.ip_cidr_range;
}

unfoldable pub to_machine_type : CloudMachineType → MachineType
to_machine_type machine_type = record {
  name = machine_type.name;
  description = machine_type.description;
  guest_cpus = machine_type.guest_cpus;
  memory_mb = machine_type.memory_mb;
  is_shared_cpu = some machine_type.is_shared_cpu;
  maximum_persistent_disks = machine_type.maximum_persistent_disks;
  maximum_persistent_disks_size_gb = machine_type.maximum_persistent_disks_size_gb;
}

unfoldable pub to_disk_type : CloudDiskType → DiskType
to_disk_type disk_type = record {
  name = disk_type.name;
  description = disk_type.description;
  valid_disk_size = disk_type.valid_disk_size;
  default_disk_size_gb = disk_type.default_disk_size_gb;
}

unfoldable pub to_zone : CloudZone → Zone
to_zone zone = record {
  name = zone.name;
  description = zone.description;
  region = conv_res_url_to_name zone.region;
  status = zone.status;
}

unfoldable pub to_region : CloudRegion → Region
to_region r = record {
  name = r.name;
  description = r.description;
  zones = map conv_res_url_to_name r.zones;
  status = r.status;
}

-- The state and the replacement of a deprecated image.
abbrev pub deprecation : Option (String × String) → String × String
deprecation none = ("", "")
deprecation (some d) = d

unfoldable pub to_image : CloudImage → Image
to_image image = record {
  id = image.id;
  creation_timestamp = image.creation_timestamp;
  deprecation_status = (deprecation image.deprecated).0;
  deprecation_replacement = (deprecation image.deprecated).1;
  description = image.description;
  disk_size_gb = image.disk_size_gb;
  family = image.family;
  name = image.name;
  status = image.status;
}

module _ (svc : Cloud) where
  pub get_network_list : Method (List Network)
  get_network_list = do
    get_service svc
    vm ← get
    found ← request (query "networks" (vm.project ∷ [])) (λ log. svc.list_networks log)
    pure (map to_network found)

  pub get_subnetwork_list : Method (List Subnetwork)
  get_subnetwork_list = do
    get_service svc
    vm ← get
    r ← lift (region vm.zone)
    found ← request (query "subnetworks" (vm.project ∷ r ∷ [])) (λ log. svc.list_subnetworks log r)
    pure (map to_subnetwork found)

  pub get_machine_type_list : Method (List MachineType)
  get_machine_type_list = do
    get_service svc
    vm ← get
    found ←
        request (query "machine types" (vm.project ∷ vm.zone ∷ []))
          (λ log. svc.list_machine_types log)
    pure (map to_machine_type found)

  pub get_disk_type_list : Method (List DiskType)
  get_disk_type_list = do
    get_service svc
    vm ← get
    found ←
        request (query "disk types" (vm.project ∷ vm.zone ∷ [])) (λ log. svc.list_disk_types log)
    pure (map to_disk_type found)

  pub get_zone_list : Method (List Zone)
  get_zone_list = do
    get_service svc
    vm ← get
    found ← request (query "zones" (vm.project ∷ [])) (λ log. svc.list_zones log)
    pure (map to_zone found)

  pub get_region_list : Method (List Region)
  get_region_list = do
    get_service svc
    vm ← get
    found ← request (query "regions" (vm.project ∷ [])) (λ log. svc.list_regions log)
    pure (map to_region found)

  -- getImageList: the images of each project in turn.
  unfoldable pub images_of : List String → Method (List CloudImage)
  images_of [] = pure []
  images_of (project ∷ projects) =
      let rest = images_of projects in
      request (query "images" (project ∷ [])) (λ log. svc.list_images log project) >>= λ found.
      rest >>= λ more. pure (found ++ more)

  pub get_image_list : Method (List Image)
  unfolding images_of
  get_image_list = do
    get_service svc
    vm ← get
    found ← images_of vm.image_projects
    pure (map to_image found)
