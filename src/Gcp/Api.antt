-- ===== src/Gcp/Api.antt =====
-- What virtualmachine/gcp uses of google.golang.org/api, of files and of JSON, as a parameter. The
-- package is vendored, so nothing is said here of how it answers.
use libretto.Base.{ℕ, String, Bool, List, Option}
use libretto.Ssh.{Ip}
use libretto.Go.Error.{Error}
use libretto.Go.Result.{Reply}
use libretto.Go.Action.{World, Action}
use libretto.Gcp.Types.{Vm, AccountFile}

-- The fields that the program reads of each response. `error` is the entries of op.Error as they are
-- printed.
pub record Operation : Type 0 where
  pub name : String
  pub status : String
  pub error : Option (List String)

pub record Interface : Type 0 where
  -- the NatIP of each access config
  pub access_configs : List String
  pub network_ip : String

pub record AttachedDisk : Type 0 where
  pub device_name : String
  pub source : String
  pub boot : Bool
  pub auto_delete : Bool
  pub interface : String

pub record Instance : Type 0 where
  pub name : String
  pub id : ℕ
  pub status : String
  pub creation_timestamp : String
  pub network_interfaces : List Interface
  pub disks : List AttachedDisk
  pub fingerprint : String

pub record CloudNetwork : Type 0 where
  pub name : String
  pub description : String
  pub id : ℕ
  pub auto_create_subnetworks : Bool
  pub creation_timestamp : String
  pub ipv4_range : String
  pub subnetworks : List String
  pub self_link : String

pub record CloudSubnetwork : Type 0 where
  pub name : String
  pub description : String
  pub id : ℕ
  pub creation_timestamp : String
  pub network : String
  pub region : String
  pub gateway_address : String
  pub ip_cidr_range : String
  pub self_link : String

pub record CloudMachineType : Type 0 where
  pub name : String
  pub description : String
  pub guest_cpus : ℕ
  pub memory_mb : ℕ
  pub is_shared_cpu : Bool
  pub maximum_persistent_disks : ℕ
  pub maximum_persistent_disks_size_gb : ℕ
  pub self_link : String

pub record CloudDiskType : Type 0 where
  pub name : String
  pub description : String
  pub valid_disk_size : String
  pub default_disk_size_gb : ℕ
  pub self_link : String

pub record CloudZone : Type 0 where
  pub name : String
  pub description : String
  pub region : String
  pub status : String

pub record CloudRegion : Type 0 where
  pub name : String
  pub description : String
  pub zones : List String
  pub status : String

-- `deprecated` is the state and the replacement.
pub record CloudImage : Type 0 where
  pub id : ℕ
  pub name : String
  pub description : String
  pub status : String
  pub deprecated : Option (String × String)
  pub creation_timestamp : String
  pub disk_size_gb : ℕ
  pub family : String
  pub self_link : String

-- FirewallAllowed.
pub record Allowed : Type 0 where
  pub ip_protocol : String
  pub ports : List String

-- The disk of a request to insert a disk.
pub record NewDisk : Type 0 where
  pub name : String
  pub size_gb : ℕ
  pub type : String
  pub description : String

-- The disk of a request to attach a disk, or to insert an instance; `initialize` is the source image,
-- the size and the type of a disk that is made with the instance.
pub record Attachment : Type 0 where
  pub type : String
  pub mode : String
  pub kind : String
  pub boot : Bool
  pub auto_delete : Bool
  pub device_name : String
  pub source : String
  pub initialize : Option (String × ℕ × String)

-- The instance of a request to insert one; it has one network interface with one access config.
pub record NewInstance : Type 0 where
  pub name : String
  pub description : String
  pub disks : List Attachment
  pub machine_type : String
  pub ssh_keys : String
  pub network : String
  pub subnetwork : String
  pub network_ip : String
  pub preemptible : Bool
  pub scopes : List String
  pub tags : List String

pub data Target : Type 0 where
  instance : Target
  disk : Target
  firewall : Target
  image : Target

-- The requests that change something, by their project, zone and name.
pub data Change : Type 0 where
  insert_instance : NewInstance → Change
  start_instance : Change
  stop_instance : Change
  reset_instance : Change
  delete_instance : Change
  set_metadata : String → String → Change
  insert_disk : NewDisk → Change
  delete_disk : String → Change
  attach_disk : Attachment → Change
  detach_disk : String → Change
  patch_firewall : List Allowed → Change
  insert_image : (name description source : String) → Change
  delete_image : String → Change

pub data Call : Type 0 where
  -- a query: what it asks for, and its arguments
  query : String → List String → Call
  -- a change in a project, at a zone or the resource's name
  change : String → List String → Change → Call
  sleep : Call

-- Each answer depends on the calls before it.
pub record Cloud : Type 0 where
  pub change_reply : List Call → Change → Reply Operation
  pub get_operation : List Call → String → Reply Operation
  pub get_instance : List Call → Reply Instance
  -- the disk's SelfLink
  pub get_disk : List Call → String → Reply String
  pub get_disk_type : List Call → String → Reply CloudDiskType
  -- Images.Get of a project; the pointer may be nil
  pub get_image : List Call → String → Reply (Option CloudImage)
  pub get_zone : List Call → Reply CloudZone
  pub get_machine_type : List Call → String → Reply CloudMachineType
  pub get_network : List Call → Reply CloudNetwork
  pub get_subnetwork : List Call → String → Reply CloudSubnetwork
  pub get_firewall : List Call → Reply (List Allowed)
  pub list_networks : List Call → Reply (List CloudNetwork)
  pub list_subnetworks : List Call → String → Reply (List CloudSubnetwork)
  pub list_machine_types : List Call → Reply (List CloudMachineType)
  pub list_disk_types : List Call → Reply (List CloudDiskType)
  pub list_zones : List Call → Reply (List CloudZone)
  pub list_regions : List Call → Reply (List CloudRegion)
  pub list_images : List Call → String → Reply (List CloudImage)
  -- json.Decode of a text into an account file; what it decoded before an error stays
  pub decode_account : String → AccountFile → AccountFile × Option Error
  pub not_exist : String → Bool
  pub read_file : String → Reply String
  -- googlecloud.New with a client for the account, or without one
  pub new_service : Option AccountFile → Option Error
  pub parse_ip : String → Ip
  -- net.IP.String, and %s of an account file and of a list
  pub show_ip : Ip → String
  pub show_account : AccountFile → String
  pub show_list : List String → String
  -- fmt.Errorf of a text without operands
  pub format : String → String

abbrev pub Method : Type 0 → Type 0
Method A = Action (World Vm Call) A

abbrev pub Nothing : Type 0
Nothing = Unit {0}
