-- ===== src/Vsphere/Types.antt =====
-- virtualmachine/vsphere/vm.go: the structs and constants. A float32 is a parameter F of the model, an
-- integer its value, and a pointer an Option. The handles of a session (ctx, client, finder, collector)
-- are left out.
use libretto.Base.{ℕ, String, Bool, List, Option}
use libretto.Ssh.{Ip, Credentials}
use libretto.Go.Error.{Error, new}

abbrev pub skip_template_error : ℕ
skip_template_error = 0

abbrev pub skip_template_overwrite : ℕ
skip_template_overwrite = 1

abbrev pub skip_template_use : ℕ
skip_template_use = 2

abbrev pub retry_count : ℕ
retry_count = 20

-- In seconds.
abbrev pub gray_status_check_timeout : ℕ
gray_status_check_timeout = 60

abbrev pub green_status_check_timeout : ℕ
green_status_check_timeout = 600

abbrev pub guest_heart_beat_status : String
guest_heart_beat_status = "guestHeartbeatStatus"

abbrev pub resource_pool_depth : ℕ
resource_pool_depth = 8

-- ManagedObjectReference of the SDK.
pub record Mor : Type 0 where
  pub type : String
  pub value : String

pub record Disk (F : Type 0) : Type 0 where
  pub size : F
  pub controller : String
  pub provisioning : String
  pub datastore : String
  pub disk_file : String

pub record Snapshot : Type 0 where
  pub name : String
  pub description : String
  pub memory : Bool
  pub quiesce : Bool

pub record Location : Type 0 where
  pub host : Option Mor
  pub resource_pool : Mor
  pub networks : List Mor

pub record Destination : Type 0 where
  pub destination_name : String
  pub destination_type : String
  pub host_system : String
  pub moid : String

pub record VirtualEthernetCard : Type 0 where
  pub network_name : String
  pub mac_address : String
  pub nic_name : String
  pub device_key : ℕ

pub record VmInfo (F : Type 0) : Type 0 where
  pub vm_id : String
  pub instance_id : String
  pub ip_address : List Ip
  pub tools_running_status : Bool
  pub tools_installed : Bool
  pub overall_cpu_usage : ℕ
  pub guest_memory_usage : ℕ
  pub max_cpu_usage : ℕ
  pub max_memory_usage : ℕ
  pub num_cpu : ℕ
  pub power_state : String
  pub memory_size_mb : ℕ
  pub disks_info : List (Disk F)
  pub nic_info : List VirtualEthernetCard

pub record Flavor : Type 0 where
  pub name : String
  pub num_cpus : ℕ
  pub memory_mb : ℕ

pub record Template : Type 0 where
  pub name : String
  pub instance_uuid : String

pub record Network : Type 0 where
  pub name : String
  pub description : String
  pub operation : String
  pub device_key : Option ℕ

-- lvm.NetworkSetting.
pub record NetworkSetting : Type 0 where
  pub ip : String
  pub subnet_mask : String
  pub gateway : String
  pub dns_server : String

pub record Vm (F : Type 0) : Type 0 where
  pub host : String
  pub destination : Destination
  pub username : String
  pub password : String
  pub insecure : Bool
  pub datacenter : String
  pub flavor : Flavor
  pub ovf_path : String
  pub ova_path_url : String
  pub networks : List Network
  pub name : String
  pub instance_uuids : List String
  pub template : Template
  pub datastores : List String
  pub use_local_templates : Bool
  pub skip_existing : Option ℕ
  pub credentials : Credentials
  pub fixed_disks : List (Disk F)
  pub disks : List (Disk F)
  pub question_responses : List (String × String)
  pub use_linked_clones : Bool
  pub skip_ip_wait : Bool
  pub nested_hv : Bool
  pub datastore : String
  pub network_setting : NetworkSetting

pub record VmSearchFilter : Type 0 where
  pub name : String
  pub instance_uuid : String
  pub search_in_dc : Bool

unfoldable pub get_vm_search_filter : String → VmSearchFilter
get_vm_search_filter vm_name = record {
  name = vm_name;
  instance_uuid = "";
  search_in_dc = Bool.true;
}

unfoldable pub get_temp_search_filter : Template → VmSearchFilter
get_temp_search_filter template = record {
  name = template.name;
  instance_uuid = template.instance_uuid;
  search_in_dc = Bool.false;
}

abbrev pub error_vm_exists : Error
error_vm_exists = new "VM already exists"

abbrev pub error_destination_not_supported : Error
error_destination_not_supported = new "destination is not supported by this provisioner"

abbrev pub error_vm_power_state_changing : Error
error_vm_power_state_changing = new "the power state of the vm is changing, try again later"

abbrev pub err_no_hosts_in_cluster : Error
err_no_hosts_in_cluster = new "the cluster does not have any hosts in it"

abbrev pub error_empty : Error
error_empty = new "Folder is empty"
