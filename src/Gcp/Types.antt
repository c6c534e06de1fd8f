-- ===== src/Gcp/Types.antt =====
-- virtualmachine/gcp/vm.go: the structs, and accountFile of util.go. A pointer to a bool is an Option,
-- and an int its value.
use libretto.Base.{ℕ, String, Bool, List, Option}
use libretto.Ssh.{Credentials}

-- Seconds.
abbrev pub operation_timeout : ℕ
operation_timeout = 180

abbrev pub device_path_prefix : String
device_path_prefix = "/dev/disk/by-id/google-"

pub record AccountFile : Type 0 where
  pub private_key : String
  pub client_email : String
  pub client_id : String

pub record Endpoint : Type 0 where
  pub protocol : String
  pub ports : List String

pub record Image : Type 0 where
  pub id : ℕ
  pub creation_timestamp : String
  pub deprecation_status : String
  pub deprecation_replacement : String
  pub description : String
  pub disk_size_gb : ℕ
  pub family : String
  pub name : String
  pub status : String

pub record Disk : Type 0 where
  pub name : String
  pub disk_type : String
  pub disk_size_gb : ℕ
  pub auto_delete : Bool
  pub description : String

pub record StorageDevice : Type 0 where
  pub name : String
  pub device_path : String
  pub boot : Option Bool
  pub auto_delete : Option Bool
  pub interface : String

pub record Network : Type 0 where
  pub name : String
  pub description : String
  pub id : ℕ
  pub auto_create_subnetworks : Option Bool
  pub ipv4_range : String
  pub creation_timestamp : String
  pub subnetworks : List String

pub record Subnetwork : Type 0 where
  pub name : String
  pub description : String
  pub id : ℕ
  pub creation_timestamp : String
  pub gateway_address : String
  pub network : String
  pub region : String
  pub ip_cidr_range : String

pub record MachineType : Type 0 where
  pub name : String
  pub description : String
  pub guest_cpus : ℕ
  pub memory_mb : ℕ
  pub is_shared_cpu : Option Bool
  pub maximum_persistent_disks : ℕ
  pub maximum_persistent_disks_size_gb : ℕ

pub record DiskType : Type 0 where
  pub name : String
  pub description : String
  pub valid_disk_size : String
  pub default_disk_size_gb : ℕ

pub record Zone : Type 0 where
  pub name : String
  pub description : String
  pub region : String
  pub status : String

pub record Region : Type 0 where
  pub name : String
  pub description : String
  pub zones : List String
  pub status : String

pub record InstanceData : Type 0 where
  pub name : String
  pub id : ℕ
  pub status : String
  pub creation_timestamp : String
  pub private_ipv4 : String
  pub public_ipv4 : String
  pub volumes : List StorageDevice

pub record Vm : Type 0 where
  pub name : String
  pub description : String
  pub zone : String
  pub machine_type : String
  pub preemptible : Bool
  pub source_image : String
  pub image_projects : List String
  pub disks : List Disk
  pub network : String
  pub subnetwork : String
  pub use_internal_ip : Bool
  pub private_ip_address : String
  pub scopes : List String
  pub project : String
  pub tags : List String
  pub account_file : String
  pub account : AccountFile
  pub ssh_creds : Credentials
  pub ssh_public_key : String
  pub firewall : String
  pub endpoints : List Endpoint
  pub raw_disk_source : String
