-- ===== src/Aws/Types.antt =====
-- virtualmachine/aws/vm.go: the structs. A pointer is an Option, a map is its entries in the order
-- in which one `range` visits them, and an int64 is an integer.
use libretto.Base.{String, Bool, List, Option}
use libretto.Ssh.{Credentials}
pub use libretto.Base.{ℤ, pos, negsuc}

pub record Region : Type 0 where
  pub name : String
  pub region_endpoint : String

pub record Zone : Type 0 where
  pub name : String
  pub state : String
  pub region : String

pub record Vpc : Type 0 where
  pub id : String
  pub state : String
  pub is_default : Option Bool
  pub ipv4_blocks : List String
  pub ipv6_blocks : List String
  pub dhcp_options_id : String
  pub instance_tenancy : String

pub record Subnet : Type 0 where
  pub id : String
  pub state : String
  pub vpc_id : String
  pub ipv4_block : String
  pub ipv6_blocks : List String
  pub available_address_count : Option ℤ
  pub availability_zone : String
  pub default_for_az : Bool
  pub map_public_ip_on_launch : Bool

pub record IpPermission : Type 0 where
  pub from_port : Option ℤ
  pub to_port : Option ℤ
  pub ip_protocol : String
  pub ipv4_ranges : List String
  pub ipv6_ranges : List String

pub record SecurityGroup : Type 0 where
  pub id : String
  pub name : String
  pub description : String
  pub owner_id : String
  pub vpc_id : String
  pub ip_permissions_egress : List IpPermission
  pub ip_permissions : List IpPermission

pub record InstanceStatus : Type 0 where
  pub availability_zone : String
  pub instance_id : String
  pub state : String

pub record EbsBlockVolume : Type 0 where
  pub device_name : String
  pub volume_size : Option ℤ
  pub volume_type : String
  pub availability_zone : String
  pub volume_id : String
  pub snapshot_id : String

pub record Image : Type 0 where
  pub id : Option String
  pub name : Option String
  pub description : Option String
  pub state : Option String
  pub owner_id : Option String
  pub owner_alias : Option String
  pub creation_date : Option String
  pub architecture : Option String
  pub platform : Option String
  pub hypervisor : Option String
  pub virtualization_type : Option String
  pub image_type : Option String
  pub kernel_id : Option String
  pub root_device_name : Option String
  pub root_device_type : Option String
  pub public : Option Bool
  pub ebs_volumes : List EbsBlockVolume

pub record Vm : Type 0 where
  pub name : String
  pub region : String
  pub ami : String
  pub instance_type : String
  pub instance_id : String
  pub key_pair : String
  pub iam_instance_profile_name : String
  pub private_ip_address : String
  pub volumes : List EbsBlockVolume
  pub keep_root_volume_on_destroy : Bool
  pub delete_non_root_volume_on_destroy : Bool
  pub vpc : String
  pub subnet : String
  pub security_groups : List SecurityGroup
  pub ssh_creds : Credentials
  pub delete_keys_on_destroy : Bool
  pub filters : List (String × List (Option String))
