-- ===== src/Openstack/Types.antt =====
-- virtualmachine/openstack/vm.go: the structs, errors and constants.
use libretto.Base.{ℕ, ℤ, String, Bool, List, Option}
use libretto.Ssh.{Credentials}
use libretto.Go.Error.{Error, new}

pub record ImageMetadata : Type 0 where
  pub container_format : String
  pub disk_format : String
  pub min_disk : ℤ
  pub min_ram : ℤ
  pub name : String

pub record Volume : Type 0 where
  pub id : String
  pub device : String
  pub name : String
  pub size : ℤ
  pub volume_type : String

-- The fields of the SDK's floating address that the program reads.
pub record FloatingIp : Type 0 where
  pub id : String
  pub ip : String

pub record Vm : Type 0 where
  pub identity_endpoint : String
  pub username : String
  pub password : String
  pub region : String
  pub tenant_name : String
  pub flavor_name : String
  pub image_id : String
  pub image_metadata : ImageMetadata
  pub image_path : String
  pub volume : Volume
  pub instance_id : String
  pub name : String
  pub networks : List String
  pub floating_ip_pool : String
  pub floating_ip : Option FloatingIp
  pub security_group : String
  pub user_data : List ℕ
  pub admin_password : String
  pub credentials : Credentials
  -- computeClient is set
  pub compute_client : Bool

abbrev pub err_auth_options : Error
err_auth_options = new "Openstack credentials (username and password) are not set properly"

abbrev pub err_authenticating_client : Error
err_authenticating_client = new "Failed to authenticate the client"

abbrev pub err_invalid_region : Error
err_invalid_region = new "Invalid Openstack region"

abbrev pub err_no_instance_id : Error
err_no_instance_id = new "Missing instance ID"

abbrev pub err_action_timeout : Error
err_action_timeout = new "Openstack action timeout"

-- Seconds.
abbrev pub action_timeout : ℕ
action_timeout = 900

abbrev pub volume_action_timeout : ℕ
volume_action_timeout = 900

abbrev pub state_active : String
state_active = "ACTIVE"

abbrev pub state_shut_off : String
state_shut_off = "SHUTOFF"

abbrev pub state_error : String
state_error = "ERROR"

abbrev pub volume_state_available : String
volume_state_available = "available"

abbrev pub volume_state_in_use : String
volume_state_in_use = "in-use"

abbrev pub volume_state_deleted : String
volume_state_deleted = "nil"

abbrev pub volume_state_error_deleting : String
volume_state_error_deleting = "error_deleting"
