-- ===== src/Openstack/Api.antt =====
-- What virtualmachine/openstack uses of gophercloud, as a parameter. The package is vendored, so
-- nothing is said here of how it answers.
use libretto.Base.{ℕ, ℤ, String, Bool, List, Option}
use libretto.Go.Error.{Error}
use libretto.Go.Result.{Reply}
use libretto.Go.Action.{World, Action}
use libretto.Openstack.Types.{Vm}

pub record AuthOptions : Type 0 where
  pub identity_endpoint : String
  pub username : String
  pub password : String
  pub tenant_name : String

pub record VolumeOpts : Type 0 where
  pub size : ℤ
  pub name : String
  pub volume_type : String

-- The calls that leave the program, and the pauses.
pub data Call : Type 0 where
  -- seconds
  sleep : ℕ → Call
  authenticate : AuthOptions → Call
  list_images : String → Call
  get_server delete_server stop_server start_server : String → Call
  create_volume : VolumeOpts → Call
  get_volume delete_volume : String → Call
  attach_volume : (server device volume : String) → Call
  detach_volume : (server volume : String) → Call
  disassociate_floating_ip : (server ip : String) → Call
  delete_floating_ip : String → Call

-- Each answer depends on the calls before it. An Extract that returns a pointer and an error is the
-- status behind the pointer, if it is not nil, and the error.
pub record Cloud : Type 0 where
  -- AuthOptionsFromEnv, AuthenticatedClient, and the endpoints that a region has
  pub env_options : Option AuthOptions
  pub authenticated : List Call → AuthOptions → Bool
  pub has_compute : String → Bool
  pub has_block_storage : String → Bool
  pub server : List Call → String → Option String × Option Error
  pub remove_server : List Call → String → Reply (Unit {0})
  pub stop : List Call → String → Reply (Unit {0})
  -- the id of the volume, and the device of the attachment
  pub make_volume : List Call → VolumeOpts → Reply (Option String)
  pub volume : List Call → String → Option String × Option Error
  pub remove_volume : List Call → String → Reply (Unit {0})
  pub attach : List Call → (server device volume : String) → Reply (Option String)
  pub detach : List Call → (server volume : String) → Reply (Unit {0})
  pub disassociate : List Call → (server ip : String) → Reply (Unit {0})
  pub remove_floating_ip : List Call → String → Reply (Unit {0})

-- A method of VM.
abbrev pub Method : Type 0 → Type 0
Method A = Action (World Vm Call) A
