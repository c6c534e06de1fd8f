-- ===== src/Exoscale/Api.antt =====
-- What virtualmachine/exoscale uses of egoscale, of JSON and of Go's formats, as a parameter. The
-- package is vendored, so nothing is said here of how it answers.
use libretto.Base.{ℕ, String, List, Option}
use libretto.Ssh.{Ip}
use libretto.Go.Error.{Error}
use libretto.Go.Result.{Reply}
use libretto.Go.Action.{World, Action}
use libretto.Exoscale.Types.{Vm, SecurityGroup, Zone}

pub record MachineProfile : Type 0 where
  pub template : String
  pub service_offering : String
  pub security_groups : List String
  pub keypair : String
  pub userdata : String
  pub zone : String
  pub name : String

-- The fields that the program reads of each response.
pub record TemplateOutput : Type 0 where
  pub id : String
  pub size : ℕ
  pub zone_name : String

pub record Nic : Type 0 where
  pub ip_address : String
  pub ip6_address : String

pub record MachineOutput : Type 0 where
  pub template_id : String
  pub template_name : String
  pub zone_name : String
  pub service_offering_id : String
  pub service_offering_name : String
  pub display_name : String
  pub nics : List Nic
  pub keypair : String
  pub state : String

-- An entry count beside the entries.
pub record Listing (A : Type 0) : Type 0 where
  pub count : ℕ
  pub entries : List A

pub record JobResult : Type 0 where
  pub status : ℕ
  pub result : String

pub data Call : Type 0 where
  -- Request: the name of the command, and its parameters.
  command : String → List (String × String) → Call
  create_machine : MachineProfile → Call

-- Each answer depends on the calls before it. `decode_*` is json.Unmarshal into the type of a
-- response; where it is into a pointer that is read after an error, both are there.
pub record Cloud : Type 0 where
  pub request : List Call → Call → String × Option Error
  pub create : List Call → MachineProfile → Reply String
  pub decode_templates : String → Reply (List TemplateOutput)
  pub decode_offerings : String → Reply (Listing String)
  pub decode_groups : String → Reply (List SecurityGroup)
  pub decode_zones : String → Reply (List Zone)
  pub decode_machines : String → Reply (Listing MachineOutput)
  -- the responses to destroyVirtualMachine, stopVirtualMachine and startVirtualMachine
  pub decode_job_id : String → String → Reply String
  pub decode_job : String → JobResult × Option Error
  pub decode_deployed : String → Reply String
  -- %q, %d, strings.ToLower and net.ParseIP
  pub quoted : String → String
  pub decimal : ℕ → String
  pub to_lower : String → String
  pub parse_ip : String → Ip

abbrev pub Method : Type 0 → Type 0
Method A = Action (World Vm Call) A
