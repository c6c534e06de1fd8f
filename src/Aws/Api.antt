-- ===== src/Aws/Api.antt =====
-- What virtualmachine/aws uses of the AWS SDK and of the process's environment: the fields of the
-- requests that it fills in and of the outputs that it reads, and the service as a parameter. The
-- SDK is vendored code, so nothing is said here of how it answers.
use libretto.Base.{ℕ, String, Bool, List, Option}
use libretto.Ssh.{Ip}
use libretto.Go.Error.{Error}
use libretto.Go.Result.{Reply}
use libretto.Go.Action.{World, Action}
use libretto.Aws.Types.{ℤ, Vm}

pub record Instance : Type 0 where
  pub image_id : Option String
  pub instance_id : Option String
  pub instance_type : Option String
  pub public_ip_address : Option String
  pub private_ip_address : Option String
  pub launch_time : Option ℕ
  pub subnet_id : Option String
  pub vpc_id : Option String
  pub state_transition_reason : Option String
  -- State, and its Name
  pub state : Option (Option String)
  -- StateReason, and its Message
  pub state_reason : Option (Option String)

-- DescribeInstancesOutput: the instances of each reservation.
abbrev pub Reservations : Type 0
Reservations = List (List Instance)

pub record StatusOutput : Type 0 where
  pub availability_zone : Option String
  pub instance_id : Option String
  -- InstanceState, and its Name
  pub instance_state : Option (Option String)

pub record VolumeOutput : Type 0 where
  pub volume_id : Option String
  pub state : Option String

pub record BlockDevice : Type 0 where
  pub device_name : String
  pub volume_size : Option ℤ
  pub volume_type : String
  pub delete_on_termination : Bool

pub record RunInstancesInput : Type 0 where
  pub image_id : String
  pub instance_type : String
  pub key_name : String
  pub max_count : ℕ
  pub min_count : ℕ
  -- BlockDeviceMappings, a slice of pointers
  pub block_device_mappings : List (Option BlockDevice)
  pub monitoring : Bool
  pub subnet_id : Option String
  pub security_group_ids : List String
  pub iam_instance_profile : Option String
  pub private_ip_address : Option String

-- DescribeInstanceAttributeOutput: RootDeviceName and its Value, and for each block device mapping,
-- which may be nil, its DeviceName.
pub record AttributeOutput : Type 0 where
  pub root_device_name : Option (Option String)
  pub block_device_mappings : List (Option (Option String))

-- A filter, with its name and values.
pub record Filter : Type 0 where
  pub name : String
  pub values : List (Option String)

-- ec2.IpPermission, as a request holds it.
pub record Ec2IpPermission : Type 0 where
  pub from_port : Option ℤ
  pub to_port : Option ℤ
  pub ip_protocol : Option String
  pub ip_ranges : List (Option String)
  pub ipv6_ranges : List (Option String)

pub record CreateVolumeInput : Type 0 where
  pub availability_zone : String
  pub size : Option ℤ
  pub volume_type : String

-- The calls that leave the program, and the pauses.
pub data Call : Type 0 where
  -- time.Sleep, in seconds, and `<-limiter`
  sleep : ℕ → Call
  await_limiter : Call
  run_instances : RunInstancesInput → Call
  describe_instances : String → Call
  describe_instance_status : String → Call
  terminate_instances stop_instances start_instances : String → Call
  describe_instance_attribute : String → Call
  modify_instance_attribute : String → List (String × Bool) → Call
  describe_instance_volumes : String → Call
  describe_volumes : String → Call
  create_tags : List String → String → String → Call
  create_volume : CreateVolumeInput → Call
  attach_volume : (device instance volume : String) → Call
  detach_volume delete_volume : String → Call
  authorize_ingress authorize_egress revoke_ingress revoke_egress :
      String → List Ec2IpPermission → Call
  describe_subnets describe_security_groups describe_images : List Filter → Call
  describe_regions describe_availability_zones describe_vpcs : Call
  import_key_pair : String → List ℕ → Call
  delete_key_pair : String → Call

-- The EC2 service. Each answer depends on the calls before it. DescribeInstances and DescribeVolumes
-- return their output beside an error, which the retry loops read.
pub record Ec2 : Type 0 where
  -- os.Getenv, session.NewSession for a region (none: it succeeds), uuid.Variant4, net.ParseIP
  pub getenv : String → String
  pub new_session : String → Option Error
  pub variant4 : List Call → String
  pub parse_ip : String → Ip
  pub run : List Call → RunInstancesInput → Reply (List (Option Instance))
  pub instances : List Call → String → Reservations × Option Error
  pub status : List Call → String → Reply (List StatusOutput)
  pub terminate : List Call → String → Reply (Unit {0})
  pub halt : List Call → String → Reply (Unit {0})
  pub start : List Call → String → Reply (Unit {0})
  pub attribute : List Call → String → Reply AttributeOutput
  pub modify : List Call → String → List (String × Bool) → Reply (Unit {0})
  pub instance_volumes : List Call → String → Reply (List (Option VolumeOutput))
  pub volumes : List Call → String → List VolumeOutput × Option Error
  pub tag : List Call → List String → String → String → Reply (Unit {0})
  pub make_volume : List Call → CreateVolumeInput → Reply (Option String)
  pub attach : List Call → (device instance volume : String) → Reply (Unit {0})
  pub detach : List Call → String → Reply (Unit {0})
  pub remove_volume : List Call → String → Reply (Unit {0})
  -- for AuthorizeSecurityGroupIngress and the three other calls on rules
  pub change_rules : List Call → Call → Reply (Unit {0})
  pub import_key : List Call → String → List ℕ → Reply (Unit {0})
  pub remove_key : List Call → String → Reply (Unit {0})

-- A method of VM.
abbrev pub Method : Type 0 → Type 0
Method A = Action (World Vm Call) A
