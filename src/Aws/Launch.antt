-- ===== src/Aws/Launch.antt =====
-- instanceInfo of virtualmachine/aws/util.go: the request that Provision sends, and the defaults
-- that it writes to the VM.
pub mod Devices
use libretto.Base.{
  ℕ, String, Bool, false, true, not, Option, none, some, List, ◌∷◌, ◌++◌, ◌==◌, ◌<>◌, map, length,
  replicate, if◌then◌else◌,
}
use libretto.Go.Action.{◌>>=◌, ◌>>◌, get, put, calls, pure}
use libretto.Aws.Types.{ℤ, pos, Vm, EbsBlockVolume, SecurityGroup}
use libretto.Aws.Api.{Ec2, Method, BlockDevice, RunInstancesInput, Call}

abbrev pub instance_count : ℕ
instance_count = 1

abbrev pub default_instance_type : String
default_instance_type = "t2.micro"

abbrev pub default_ami : String
default_ami = "ami-5189a661"

-- GB
abbrev pub default_volume_size : ℤ
default_volume_size = pos 8

abbrev pub default_volume_type : String
default_volume_type = "gp2"

abbrev or_default : String → String → String
or_default s d = if s == "" then d else s

-- aws.String, where the text is set.
abbrev pointer : String → Option String
pointer s = if s == "" then none else some s

-- The name, image and type that are filled in where they are empty.
unfoldable pub with_defaults : Ec2 → List Call → Vm → Vm
with_defaults svc log vm = record vm {
  name = or_default vm.name ("libretto-vm-" <> svc.variant4 log);
  ami = or_default vm.ami default_ami;
  instance_type = or_default vm.instance_type default_instance_type;
}

-- `volume.VolumeSize == new(int64)` compares a pointer with a fresh one, so it is false.
abbrev is_fresh_pointer : Option ℤ → Bool
is_fresh_pointer p = false

pub block_device : Bool → EbsBlockVolume → BlockDevice
block_device keep_root v = record {
  device_name = v.device_name;
  volume_size = if is_fresh_pointer v.volume_size then some default_volume_size else v.volume_size;
  volume_type = or_default v.volume_type default_volume_type;
  delete_on_termination = not keep_root;
}

-- `devices` is made with the length of the volumes, all of it nil, and then appended to.
unfoldable pub devices : Vm → List (Option BlockDevice)
unfolding block_device
devices vm =
    replicate (length vm.volumes) none
    ++ map (λ v. some (block_device vm.keep_root_volume_on_destroy v)) vm.volumes

unfoldable pub run_input : Vm → RunInstancesInput
unfolding devices
run_input vm = record {
  image_id = vm.ami;
  instance_type = vm.instance_type;
  key_name = vm.key_pair;
  max_count = instance_count;
  min_count = instance_count;
  block_device_mappings = devices vm;
  monitoring = true;
  subnet_id = pointer vm.subnet;
  security_group_ids = map (λ (g : SecurityGroup). g.id) vm.security_groups;
  iam_instance_profile = pointer vm.iam_instance_profile_name;
  private_ip_address = pointer vm.private_ip_address;
}

unfoldable pub instance_info : Ec2 → Method RunInstancesInput
instance_info svc = do
  old ← get
  log ← calls
  put (with_defaults svc log old)
  vm ← get
  pure (run_input vm)
