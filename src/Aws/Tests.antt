-- ===== src/Aws/Tests.antt =====
-- Runs of the AWS model against a small EC2, and the theorems at inputs that meet their hypotheses.
use libretto.Base.{
  ℕ, ◌<◌, ◌≤◌, ◌≡◌, refl, inr, String, Bool, true, false, none, some, List, [], ◌∷◌, All, arith,
}
use libretto.Ssh.{Options}
use libretto.Go.Error.{coded}
use libretto.Go.Result.{ok, answer, failure}
use libretto.Go.Action.{World}
use libretto.Go.Poll.{polled}
use libretto.Aws.Types.{pos, Vm, EbsBlockVolume, IpPermission, InstanceStatus, Subnet}
use libretto.Aws.Api.{
  Ec2, Call, Instance, Ec2IpPermission, sleep, terminate_instances, stop_instances, start_instances,
}
use libretto.Aws.Service.{get_service, get_instance_status, instance_status, read_status}
use libretto.Aws.Launch.{run_input, devices, instance_info, with_defaults}
use libretto.Aws.Wait.Ready.{ready_test, first_state, wait_until_ready, max_retries}
use libretto.Aws.Wait.Ready.First.{IsRunning, ready_poll, wait_until_ready-ok_iff}
use libretto.Aws.Wait.State.{
  match_state, wait_until_state, running_states, wait_until_terminated, wait_until_stopped,
  wait_until_running,
}
use libretto.Aws.Wait.State.First.{wait_until_state-ok_iff}
use libretto.Aws.Wait.Volume
use libretto.Aws.Wait.Volume.{
  wait_for_create, volume_test, wait_until_volume_state, first_volume_state,
}
use libretto.Aws.Wait.Volume.First.{wait_until_volume_state-ok_iff, volume_poll}
use libretto.Aws.Wait.Bounds.{slept, wait_bounds}
use libretto.Aws.Lifecycle.{launch, label, provision, destroy, set_tag, halt, start}
use libretto.Aws.Lifecycle.Provision.{Starts, launched, provision-ok}
use libretto.Aws.Lifecycle.Destroy.{without_keys, destroy-ok}
use libretto.Aws.Lifecycle.Tagging.{IsNoTag, provision_untagged}
use libretto.Aws.Lifecycle.Power.{halt-ok, start-ok}
use libretto.Aws.Rules.{to_ec2_ip_permissions, to_vm_ip_permissions}
use libretto.Aws.Rules.Aliasing.{protocols_aliased}
use libretto.Aws.Rules.RoundTrip.{IsUniform, rules_round_trip}
use libretto.Aws.Listing.{Catalog, SubnetOutput}
use libretto.Aws.Volumes.{create}
use libretto.Aws.Volumes.Effects.{Creates, sent, with_created, create-ok}

-- The instance is in the state that the last call on it asks for, and runs if there is none.
abbrev state_after : List Call → String
state_after [] = "running"
state_after (terminate_instances id ∷ log) = "terminated"
state_after (stop_instances id ∷ log) = "stopped"
state_after (start_instances id ∷ log) = "running"
state_after (c ∷ log) = state_after log

abbrev instance_in : String → Instance
instance_in state = record {
  image_id = some "ami-1";
  instance_id = some "i-1";
  instance_type = some "t2.micro";
  public_ip_address = some "10.0.0.1";
  private_ip_address = none;
  launch_time = none;
  subnet_id = none;
  vpc_id = none;
  state_transition_reason = none;
  state = some (some state);
  state_reason = none;
}

abbrev small_ec2 : Ec2
small_ec2 = record {
  getenv = λ name. "us-west-2";
  new_session = λ region. none;
  variant4 = λ log. "1";
  parse_ip = λ s. none;
  run = λ log input. answer (some (instance_in "pending") ∷ []);
  instances = λ log id. ((instance_in (state_after log) ∷ []) ∷ [], none);
  status = λ log id. answer (
      record {
        availability_zone = some "a";
        instance_id = some id;
        instance_state = some (some (state_after log));
      }
      ∷ []);
  terminate = λ log id. answer tt;
  halt = λ log id. answer tt;
  start = λ log id. answer tt;
  attribute = λ log id. answer (record { root_device_name = none; block_device_mappings = [] });
  modify = λ log id devices. answer tt;
  instance_volumes = λ log id. answer [];
  volumes = λ log id. (record { volume_id = some id; state = some "available" } ∷ [], none);
  tag = λ log ids key value. answer tt;
  make_volume = λ log input. answer (some "vol-1");
  attach = λ log device instance_id volume. answer tt;
  detach = λ log volume. answer tt;
  remove_volume = λ log volume. answer tt;
  change_rules = λ log c. answer tt;
  import_key = λ log name key. failure (coded "InvalidKeyPair.Duplicate" "exists");
  remove_key = λ log name. answer tt;
}

abbrev a_volume : EbsBlockVolume
a_volume = record {
  device_name = "/dev/sdf";
  volume_size = none;
  volume_type = "";
  availability_zone = "";
  volume_id = "";
  snapshot_id = "";
}

abbrev a_vm : String → Bool → Vm
a_vm id delete_volumes = record {
  name = "db";
  region = "";
  ami = "";
  instance_type = "";
  instance_id = id;
  key_pair = "key";
  iam_instance_profile_name = "";
  private_ip_address = "";
  volumes = a_volume ∷ [];
  keep_root_volume_on_destroy = false;
  delete_non_root_volume_on_destroy = delete_volumes;
  vpc = "";
  subnet = "";
  security_groups = [];
  ssh_creds = record { ssh_user = "ubuntu"; ssh_password = ""; ssh_private_key = "pem" };
  delete_keys_on_destroy = true;
  filters = ("vpc-id", []) ∷ ("subnet-id", []) ∷ [];
}

abbrev begun : Vm → World Vm Call
begun vm = record { vm = vm; log = [] }

abbrev ready : World Vm Call
ready = begun (a_vm "i-1" false)

-- Three polls sleep 7 seconds.
slept_test : slept (sleep 4 ∷ sleep 2 ∷ sleep 1 ∷ []) ≡ 7
unfolding slept
slept_test = refl

destroy_test : (destroy small_ec2 ready).0 ≡ ok tt
unfolding destroy get_service wait_until_terminated wait_until_state
destroy_test = refl

wait_until_ready-ok_iff_example : (wait_until_ready small_ec2 "i-1" ready).0 ≡ ok tt
unfolding first_state polled
wait_until_ready-ok_iff_example =
    (wait_until_ready-ok_iff small_ec2 "i-1" ready).1
      (0, omega arith, (refl, refl), λ j lt. elim lt [ ])

wait_until_state-ok_iff_example : (wait_until_state small_ec2 "i-1" running_states ready).0 ≡ ok tt
unfolding match_state polled instance_status read_status
wait_until_state-ok_iff_example =
    (wait_until_state-ok_iff small_ec2 "i-1" running_states ready refl).1 (
      0,
      omega arith,
      (
        "running",
        (
          record { availability_zone = "a"; instance_id = "i-1"; state = "running" },
          refl,
          refl,
          refl,
        ),
      ),
      λ j lt. elim lt [ ],
    )

abbrev ended : World Vm Call
ended = record { vm = a_vm "i-1" false; log = terminate_instances "i-1" ∷ [] }

wait_until_volume_state-ok_iff_example :
    (wait_until_volume_state small_ec2 "vol-1" "available" ready).0 ≡ ok tt
unfolding polled first_volume_state
wait_until_volume_state-ok_iff_example =
    (wait_until_volume_state-ok_iff small_ec2 "vol-1" "available" ready refl).1
      (0, omega arith, (refl, refl), λ j lt. elim lt [ ])

wait_bounds_example : slept (wait_until_ready small_ec2 "i-1" ready).1.log ≤ 1023
unfolding match_state slept
wait_bounds_example = (wait_bounds small_ec2 "i-1" "available" running_states ready refl).0.0

abbrev fresh : World Vm Call
fresh = begun (a_vm "" false)

provision-ok_example :
    (id : String) × Starts small_ec2 fresh id
    × ((provision small_ec2 fresh).1.vm ≡ (launched small_ec2 fresh id).vm)
    × ((k : ℕ) × (k < max_retries)
        × IsRunning (ready_poll small_ec2 id (launched small_ec2 fresh id) k))
unfolding provision launch label wait_until_ready set_tag get_service instance_info with_defaults
    run_input devices ready_test
provision-ok_example = provision-ok small_ec2 fresh refl

destroy-ok_example : (destroy small_ec2 ready).1.vm ≡ without_keys (a_vm "i-1" false)
destroy-ok_example = (destroy-ok small_ec2 ready destroy_test).2

provision_untagged_example : All IsNoTag (provision small_ec2 (begun (a_vm "" true))).1.log
provision_untagged_example = provision_untagged small_ec2 (begun (a_vm "" true)) refl tt

abbrev rule : String → List String → IpPermission
rule protocol ranges = record {
  from_port = some (pos 22);
  to_port = some (pos 22);
  ip_protocol = protocol;
  ipv4_ranges = ranges;
  ipv6_ranges = [];
}

protocols_aliased_example :
    All
      (λ (e : Ec2IpPermission). e.ip_protocol ≡ some "udp")
      (to_ec2_ip_permissions (rule "tcp" [] ∷ rule "udp" [] ∷ []))
protocols_aliased_example = protocols_aliased (rule "tcp" [] ∷ []) (rule "udp" [])

abbrev web : List IpPermission
web = rule "tcp" ("0.0.0.0/0" ∷ []) ∷ []

web-IsUniform : All (IsUniform "tcp") web
web-IsUniform = (
  record {
    same_protocol = refl;
    one_kind = inr refl;
    range = "0.0.0.0/0";
    same_ipv4 = (refl, tt);
    same_ipv6 = tt;
  },
  tt,
)

rules_round_trip_example : to_vm_ip_permissions (to_ec2_ip_permissions web) ≡ ok web
rules_round_trip_example = rules_round_trip "tcp" (rule "tcp" ("0.0.0.0/0" ∷ [])) [] web-IsUniform

abbrev a_subnet : SubnetOutput
a_subnet = record {
  subnet_id = some "subnet-1";
  state = some "available";
  vpc_id = some "vpc-1";
  cidr_block = some "10.0.0.0/24";
  available_ip_address_count = none;
  availability_zone = some "a";
  default_for_az = some false;
  map_public_ip_on_launch = some false;
  ipv6_cidr_block_association_set = [];
}

abbrev one_subnet : Catalog
one_subnet = record {
  regions = λ log. answer [];
  zones = λ log. answer [];
  vpcs = λ log. answer [];
  subnets = λ log filters. answer (a_subnet ∷ []);
  groups = λ log filters. answer [];
}

abbrev shown : Subnet
shown = record {
  id = "subnet-1";
  state = "available";
  vpc_id = "vpc-1";
  ipv4_block = "10.0.0.0/24";
  ipv6_blocks = [];
  available_address_count = none;
  availability_zone = "a";
  default_for_az = false;
  map_public_ip_on_launch = false;
}

create-ok_example :
    (s : InstanceStatus) × (id : String) × Creates small_ec2 ready a_volume [] refl s id
    × ((k : ℕ) × (k < Volume.max_retries)
        × Volume.First.Finds "available"
            (volume_poll small_ec2 id "available" (sent small_ec2 ready a_volume [] refl s) k)
        × ((j : ℕ)
            → j < k
            → Volume.First.IsPending "available"
                (volume_poll small_ec2 id "available" (sent small_ec2 ready a_volume [] refl s) j)))
    × ((create small_ec2 ready).1.vm ≡ with_created small_ec2 ready a_volume [] refl s id)
unfolding create get_service wait_for_create wait_until_volume_state get_instance_status read_status
    volume_test
create-ok_example = create-ok small_ec2 ready a_volume [] refl refl

halt_test : (halt small_ec2 ready).0 ≡ ok tt
unfolding halt get_service wait_until_stopped wait_until_state
halt_test = refl

start_test : (start small_ec2 ready).0 ≡ ok tt
unfolding start get_service wait_until_running wait_until_state
start_test = refl

halt-ok_example : (halt small_ec2 ready).1.vm ≡ a_vm "i-1" false
halt-ok_example = (halt-ok small_ec2 ready halt_test).2

start-ok_example : (start small_ec2 ready).1.vm ≡ a_vm "i-1" false
start-ok_example = (start-ok small_ec2 ready start_test).2

abbrev no_options : Options
no_options = record { ips = []; keep_alive = 0; pty = false }
