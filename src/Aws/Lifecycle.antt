-- ===== src/Aws/Lifecycle.antt =====
-- virtualmachine/aws/vm.go: the operations of the VirtualMachine interface and the tags, with the
-- helpers of util.go that they call.
pub mod Provision
pub mod Tagging
pub mod Guards
pub mod Destroy
pub mod Power
use libretto.Base.{
  String, Bool, true, Option, none, some, List, [], ◌∷◌, ◌==◌, ◌<>◌, if◌then◌else◌, map,
}
use libretto.Ssh.{Ip}
use libretto.Go.Error.{Error, new, errorf}
use libretto.Go.Result
use libretto.Go.Result.{Result, ok, err, first, deref}
use libretto.Go.Action.{◌>>=◌, ◌>>◌, get, put, pure, fail, lift, note, request, send, wrap}
use libretto.Aws.Types.{Vm}
use libretto.Aws.Api.{
  Ec2, Method, Instance, Reservations, VolumeOutput, await_limiter, run_instances,
  describe_instances, describe_instance_attribute, describe_instance_volumes,
  modify_instance_attribute, terminate_instances, stop_instances, start_instances, create_tags,
}
use libretto.Aws.Service.{
  err_no_instance, err_no_instance_id, err_no_support_suspend, err_no_support_resume, with_service,
}
use libretto.Aws.Launch.{instance_info}
use libretto.Aws.Wait.Ready.{wait_until_ready}
use libretto.Aws.Wait.State.{wait_until_stopped, wait_until_running, wait_until_terminated}

abbrev Nothing : Type 0
Nothing = Unit {0}

abbrev pub service_prefix : String
service_prefix = "failed to get AWS service: "

-- `if vm.InstanceID == "" { return ErrNoInstanceID }`.
abbrev pub check_id : Vm → Method Nothing
check_id vm = if vm.instance_id == "" then fail err_no_instance_id else pure tt

-- The ids of the volumes that are there and have one.
unfoldable pub volume_ids : List (Option VolumeOutput) → List String
volume_ids [] = []
volume_ids (none ∷ vs) = volume_ids vs
volume_ids (some v ∷ vs) = elim v.volume_id [ none ↦ volume_ids vs | some id ↦ id ∷ volume_ids vs ]

-- The names of the devices that have one other than the root device's.
pub non_root_names : String → List (Option (Option String)) → List String
non_root_names root [] = []
non_root_names root (none ∷ ms) = non_root_names root ms
non_root_names root (some none ∷ ms) = non_root_names root ms
non_root_names root (some (some name) ∷ ms) =
    if name == root then non_root_names root ms else name ∷ non_root_names root ms

abbrev root_device : Option (Option String) → String
root_device (some (some name)) = name
root_device (some none) = ""
root_device none = ""

-- hasInstanceID, and the id itself.
pub instance_id_of : Option Instance → Result String
instance_id_of none = err err_no_instance_id
instance_id_of (some i) = elim i.instance_id [ none ↦ err err_no_instance_id | some id ↦ ok id ]

-- The first instance of the first reservation.
pub the_instance : Error → Reservations → Result Instance
the_instance missing [] = err missing
the_instance missing ([] ∷ rs) = err err_no_instance
the_instance missing ((i ∷ is) ∷ rs) = ok i

pub reset_key_pair : Method Nothing
reset_key_pair = do
  vm ← get
  let creds = vm.ssh_creds
  put (record vm { ssh_creds = record creds { ssh_private_key = "" }; key_pair = "" })

pub set_key_pair : String → String → Method Nothing
set_key_pair key name = do
  vm ← get
  let creds = vm.ssh_creds
  put (record vm { ssh_creds = record creds { ssh_private_key = key }; key_pair = name })

pub suspend : Method Nothing
suspend = fail err_no_support_suspend

pub resume : Method Nothing
resume = fail err_no_support_resume

module _ (svc : Ec2) where
  unfoldable pub get_instance_volume_ids : String → Method (List String)
  get_instance_volume_ids id = do
    vols ← request (describe_instance_volumes id) (λ log. svc.instance_volumes log id)
    pure (volume_ids vols)

  pub get_non_root_device_names : String → Method (List String)
  get_non_root_device_names id = do
    resp ← request (describe_instance_attribute id) (λ log. svc.attribute log id)
    pure (non_root_names (root_device resp.root_device_name) resp.block_device_mappings)

  pub set_non_root_delete_on_destroy : String → Bool → Method Nothing
  unfolding get_non_root_device_names
  set_non_root_delete_on_destroy id delete = do
    names ← wrap "DescribeInstanceAttribute: " (get_non_root_device_names id)
    let devices = map (λ (name : String). (name, delete)) names
    wrap "ModifyInstanceAttribute: "
        (request (modify_instance_attribute id devices) (λ log. svc.modify log id devices))

  unfoldable pub set_tag : String → String → Method Nothing
  unfolding get_instance_volume_ids
  set_tag key value = do
    vm ← with_service svc service_prefix
    check_id vm
    vols ← wrap "Failed to get instance's volumes IDs: " (get_instance_volume_ids vm.instance_id)
    let ids = vm.instance_id ∷ vols
    wrap "Failed to create tag on VM: "
        (request (create_tags ids key value) (λ log. svc.tag log ids key value))

  pub set_tags : List (String × String) → Method Nothing
  unfolding set_tag
  set_tags [] = pure tt
  set_tags ((k, v) ∷ tags) = do set_tag k v; set_tags tags

  -- The end of Provision, after the instance is up.
  unfoldable pub label : Vm → Method Nothing
  label vm =
      if vm.delete_non_root_volume_on_destroy
      then set_non_root_delete_on_destroy vm.instance_id true
      else if vm.name == ""
      then pure tt
      else set_tag "Name" vm.name

  -- Provision up to the instance's id, which it writes to the struct and returns.
  unfoldable pub launch : Method String
  unfolding instance_id_of instance_info
  launch = do
    note await_limiter
    before ← with_service svc service_prefix
    input ← instance_info svc
    instances ←
        wrap "Failed to create instance: "
          (request (run_instances input) (λ log. svc.run log input))
    instance ← lift (first instances)
    id ← lift (instance_id_of instance)
    named ← get
    put (record named { instance_id = id })
    pure id

  unfoldable pub provision : Method Nothing
  provision = do id ← launch; wait_until_ready svc id; vm ← get; label vm

  -- DescribeInstances where the output beside an error is not read.
  pub describe : String → Method Reservations
  describe id = do
    reply ← send (describe_instances id) (λ log. svc.instances log id)
    elim reply.1 [ none ↦ pure reply.0 | some e ↦ fail (errorf "Failed to describe instance: " e) ]

  abbrev parse : Option String → Ip
  parse none = none
  parse (some s) = svc.parse_ip s

  -- The public address, then the private one.
  unfoldable pub get_ips : Method (List Ip)
  unfolding describe the_instance
  get_ips = do
    vm ← with_service svc service_prefix
    check_id vm
    rs ← describe vm.instance_id
    i ← lift (the_instance (new "Missing instance reservation") rs)
    pure (parse i.public_ip_address ∷ parse i.private_ip_address ∷ [])

  pub get_state : Method String
  unfolding describe the_instance
  get_state = do
    vm ← with_service svc service_prefix
    check_id vm
    rs ← describe vm.instance_id
    i ← lift (the_instance err_no_instance rs)
    named ← lift (deref i.state)
    lift (deref named)

  unfoldable pub destroy : Method Nothing
  unfolding reset_key_pair
  destroy = do
    vm ← with_service svc service_prefix
    check_id vm
    request (terminate_instances vm.instance_id) (λ log. svc.terminate log vm.instance_id)
    wait_until_terminated svc vm.instance_id
    if vm.delete_keys_on_destroy then reset_key_pair else pure tt

  unfoldable pub halt : Method Nothing
  halt = do
    vm ← with_service svc service_prefix
    check_id vm
    wrap "Failed to stop instance: "
        (request (stop_instances vm.instance_id) (λ log. svc.halt log vm.instance_id))
    wait_until_stopped svc vm.instance_id

  unfoldable pub start : Method Nothing
  start = do
    vm ← with_service svc service_prefix
    check_id vm
    wrap "Failed to start instance: "
        (request (start_instances vm.instance_id) (λ log. svc.start log vm.instance_id))
    wait_until_running svc vm.instance_id
