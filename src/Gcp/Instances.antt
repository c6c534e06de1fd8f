-- ===== src/Gcp/Instances.antt =====
-- virtualmachine/gcp: the operations on the instance and on images of util.go, with the methods of
-- vm.go that call them.
use libretto.Base.{
  String, Bool, true, false, List, [], ◌∷◌, ◌==◌, ◌<>◌, ◌&&◌, ◌||◌, not, if◌then◌else◌,
}
use libretto.Ssh.{Ip}
use libretto.Machine.{vm_starting, vm_running, vm_halted, vm_unknown}
use libretto.Go.Error.{Error, new, errorf, message}
use libretto.Go.Strings.{contains}
use libretto.Go.Result.{Result, ok, err, Reply, answer, failure, first}
use libretto.Go.Action.{◌>>=◌, ◌>>◌, get, pure, fail, lift, request, attempt}
use libretto.Gcp.Types.{Vm, InstanceData}
use libretto.Gcp.Api.{
  Cloud, query, change, insert_instance, start_instance, stop_instance, reset_instance,
  delete_instance, set_metadata, insert_image, delete_image, Instance, NewInstance, CloudNetwork,
  CloudMachineType, Attachment, Method, Nothing,
}
use libretto.Gcp.Service.{
  get_service, get_instance, region, change_instance, change_project, wait_for_operation_ready,
}
use libretto.Gcp.Disks.{create_disks, delete_each, volumes}

-- GetState: what a status of Google's stands for.
unfoldable pub state_of : String → String
state_of status =
    if (status == "PROVISIONING") || (status == "STAGING")
    then vm_starting
    else if status == "RUNNING"
    then vm_running
    else if (status == "STOPPING") || (status == "STOPPED") || (status == "TERMINATED")
    then vm_halted
    else vm_unknown

-- start: the instance, with its `instance == nil` where the query fails.
unfoldable pub found_to_start : Reply Instance → Result Nothing
found_to_start (answer instance) = ok tt
found_to_start (failure e) =
    if contains (message e) "no instance found" then err (new "no instance found") else err e

unfoldable pub found_to_stop : Reply Instance → Result Nothing
found_to_stop (answer instance) = ok tt
found_to_stop (failure e) =
    if contains (message e) "no instance found" then err (errorf "no instance found, " e) else err e

abbrev no_subnetworks : List String → Bool
no_subnetworks [] = true
no_subnetworks (s ∷ rest) = false

pub ssh_key_of : Vm → String
ssh_key_of vm = let creds = vm.ssh_creds in creds.ssh_user <> ":" <> vm.ssh_public_key <> "\n"

-- The request of provision.
unfoldable pub instance_of :
    Vm → CloudMachineType → CloudNetwork → String → List Attachment → NewInstance
instance_of vm machine_type network link disks = record {
  name = vm.name;
  description = vm.description;
  disks = disks;
  machine_type = machine_type.self_link;
  ssh_keys = ssh_key_of vm;
  network = network.self_link;
  subnetwork = link;
  network_ip = vm.private_ip_address;
  preemptible = vm.preemptible;
  scopes = vm.scopes;
  tags = vm.tags;
}

-- util.CombineErrors of the errors of the disks, as text.
abbrev pub combined : List Error → String
combined [] = ""
combined (e ∷ []) = message e
combined (e ∷ f ∷ es) = message e <> ": " <> combined (f ∷ es)

module _ (svc : Cloud) where
  -- getIPs: the public address, then the private one.
  unfoldable pub get_ips : Method (Ip × Ip)
  unfolding get_instance
  get_ips = do
    get_service svc
    instance ← get_instance svc
    nic ← lift (first instance.network_interfaces)
    public_ip ← lift (first nic.access_configs)
    if public_ip == ""
        then fail (new "error while retrieving public IP")
        else if nic.network_ip == ""
        then fail (new "error while retrieving private IP")
        else pure (svc.parse_ip public_ip, svc.parse_ip nic.network_ip)

  -- The SelfLink of the subnetwork, where the VM names one.
  unfoldable pub subnetwork_link : Method String
  unfolding region
  subnetwork_link = do
    vm ← get
    if vm.subnetwork == "" then pure "" else (do
      r ← lift (region vm.zone)
      subnetwork ←
          request (query "subnetwork" (vm.project ∷ r ∷ vm.subnetwork ∷ []))
            (λ log. svc.get_subnetwork log r)
      pure subnetwork.self_link)

  unfoldable pub provision : Method Nothing
  unfolding subnetwork_link instance_of
  provision = do
    get_service svc
    vm ← get
    zone ← request (query "zone" (vm.project ∷ vm.zone ∷ [])) (λ log. svc.get_zone log)
    machine_type ←
        request (query "machine type" (vm.project ∷ zone.name ∷ vm.machine_type ∷ []))
          (λ log. svc.get_machine_type log zone.name)
    network ← request (query "network" (vm.project ∷ vm.network ∷ [])) (λ log. svc.get_network log)
    if not network.auto_create_subnetworks
          && not (no_subnetworks network.subnetworks)
          && (vm.subnetwork == "")
        then fail (new "a subnetwork must be specified")
        else (do
          link ← subnetwork_link
          disks ← create_disks svc
          let c = insert_instance (instance_of vm machine_type network link disks)
          op ← request (change vm.project (zone.name ∷ []) c) (λ log. svc.change_reply log c)
          wait_for_operation_ready svc op.name
          instance ← get_instance svc
          pure tt)

  unfoldable pub start : Method Nothing
  unfolding found_to_start
  start = do
    get_service svc
    reply ← attempt (get_instance svc)
    lift (found_to_start reply)
    change_instance svc start_instance

  -- Halt.
  unfoldable pub stop : Method Nothing
  unfolding found_to_stop
  stop = do
    get_service svc
    reply ← attempt (get_instance svc)
    lift (found_to_stop reply)
    change_instance svc stop_instance

  -- Destroy.
  unfoldable pub delete : Method Nothing
  delete = do get_service svc; change_instance svc delete_instance

  unfoldable pub reset : Method Nothing
  reset = do
    get_service svc
    instance ← get_instance svc
    if instance.status == "RUNNING"
        then change_instance svc reset_instance
        else fail (
            new (
              "instance " <> instance.name <> " is not in RUNNING status, cannot reset instance in "
              <> instance.status <> " status"))

  unfoldable pub get_state : Method String
  unfolding state_of
  get_state = do get_service svc; instance ← get_instance svc; pure (state_of instance.status)

  -- The parameter of InsertSSHKey is not read.
  unfoldable pub insert_ssh_key : String → Method Nothing
  insert_ssh_key public_key = do
    get_service svc
    vm ← get
    instance ← get_instance svc
    change_instance svc (set_metadata instance.fingerprint (ssh_key_of vm))

  unfoldable pub delete_disks : Method Nothing
  delete_disks = do
    get_service svc
    vm ← get
    errs ← delete_each svc vm.disks
    elim errs [ [] ↦ pure tt | e ∷ es ↦ fail (new (svc.format (combined (e ∷ es)))) ]

  unfoldable pub is_instance : Method Bool
  is_instance = do get_service svc; instance ← get_instance svc; pure true

  unfoldable pub instance_data : Method InstanceData
  instance_data = do
    get_service svc
    instance ← get_instance svc
    ips ← get_ips
    pure (record {
      name = instance.name;
      id = instance.id;
      status = instance.status;
      creation_timestamp = instance.creation_timestamp;
      private_ipv4 = svc.show_ip ips.1;
      public_ipv4 = svc.show_ip ips.0;
      volumes = volumes instance.disks;
    })

  unfoldable pub create_image : Method Nothing
  create_image = do
    get_service svc
    vm ← get
    change_project svc [] (insert_image vm.source_image vm.description vm.raw_disk_source)

  unfoldable pub delete_image_of : Method Nothing
  delete_image_of = do
    get_service svc
    vm ← get
    change_project svc (vm.source_image ∷ []) (delete_image vm.source_image)

pub suspend : Method Nothing
suspend = fail (new "Suspend action not supported by GCE")

pub resume : Method Nothing
resume = fail (new "Resume action not supported by GCE")

pub validate_auth : Method Nothing
validate_auth = fail (new "Action : validate auth not supported")
