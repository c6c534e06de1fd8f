-- ===== src/Vsphere/Tests/Inventory.antt =====
-- A server with a few machines, for tests.
use libretto.Base.{ℕ, String, Bool, true, false, none, some, List, [], ◌∷◌, ◌==◌, if◌then◌else◌}
use libretto.Go.Error.{new}
use libretto.Go.Result.{ok, Reply, answer}
use libretto.Go.Action.{World}
use libretto.Vsphere.Types.{Vm, Mor, Network}
use libretto.Vsphere.Api.{
  Cloud, Call, Device, Kind, virtual_disk, vmxnet3, Backing, file, no_backing, MoVm, MoDatacenter,
  wait_task, clone,
}

abbrev pub mor : String → String → Mor
mor type value = record { type = type; value = value }

abbrev pub device : ℕ → Kind → Backing → ℕ → Device
device key kind backing kb = record {
  key = key;
  kind = kind;
  label = "";
  backing = backing;
  mac_address = "";
  controller_key = 0;
  unit_number = none;
  capacity_in_kb = kb;
  capacity_in_bytes = 0;
}

abbrev pub boot_disk : Device
boot_disk = device 2000 virtual_disk (file "boot.vmdk" none none) 100

abbrev pub card : Device
card = device 4000 vmxnet3 no_backing 0

abbrev pub machine_of : String → MoVm
machine_of value = record {
  self = mor "VirtualMachine" value;
  name = value;
  config = some (record {
    template = false;
    guest_full_name = "Linux";
    hardware = record { num_cpu = 2; memory_mb = 1024; device = boot_disk ∷ card ∷ [] };
  });
  guest = some (record {
    guest_state = "notRunning";
    tools_running_status = "guestToolsNotRunning";
    tools_status = "toolsOk";
    net = [];
    ip_address = "";
    ip_stack = [];
  });
  datastore = [];
  snapshot = none;
  instance_uuid = "uuid";
  num_cpu = 2;
  memory_size_mb = 1024;
  overall_cpu_usage = 0;
  guest_memory_usage = 0;
  max_cpu_usage = 0;
  max_memory_usage = 0;
  custom_value = [];
  power_state = "poweredOff";
  connection_state = "connected";
  host = none;
  question = none;
  recent_task = [];
}

abbrev pub is_cloned : List Call → Bool
is_cloned [] = false
is_cloned (wait_task (clone template folder name spec) ∷ log) = true
is_cloned (c ∷ log) = is_cloned log

-- The machine "new" is there once it has been cloned.
abbrev pub machines : Bool → List Mor
machines true = mor "VirtualMachine" "new" ∷ mor "VirtualMachine" "base" ∷ []
machines false = mor "VirtualMachine" "base" ∷ []

abbrev pub children : List Call → String → List Mor
children log value =
    if value == "hosts"
    then mor "Folder" "racks" ∷ mor "ComputeResource" "esx" ∷ []
    else (if value == "vms"
        then mor "Folder" "prod" ∷ machines (is_cloned log)
        else (if value == "prod" then mor "VirtualMachine" "web" ∷ [] else []))

abbrev pub done : Reply (Unit {0})
done = answer tt

abbrev pub dc : MoDatacenter
dc = record {
  self = mor "Datacenter" "dc";
  name = "dc";
  host_folder = mor "Folder" "hosts";
  vm_folder = mor "Folder" "vms";
  datastore = mor "Datastore" "ssd" ∷ [];
  network = [];
}

abbrev pub small_cloud : Cloud ℕ
small_cloud = record {
  parse_url = λ u. answer u;
  connect_reply = λ log user password insecure. done;
  datacenters = λ log. answer (mor "Datacenter" "dc" ∷ []);
  datacenter_of = λ log m. answer dc;
  children_of = λ log m. answer (children log m.value);
  name_of = λ log m. answer m.value;
  compute_of = λ log m. answer (record {
    self = m;
    name = m.value;
    host = mor "HostSystem" "host-1" ∷ [];
    resource_pool = some (mor "ResourcePool" "pool");
    datastore = [];
    network = mor "Network" "lan" ∷ [];
    drs_enabled = some false;
  });
  host_of = λ log m. answer (record {
    self = m;
    name = m.value;
    network = mor "Network" "lan" ∷ [];
    datastore = mor "Datastore" "ssd" ∷ [];
  });
  hosts_of = λ log ms. answer [];
  names_of = λ log ms. answer ("ssd" ∷ []);
  vm_of = λ log m ps. answer (machine_of m.value);
  by_uuid = λ log dc uuid. answer none;
  pools_at = λ log path. answer [];
  pools_of = λ log pools. answer [];
  unescape = λ s. answer s;
  fault_type = λ e. ok "NotFound";
  match_string = λ re s. answer false;
  to_lower = λ s. s;
  show_disk = λ d. "";
  ext = λ s. "";
  equal_fold = λ s t. s == t;
  answer_reply = λ log m q a. done;
  start_reply = λ log t. done;
  wait_reply = λ log t. answer none;
  guest_reply = λ log c. done;
  updates = λ log m timeout. ([], new "context deadline exceeded");
  tools_reply = λ log m. answer true;
  task_state = λ log m. answer "success";
  net_ips = λ log m. answer (("10.0.0.1" ∷ []) ∷ []);
  parse_ip = λ s. none;
  devices_of = λ log m. answer (boot_disk ∷ card ∷ []);
  find_controller = λ ds c. answer boot_disk;
  assign = λ ds c d. d;
  remove_reply = λ log m d. done;
  add_reply = λ log m d. done;
  port_group_backing = λ log m. answer no_backing;
  card_of = λ b. answer card;
  select_by_backing = λ ds b. ds;
  intn = λ log n. 0;
  spec_exists = λ log. answer true;
  create_spec = λ log. done;
  get_spec = λ log. answer (record { nics = []; dns_servers = [] });
  fields_manager = λ log. done;
  find_key = λ log name. answer (some 1);
  add_field = λ log name type. answer 1;
  set_field = λ log m key text. done;
  temp_dir = λ log. answer "/tmp/ova";
  download_ova = λ log dir url. answer "a.ovf";
  read_ovf = λ log path. answer "";
  import_spec = λ log text pool ds host name. answer none;
  import_app = λ log pool. done;
  upload_reply = λ log pool. done;
  in_kb = λ n. n;
  to_int = λ n. n;
  of_bytes = λ n. n;
  show_mor = λ m. m.value;
  show_networks = λ ns. "";
  show_cards = λ cs. "";
  show_number = λ n. "";
  format = λ s. s;
}

abbrev pub lan : Network
lan = record { name = "lan"; description = ""; operation = ""; device_key = none }

-- A machine to make on the host "esx" from the template "base".
abbrev pub new_vm : Vm ℕ
new_vm = record {
  host = "vcenter";
  destination = record {
    destination_name = "esx";
    destination_type = "host";
    host_system = "";
    moid = "";
  };
  username = "";
  password = "";
  insecure = false;
  datacenter = "dc";
  flavor = record { name = ""; num_cpus = 1; memory_mb = 512 };
  ovf_path = "";
  ova_path_url = "";
  networks = lan ∷ [];
  name = "new";
  instance_uuids = [];
  template = record { name = "base"; instance_uuid = "" };
  datastores = "ssd" ∷ [];
  use_local_templates = false;
  skip_existing = some 2;
  credentials = record { ssh_user = ""; ssh_password = ""; ssh_private_key = "" };
  fixed_disks = [];
  disks = [];
  question_responses = [];
  use_linked_clones = false;
  skip_ip_wait = true;
  nested_hv = false;
  datastore = "ssd";
  network_setting = record { ip = ""; subnet_mask = ""; gateway = ""; dns_server = "" };
}

abbrev pub world : Vm ℕ → World (Vm ℕ) Call
world vm = record { vm = vm; log = [] }

-- The machine "web" in the folder "prod".
abbrev pub web_vm : Vm ℕ
web_vm = record new_vm { name = "prod/web" }
