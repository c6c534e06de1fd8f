-- ===== src/Vsphere/Api.antt =====
-- What virtualmachine/vsphere uses of govmomi, of net/url, net/http, regexp and of files, as a
-- parameter. The packages are vendored or of Go, so nothing is said here of how they answer.
use libretto.Base.{ℕ, String, Bool, List, Option}
use libretto.Ssh.{Ip}
use libretto.Go.Error.{Error}
use libretto.Go.Result.{Result, Reply}
use libretto.Go.Action.{World, Action}
use libretto.Vsphere.Types.{Vm, Mor, Network, Disk}

-- The kinds of virtual device that the program tells apart. An `other_card` is an ethernet card that
-- is none of the three.
pub data Kind : Type 0 where
  virtual_disk e1000 e1000e vmxnet3 other_card other_device : Kind

-- `file` is the backing by a file, with its name and, where it is a VirtualDiskFlatVer2BackingInfo, the
-- flag ThinProvisioned, and its
-- datastore. `network` is a card's with the name of the network, `port_group` with the key
-- of the port group and the switch's uuid.
pub data Backing : Type 0 where
  no_backing other_backing : Backing
  file : String → Option (Option Bool) → Option Mor → Backing
  network : String → Option Mor → Backing
  port_group : String → String → Backing

pub record Device : Type 0 where
  pub key : ℕ
  pub kind : Kind
  pub label : String
  pub backing : Backing
  pub mac_address : String
  pub controller_key : ℕ
  pub unit_number : Option ℕ
  pub capacity_in_kb : ℕ
  pub capacity_in_bytes : ℕ

-- VirtualDeviceConfigSpec.
pub data Operation : Type 0 where
  add edit remove : Operation

pub record DeviceSpec : Type 0 where
  pub operation : Operation
  pub device : Device

pub record Question : Type 0 where
  pub id : String
  pub text : String
  -- the key and the summary of each choice
  pub choices : List (String × String)

-- mo.VirtualMachine: the fields that the program reads. `hardware` is Config.Hardware.
pub record Hardware : Type 0 where
  pub num_cpu : ℕ
  pub memory_mb : ℕ
  pub device : List Device

pub record VmConfig : Type 0 where
  pub template : Bool
  pub guest_full_name : String
  pub hardware : Hardware

pub record Guest : Type 0 where
  pub guest_state : String
  pub tools_running_status : String
  pub tools_status : String
  -- the addresses of each card
  pub net : List (List String)
  pub ip_address : String
  -- the addresses of the dns servers of each stack
  pub ip_stack : List (List String)

pub record MoVm : Type 0 where
  pub self : Mor
  pub name : String
  pub config : Option VmConfig
  pub guest : Option Guest
  pub datastore : List Mor
  -- Snapshot, and its CurrentSnapshot
  pub snapshot : Option (Option Mor)
  pub instance_uuid : String
  pub num_cpu : ℕ
  pub memory_size_mb : ℕ
  pub overall_cpu_usage : ℕ
  pub guest_memory_usage : ℕ
  pub max_cpu_usage : ℕ
  pub max_memory_usage : ℕ
  -- the key and the text of each custom value, which is none where the value is of another type
  pub custom_value : List (ℕ × Option String)
  pub power_state : String
  pub connection_state : String
  pub host : Option Mor
  pub question : Option Question
  pub recent_task : List Mor

pub record MoDatacenter : Type 0 where
  pub self : Mor
  pub name : String
  pub host_folder : Mor
  pub vm_folder : Mor
  pub datastore : List Mor
  pub network : List Mor

-- mo.ComputeResource and mo.ClusterComputeResource; `drs_enabled` is Configuration.DrsConfig.Enabled.
pub record MoCompute : Type 0 where
  pub self : Mor
  pub name : String
  pub host : List Mor
  pub resource_pool : Option Mor
  pub datastore : List Mor
  pub network : List Mor
  pub drs_enabled : Option Bool

pub record MoHost : Type 0 where
  pub self : Mor
  pub name : String
  pub network : List Mor
  pub datastore : List Mor

-- A customization: the address, the mask and the gateways of each card, and the dns servers.
pub record Nic : Type 0 where
  pub ip : String
  pub subnet_mask : String
  pub gateway : List String

pub record CustomSpec : Type 0 where
  pub nics : List Nic
  pub dns_servers : List String

-- What a clone is made from: its place, its configuration and its customization.
pub record CloneSpec : Type 0 where
  pub pool : Mor
  pub host : Option Mor
  pub clone_datastore : Option Mor
  pub disk_move_type : String
  pub num_cpus : ℕ
  pub memory_mb : ℕ
  pub nested_hv : Bool
  pub device_change : List (Option DeviceSpec)
  pub customization : Option CustomSpec
  pub snapshot : Option Mor

pub record ConfigSpec : Type 0 where
  pub num_cpus : Option ℕ
  pub memory_mb : Option ℕ
  pub device_change : List DeviceSpec

-- The requests that change something on the server: those that are tasks, then the others.
pub data Task : Type 0 where
  power_on power_off suspend reset destroy : Mor → Task
  clone : Mor → Mor → String → CloneSpec → Task
  reconfigure : Mor → ConfigSpec → Task
  create_snapshot : Mor → String → String → Task

pub data Call : Type 0 where
  connect cancel : Call
  list_datacenters : Call
  set_datacenter : Mor → Call
  retrieve : Mor → List String → Call
  retrieve_all : List Mor → List String → Call
  find_by_uuid : Option Mor → String → Call
  list_resource_pools : String → Call
  answer_question : Mor → String → String → Call
  start_task : Task → Call
  wait_task : Task → Call
  wait_recent : Mor → Call
  shutdown_guest reboot_guest mark_as_template : Mor → Call
  tools_running wait_powered_off wait_net_ip : Mor → Call
  wait_property : Mor → String → Option ℕ → Call
  list_devices : Mor → Call
  add_device remove_device : Mor → Device → Call
  check_spec create_spec_call get_spec_call : Call
  find_field : String → Call
  add_field_call : String → String → Call
  set_field_call : Mor → ℕ → String → Call
  make_temp_dir : Call
  remove_all read_file : String → Call
  download : String → String → Call
  create_import : String → Call
  import_vapp upload_ovf : Mor → Call
  sleep : ℕ → Call
  random : Call

abbrev pub Method : Type 0 → Type 0 → Type 0
Method F A = Action (World (Vm F) Call) A

-- types.PropertyChange: the name of a property, and its value, a status.
pub record PropertyChange : Type 0 where
  pub name : String
  pub val : Option String

pub record Cloud (F : Type 0) : Type 0 where
  pub parse_url : String → Reply String
  pub connect_reply : List Call → String → String → Bool → Reply (Unit {0})
  pub datacenters : List Call → Reply (List Mor)
  pub datacenter_of : List Call → Mor → Reply MoDatacenter
  pub children_of : List Call → Mor → Reply (List Mor)
  pub name_of : List Call → Mor → Reply String
  pub compute_of : List Call → Mor → Reply MoCompute
  pub host_of : List Call → Mor → Reply MoHost
  pub hosts_of : List Call → List Mor → Reply (List MoHost)
  pub names_of : List Call → List Mor → Reply (List String)
  -- a machine, with the properties that are asked for
  pub vm_of : List Call → Mor → List String → Reply MoVm
  -- the object with this uuid, where it is a virtual machine
  pub by_uuid : List Call → Option Mor → String → Reply (Option Mor)
  -- the resource pools at a path, and pools with their owners
  pub pools_at : List Call → String → Reply (List Mor)
  pub pools_of : List Call → List Mor → Reply (List (Mor × Mor))
  pub unescape : String → Reply String
  -- the name of the type of the fault in a SOAP error
  pub fault_type : Error → Result String
  pub match_string : String → String → Reply Bool
  pub to_lower : String → String
  pub show_disk : Disk F → String
  -- filepath.Ext
  pub ext : String → String
  pub equal_fold : String → String → Bool
  pub answer_reply : List Call → Mor → String → String → Reply (Unit {0})
  pub start_reply : List Call → Task → Reply (Unit {0})
  -- what waiting for a task ends in: its info's error
  pub wait_reply : List Call → Task → Reply (Option Error)
  pub guest_reply : List Call → Call → Reply (Unit {0})
  -- property.Wait on a property, within a timeout: the updates that come, and the error of the wait's
  -- end where none of them stops it
  pub updates : List Call → Mor → Option ℕ → List (List PropertyChange) × Error
  pub tools_reply : List Call → Mor → Reply Bool
  pub task_state : List Call → Mor → Reply String
  pub net_ips : List Call → Mor → Reply (List (List String))
  pub parse_ip : String → Option Ip
  pub devices_of : List Call → Mor → Reply (List Device)
  pub find_controller : List Device → String → Reply Device
  -- AssignController: the device with its key, on a controller
  pub assign : List Device → Device → Device → Device
  pub remove_reply : List Call → Mor → Device → Reply (Unit {0})
  pub add_reply : List Call → Mor → Device → Reply (Unit {0})
  pub port_group_backing : List Call → Mor → Reply Backing
  pub card_of : Backing → Reply Device
  pub select_by_backing : List Device → Backing → List Device
  -- rand.Intn, a number below the argument
  pub intn : List Call → ℕ → ℕ
  pub spec_exists : List Call → Reply Bool
  pub create_spec : List Call → Reply (Unit {0})
  pub get_spec : List Call → Reply CustomSpec
  -- GetCustomFieldsManager; FindKey, which has no key for ErrKeyNameNotFound; the key of an added field
  pub fields_manager : List Call → Reply (Unit {0})
  pub find_key : List Call → String → Reply (Option ℕ)
  pub add_field : List Call → String → String → Reply ℕ
  pub set_field : List Call → Mor → ℕ → String → Reply (Unit {0})
  -- ioutil.TempDir; downloadOva and parseOvf: the path of the OVF file in an archive, and a file's text
  pub temp_dir : List Call → Reply String
  pub download_ova : List Call → String → String → Reply String
  pub read_ovf : List Call → String → Reply String
  -- CreateImportSpec with the text, the pool, the datastore, the host and the entity's name, and its error
  pub import_spec : List Call → String → Mor → Mor → Option Mor → String → Reply (Option Error)
  -- ImportVApp, and uploadOvf on its lease
  pub import_app : List Call → Mor → Reply (Unit {0})
  pub upload_reply : List Call → Mor → Reply (Unit {0})
  -- int64(disk.Size * 1024 * 1024), and int64(disk.Size)
  pub in_kb : F → ℕ
  pub to_int : F → ℕ
  pub of_bytes : ℕ → F
  pub show_mor : Mor → String
  pub show_networks : List Network → String
  pub show_cards : List (List String) → String
  pub show_number : ℕ → String
  pub format : String → String
