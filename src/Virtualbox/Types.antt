-- ===== src/Virtualbox/Types.antt =====
-- virtualmachine/virtualbox/vm.go: the structs, and the Runner of VBoxManage, which is a parameter.
use libretto.Base.{ℕ, String, List, Option, none, some, ◌==◌, ◌<>◌, if◌then◌else◌}
use libretto.Ssh.{Ip, Credentials}
use libretto.Go.Error.{Error, new, message}
use libretto.Go.Result.{Result, ok, err}
use libretto.Go.Action.{World, Action}

pub data Backing : Type 0 where
  nat : Backing
  bridged : Backing
  unsupported : Backing
  disabled : Backing

-- NIC; its field runner is never read.
pub record Nic : Type 0 where
  pub idx : ℕ
  pub backing : Backing
  pub backing_device : String

pub record Config : Type 0 where
  pub nics : List Nic

-- ipUpdate is a list of keys and values in which each key stands once.
pub record Vm : Type 0 where
  pub src : String
  pub ips : List Ip
  pub credentials : Credentials
  pub name : String
  pub config : Config
  pub ip_update : List (String × String)

pub record Output : Type 0 where
  pub stdout : String
  pub stderr : String
  pub error : Option Error

-- `run` is Runner.Run of the arguments, after the runs before it.
pub record Host : Type 0 where
  pub run : List (List String) → List String → Output
  -- uuid.Variant4
  pub variant4 : List (List String) → String
  -- filepath.Abs
  pub abs : String → Result String
  pub parse_ip : String → Ip
  -- %d
  pub decimal : ℕ → String

-- A method of VM; a call is a run of VBoxManage with its arguments.
abbrev pub Method : Type 0 → Type 0
Method A = Action (World Vm (List String)) A

abbrev pub Nothing : Type 0
Nothing = Unit {0}

-- RunCombinedError's error, from what Run returned.
unfoldable pub combined : Output → Result String
combined out = elim (out.error) [
  | none ↦ ok out.stdout
  | some e ↦ if out.stderr == "" then err e else err (new (message e <> ": " <> out.stderr))
]
