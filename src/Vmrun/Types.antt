-- ===== src/Vmrun/Types.antt =====
-- virtualmachine/vmrun/vm.go: the structs, and the Runner of vmrun, which is a parameter, with the
-- functions on files that the operations use.
use libretto.Base.{ℕ, String, List, Option}
use libretto.Ssh.{Ip, Credentials}
use libretto.Go.Error.{Error}
use libretto.Go.Result.{Reply}
use libretto.Go.Action.{World, Action}

pub data Backing : Type 0 where
  nat : Backing
  bridged : Backing
  unsupported : Backing

pub record Nic : Type 0 where
  pub idx : ℕ
  pub backing : Backing
  pub backing_device : String

pub record Config : Type 0 where
  pub nics : List Nic

pub record Vm : Type 0 where
  pub name : String
  pub src : String
  pub dst : String
  pub vmx_file_path : String
  pub ips : List Ip
  pub credentials : Credentials
  pub config : Config

pub record Output : Type 0 where
  pub stdout : String
  pub stderr : String
  pub error : Option Error

pub data Call : Type 0 where
  vmrun : List String → Call
  remove_all : String → Call
  read_file : String → Call
  write_file : String → String → Call
  open_file : String → Call
  create_file : String → Call
  copy_data : String → String → Call
  stat_file : String → Call

-- Each answer depends on the calls before it.
pub record Host : Type 0 where
  pub run : List Call → List String → Output
  pub remove : List Call → String → Reply (Unit {0})
  pub read : List Call → String → Reply String
  pub write : List Call → String → String → Reply (Unit {0})
  pub open_reply : List Call → String → Reply (Unit {0})
  pub create : List Call → String → Reply (Unit {0})
  pub copy : List Call → String → String → Reply (Unit {0})
  -- the mode of a file
  pub stat : List Call → String → Reply ℕ
  -- filepath.EvalSymlinks, filepath.Abs and the second result of filepath.Split
  pub eval_symlinks : List Call → String → Reply String
  pub abs : List Call → String → Reply String
  pub file_of : String → String
  pub parse_ip : String → Ip
  -- %d, and what html/template writes for a text
  pub decimal : ℕ → String
  pub escaped : String → String

abbrev pub Method : Type 0 → Type 0
Method A = Action (World Vm Call) A

abbrev pub Nothing : Type 0
Nothing = Unit {0}
