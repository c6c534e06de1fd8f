-- ===== src/Exoscale/Types.antt =====
-- virtualmachine/exoscale/vm.go: the structs. An int is its 64 bits, a number below 2 ^ 64.
use libretto.Base.{ℕ, String, List}
use libretto.Ssh.{Ip, Credentials}

pub record Config : Type 0 where
  pub endpoint : String
  pub api_key : String
  pub api_secret : String

pub record Template : Type 0 where
  pub id : String
  pub name : String
  pub zone_name : String
  pub storage_gb : ℕ

pub record ServiceOffering : Type 0 where
  pub id : String
  pub name : String

pub record SecurityGroup : Type 0 where
  pub id : String
  pub name : String

pub record Zone : Type 0 where
  pub id : String
  pub name : String

pub record Vm : Type 0 where
  pub config : Config
  pub name : String
  pub template : Template
  pub service_offering : ServiceOffering
  pub security_groups : List SecurityGroup
  pub keypair_name : String
  pub userdata : String
  pub zone : Zone
  pub id : String
  pub job_id : String
  pub ssh_creds : Credentials
  pub ips : List Ip
  pub state : String
