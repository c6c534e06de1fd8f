-- ===== src/Digitalocean/Types.antt =====
-- virtualmachine/digitalocean/vm.go: the structs. A pointer is an Option, an int is its 64 bits, a
-- time its nanoseconds, and a float or an untyped value the text that it is read from.
use libretto.Base.{ℕ, String, Bool, List, Option}
use libretto.Ssh.{Credentials}
use libretto.Go.Error.{Error, new}

abbrev pub err_no_instance_id : Error
err_no_instance_id = new "Missing droplet ID"

abbrev pub api_base_url : String
api_base_url = "https://api.digitalocean.com"

abbrev pub api_droplet_url : String
api_droplet_url = "/v2/droplets"

pub record Config : Type 0 where
  pub name : String
  pub region : String
  pub size : String
  pub image : String
  pub ssh_keys : List String
  pub backups : Bool
  pub ipv6 : Bool
  pub private_networking : Bool
  pub user_data : String

pub record Kernel : Type 0 where
  pub id : ℕ
  pub name : String
  pub version : String

pub record V4Network : Type 0 where
  pub ip_address : String
  pub netmask : String
  pub gateway : String
  pub type : String

pub record V6Network : Type 0 where
  pub ip_address : String
  pub netmask : ℕ
  pub gateway : String
  pub type : String

pub record Networks : Type 0 where
  pub v4 : List (Option V4Network)
  pub v6 : List (Option V6Network)

pub record Region : Type 0 where
  pub slug : String
  pub name : String
  pub sizes : List String
  pub available : Bool
  pub features : List String

pub record Image : Type 0 where
  pub id : ℕ
  pub name : String
  pub distribution : String
  pub slug : String
  pub public : Bool
  pub regions : List String
  pub created_at : ℕ

pub record Size : Type 0 where
  pub slug : String
  pub memory : ℕ
  pub vcpus : ℕ
  pub disk : ℕ
  pub transfer : String
  pub price_monthley : String
  pub price_hourly : String
  pub regions : List String

pub record Droplet : Type 0 where
  pub id : ℕ
  pub name : String
  pub region : Option Region
  pub image : Option Image
  pub size : Option Size
  pub size_slug : String
  pub locked : Bool
  pub status : String
  pub networks : Option Networks
  pub kernel : Option Kernel
  pub created_at : ℕ
  pub backup_ids : List ℕ
  pub snapshot_ids : List ℕ
  pub action_ids : List ℕ

pub record Meta : Type 0 where
  pub total : ℕ

pub record DropletsResponse : Type 0 where
  pub droplets : List (Option Droplet)
  pub meta : Option Meta

pub record DropletResponse : Type 0 where
  pub droplet : Option Droplet

pub record Vm : Type 0 where
  pub api_token : String
  pub credentials : Credentials
  pub config : Config
  pub droplet : Option Droplet
