-- ===== src/Ssh.antt =====
-- ssh/ssh.go: the credentials and options that every provider hands to its SSH client.
pub mod Client
pub mod Transfer
pub mod KeepAlive
mod Tests
use libretto.Base.{ℕ, String, Bool, List, Option}

-- net.IP: the bytes of an address, or nil.
abbrev pub Ip : Type 0
Ip = Option (List ℕ)

-- Credentials, without its mutex: each method of the model runs to its end.
pub record Credentials : Type 0 where
  pub ssh_user : String
  pub ssh_password : String
  pub ssh_private_key : String

pub record Options : Type 0 where
  pub ips : List Ip
  pub keep_alive : ℕ
  pub pty : Bool
