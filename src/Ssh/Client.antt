-- ===== src/Ssh/Client.antt =====
-- ssh/ssh.go: SSHClient, without its transfers. golang.org/x/crypto/ssh and the clock are parameters.
pub mod Waits
use libretto.Base.{
  ℕ, zero, suc, String, Bool, true, false, Option, none, some, List, ◌∷◌, ◌==◌, ◌<>◌, ◌&&◌, ◌-◌,
  ltb, equal, if◌then◌else◌,
}
use libretto.Ssh.{Ip, Credentials, Options}
use libretto.Go.Error.{Error, new}
use libretto.Go.Result.{Result, ok, err, Reply, answer, failure}
use libretto.Go.Action.{
  World, Action, ◌>>=◌, ◌>>◌, get, put, pure, fail, lift, request, note, calls, attempt,
}

abbrev pub err_invalid_username : Error
err_invalid_username = new "A valid username must be supplied"

abbrev pub err_invalid_auth : Error
err_invalid_auth = new "Invalid authorization method: missing password or key"

abbrev pub err_timeout : Error
err_timeout = new "Timed out waiting for sshd to respond"

abbrev pub ssh_port : ℕ
ssh_port = 22

abbrev pub password_auth : String
password_auth = "password"

abbrev pub key_auth : String
key_auth = "key"

-- An AuthMethod; the variable of getAuth starts as nil.
pub data Auth : Type 0 where
  no_auth : Auth
  password : String → Auth
  public_keys : String → Auth

-- `crypto_client` is the number of a connection. `close` tells whether client.close is a channel; a
-- channel in it is open, since Disconnect sets it to nil when it closes the channel.
pub record SshClient : Type 0 where
  pub creds : Credentials
  pub ip : Ip
  pub port : ℕ
  pub options : Options
  pub crypto_client : Option ℕ
  pub close : Bool

pub data Call : Type 0 where
  dial : String → String → Auth → Call
  keep_alive : Call
  sleep : ℕ → Call

pub record Server : Type 0 where
  pub connection : List Call → String → String → Auth → Reply ℕ
  -- the error of ParsePrivateKey, if any
  pub invalid_key : String → Option Error
  -- "%s:%d"
  pub address : Ip → ℕ → String
  -- the nanoseconds that time.Now returns after these calls
  pub now : List Call → ℕ

abbrev pub Method : Type 0 → Type 0
Method A = Action (World SshClient Call) A

abbrev pub Nothing : Type 0
Nothing = Unit {0}

unfoldable pub validate : Credentials → Result Nothing
validate creds =
    if creds.ssh_user == ""
    then err err_invalid_username
    else if (creds.ssh_private_key == "") && (creds.ssh_password == "")
    then err err_invalid_auth
    else ok tt

-- What Disconnect leaves: a channel is closed and forgotten.
unfoldable pub disconnect : Method Nothing
disconnect = do client ← get; put (record client { close = false })

pub set_ssh_private_key : String → Method Nothing
set_ssh_private_key s = do
  client ← get
  let creds = client.creds
  put (record client { creds = record creds { ssh_private_key = s } })

pub get_ssh_private_key : Method String
get_ssh_private_key = do client ← get; let creds = client.creds; pure creds.ssh_private_key

pub set_ssh_password : String → Method Nothing
set_ssh_password s = do
  client ← get
  let creds = client.creds
  put (record client { creds = record creds { ssh_password = s } })

pub get_ssh_password : Method String
get_ssh_password = do client ← get; let creds = client.creds; pure creds.ssh_password

-- time.Sleep of five seconds.
abbrev pub five_seconds : ℕ
five_seconds = 5000000000

module _ (server : Server) where
  unfoldable pub read_private_key : String → Result Auth
  read_private_key key = elim (server.invalid_key key) [
    | some e ↦ err e
    | none ↦ ok (public_keys key)
  ]

  unfoldable pub get_auth : Credentials → String → Result Auth
  unfolding read_private_key
  get_auth creds auth_type =
      if auth_type == password_auth
      then ok (password creds.ssh_password)
      else if auth_type == key_auth
      then read_private_key creds.ssh_private_key
      else ok no_auth

  unfoldable pub connect : Method Nothing
  unfolding validate get_auth
  connect = do
    client ← get
    let creds = client.creds
    lift (validate creds)
    auth ← lift (get_auth creds (if creds.ssh_private_key == "" then password_auth else key_auth))
    let port = if equal client.port 0 then ssh_port else client.port
    let addr = server.address client.ip port
    c ←
        request (dial addr creds.ssh_user auth)
          (λ log. server.connection log addr creds.ssh_user auth)
    put (record client { crypto_client = some c; close = true })
    let options = client.options
    if ltb 0 options.keep_alive then note keep_alive else pure tt

  abbrev pub Timed : Type 0 → Type 0
  Timed A = World SshClient Call → Result (Option A) × World SshClient Call

  -- A round of WaitForSSH after Connect, before the next rounds.
  abbrev pub connected : ℕ → ℕ → Timed Nothing → Reply Nothing → Timed Nothing
  connected max_wait start rest (answer a) = disconnect >> pure (some tt)
  connected max_wait start rest (failure e) = calls >>= λ log.
      if ltb (server.now log - start) max_wait
      then note (sleep five_seconds) >> rest
      else fail err_timeout

  -- The loop of WaitForSSH; it returns none if the fuel runs out.
  unfoldable pub wait_rounds : ℕ → ℕ → ℕ → Timed Nothing
  wait_rounds zero max_wait start = pure none
  wait_rounds (suc fuel) max_wait start =
      attempt connect >>= connected max_wait start (wait_rounds fuel max_wait start)

  unfoldable pub wait_for_ssh : ℕ → ℕ → Timed Nothing
  wait_for_ssh fuel max_wait = calls >>= λ log. wait_rounds fuel max_wait (server.now log)
