-- ===== src/Sessions.antt =====
-- GetSSH, which the providers have in two forms: some build an SSH client for the VM, and some also wait
-- until it connects. The VM's GetIPs and its credentials are parameters.
pub mod Ends
mod Tests
use libretto.Base.{ℕ, suc, false, Option, none, some, List, [], ◌+◌, ◌/◌}
use libretto.Ssh.{Ip, Credentials, Options}
use libretto.Ssh.Client.{SshClient, Server, Call, Nothing, five_seconds, wait_for_ssh}
use libretto.Go.Result.{Result, ok, err, panic, first}
use libretto.Go.Action.{World, Action, ◌>>=◌, ◌>>◌, get, pure, lift}
use libretto.Util.{get_vm_ips}

-- A client that is not connected.
abbrev pub new_client : Credentials → Ip → Options → SshClient
new_client creds ip options = record {
  creds = creds;
  ip = ip;
  port = 22;
  options = options;
  crypto_client = none;
  close = false;
}

abbrev pub fresh : SshClient → World SshClient Call
fresh client = record { vm = client; log = [] }

-- After WaitForSSH: the client, or its error; none where its fuel ran out.
abbrev pub session_of : Result (Option Nothing) × World SshClient Call → Result (Option SshClient)
session_of (ok (some a), w) = ok (some w.vm)
session_of (ok none, w) = ok none
session_of (err e, w) = err e
session_of (panic, w) = panic

-- One round of WaitForSSH more than its longest wait has pauses.
abbrev pub session_fuel : ℕ → ℕ
session_fuel max_wait = suc (max_wait / five_seconds + 1)

module _ {V C : Type 0} (get_ips : Action (World V C) (List Ip)) (creds_of : V → Credentials) where
  unfoldable pub build_session : Options → Action (World V C) SshClient
  build_session options = do
    ips ← get_vm_ips get_ips options
    vm ← get
    ip ← lift (first ips)
    pure (new_client (creds_of vm) ip options)

  unfoldable pub waited_session : Server → ℕ → Options → Action (World V C) (Option SshClient)
  waited_session server max_wait options = do
    client ← build_session options
    lift (session_of (wait_for_ssh server (session_fuel max_wait) max_wait (fresh client)))
