-- ===== src/Gcp/Session.antt =====
-- virtualmachine/gcp/vm.go: GetSSH, which does not look at the addresses of the options.
use libretto.Base.{ℕ, Option}
use libretto.Ssh.{Options}
use libretto.Ssh.Client.{SshClient, Server, wait_for_ssh}
use libretto.Go.Action.{◌>>=◌, get, lift}
use libretto.Sessions.{new_client, fresh, session_of, session_fuel}
use libretto.Gcp.Api.{Cloud, Method}
use libretto.Gcp.Instances.{get_ips}

-- Nanoseconds.
abbrev pub ssh_timeout : ℕ
ssh_timeout = 180000000000

pub get_ssh : Cloud → Server → Options → Method (Option SshClient)
get_ssh svc server options = do
  ips ← get_ips svc
  vm ← get
  let client = new_client vm.ssh_creds ips.0 options
  lift (session_of (wait_for_ssh server (session_fuel ssh_timeout) ssh_timeout (fresh client)))
