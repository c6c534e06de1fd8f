-- ===== src/Exoscale/Session.antt =====
-- virtualmachine/exoscale/vm.go: GetSSH.
use libretto.Base.{ℕ, Option}
use libretto.Ssh.{Options}
use libretto.Ssh.Client.{SshClient, Server}
use libretto.Sessions.{waited_session}
use libretto.Exoscale.Api.{Cloud, Method}
use libretto.Exoscale.Machines.{get_ips}

-- Nanoseconds.
abbrev pub ssh_timeout : ℕ
ssh_timeout = 30000000000

pub get_ssh : Cloud → Server → Options → Method (Option SshClient)
get_ssh svc server = waited_session (get_ips svc) (λ vm. vm.ssh_creds) server ssh_timeout
