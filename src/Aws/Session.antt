-- ===== src/Aws/Session.antt =====
-- virtualmachine/aws/vm.go: GetSSH.
use libretto.Base.{ℕ, Option}
use libretto.Ssh.{Options}
use libretto.Ssh.Client.{SshClient, Server}
use libretto.Sessions.{waited_session}
use libretto.Aws.Api.{Ec2, Method}
use libretto.Aws.Lifecycle.{get_ips}

-- Nanoseconds.
abbrev pub ssh_timeout : ℕ
ssh_timeout = 300000000000

pub get_ssh : Ec2 → Server → Options → Method (Option SshClient)
get_ssh svc server = waited_session (get_ips svc) (λ vm. vm.ssh_creds) server ssh_timeout
