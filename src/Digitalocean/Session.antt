-- ===== src/Digitalocean/Session.antt =====
-- virtualmachine/digitalocean/vm.go: GetSSH.
use libretto.Ssh.{Options}
use libretto.Ssh.Client.{SshClient}
use libretto.Sessions.{build_session}
use libretto.Digitalocean.Http.{Api}
use libretto.Digitalocean.Droplets.{Method, get_ips}

pub get_ssh : Api → Options → Method SshClient
get_ssh api = build_session (get_ips api) (λ vm. vm.credentials)
