-- ===== src/Exoscale/Machines.antt =====
-- virtualmachine/exoscale: updateInfo of util.go, and the operations of vm.go.
use libretto.Base.{
  String, Bool, false, List, [], ◌∷◌, ◌++◌, map, ◌==◌, ◌<>◌, ◌||◌, equal, if◌then◌else◌,
}
use libretto.Ssh.{Ip}
use libretto.Machine.{err_suspend_not_supported, err_resume_not_supported}
use libretto.Go.Error.{new}
use libretto.Go.Result.{answer, failure, first}
use libretto.Go.Action.{◌>>=◌, ◌>>◌, get, put, pure, fail, lift, request, wrap, attempt}
use libretto.Exoscale.Types.{Vm, SecurityGroup}
use libretto.Exoscale.Api.{Cloud, Method, MachineProfile, MachineOutput, Nic, create_machine}
use libretto.Exoscale.Lookups.{
  Nothing, ask, decoded, fill_template_id, fill_service_offering_id, fill_security_groups_id,
  fill_zone_id,
}

-- `for … { if sg.ID == "" { …; break } }`.
pub any_blank : List SecurityGroup → Bool
any_blank [] = false
any_blank (g ∷ gs) = g.id == "" || any_blank gs

unfoldable pub profile_of : Vm → MachineProfile
profile_of vm = record {
  template = vm.template.id;
  service_offering = vm.service_offering.id;
  security_groups = map (λ (g : SecurityGroup). g.id) vm.security_groups;
  keypair = vm.keypair_name;
  userdata = vm.userdata;
  zone = vm.zone.id;
  name = vm.name;
}

-- The addresses of the network cards, the one of IP version 4 first.
pub nic_ips : (String → Ip) → List Nic → List Ip
nic_ips parse [] = []
nic_ips parse (n ∷ ns) =
    (if n.ip_address == "" then [] else parse n.ip_address ∷ [])
    ++ (if n.ip6_address == "" then [] else parse n.ip6_address ∷ [])
    ++ nic_ips parse ns

-- What updateInfo writes to the VM.
pub with_info : (String → Ip) → MachineOutput → Vm → Vm
unfolding nic_ips
with_info parse m vm =
    let template = vm.template in
    record vm {
      template = record template {
        id = m.template_id;
        name = m.template_name;
        zone_name = m.zone_name;
      };
      service_offering = record { id = m.service_offering_id; name = m.service_offering_name };
      name = m.display_name;
      ips = nic_ips parse m.nics;
      keypair_name = m.keypair;
      state = m.state;
    }

module _ (svc : Cloud) where
  pub update_info : Method Nothing
  unfolding with_info
  update_info = do
    vm ← get
    if vm.id == "" then fail (new "Need an ID to retrieve virtual machine Info") else pure tt
    let prefix = "Listing virtual machine " <> svc.quoted vm.id <> " to update info: "
    raw ← wrap prefix (ask svc "listVirtualMachines" (("id", vm.id) ∷ []))
    found ← wrap prefix (decoded (svc.decode_machines raw))
    if equal found.count 1
        then pure tt
        else fail (
            new (
              "Expected 1 virtual machine in listing matching "
              <> svc.quoted vm.id
              <> ", but returned "
              <> svc.decimal found.count))
    machine ← lift (first found.entries)
    put (with_info svc.parse_ip machine vm)

  -- An error is dropped, with the name.
  pub get_name : Method String
  get_name = do
    updated ← attempt (update_info)
    vm ← get
    pure (elim updated [ answer a ↦ vm.name | failure e ↦ "" ])

  -- The lookups before the creation; that of the security groups drops its error.
  unfoldable pub look_up : Method Nothing
  unfolding any_blank
  look_up = do
    vm ← get
    if vm.template.id == "" then fill_template_id svc else pure tt
    if vm.service_offering.id == "" then fill_service_offering_id svc else pure tt
    if any_blank vm.security_groups
        then (do dropped ← attempt (fill_security_groups_id svc); pure tt)
        else pure tt
    if vm.zone.id == "" then fill_zone_id svc else pure tt

  unfoldable pub provision : Method Nothing
  unfolding profile_of
  provision = do
    look_up
    vm ← get
    job ← request (create_machine (profile_of vm)) (λ log. svc.create log (profile_of vm))
    put (record vm { job_id = job })

  pub get_ips : Method (List Ip)
  get_ips = do update_info; vm ← get; pure vm.ips

  pub get_state : Method String
  get_state = do
    vm ← get
    if vm.id == "" then fail (new "Need an ID to get virtual machine state") else pure tt
    update_info
    updated ← get
    pure updated.state

  -- The bodies of Destroy, Halt and Start: the command, and the two words of their errors.
  run_command : (command verb doing : String) → Method Nothing
  run_command command verb doing = do
    vm ← get
    if vm.id == "" then fail (new ("Need an ID to " <> verb <> " the virtual machine")) else pure tt
    let prefix = doing <> " virtual machine " <> svc.quoted vm.id <> ": "
    raw ← wrap prefix (ask svc command (("id", vm.id) ∷ []))
    job ← wrap prefix (decoded (svc.decode_job_id command raw))
    put (record vm { job_id = job })

  pub destroy : Method Nothing
  unfolding run_command
  destroy = run_command "destroyVirtualMachine" "destroy" "Destroying"

  pub halt : Method Nothing
  unfolding run_command
  halt = run_command "stopVirtualMachine" "stop" "Stopping"

  pub start : Method Nothing
  unfolding run_command
  start = run_command "startVirtualMachine" "start" "Starting"

pub suspend : Method Nothing
suspend = fail err_suspend_not_supported

pub resume : Method Nothing
resume = fail err_resume_not_supported
