-- ===== src/Openstack/Servers.antt =====
-- virtualmachine/openstack: the server of a VM, its state, Halt and the deletion.
pub mod Deletion
pub mod Halting
use libretto.Base.{ℕ, String, Option, none, some, ◌∷◌, ◌==◌, ◌<>◌, not, if◌then◌else◌}
use libretto.Go.Error.{Error, new}
use libretto.Go.Result.{Result, ok, err}
use libretto.Go.Action.{◌>>=◌, ◌>>◌, get, pure, lift, send, fail, wrap, request}
use libretto.Go.Retry.{Verdict, again, stop, retry}
use libretto.Machine.{
  vm_running, vm_halted, vm_error, vm_unknown, err_vm_info_failed, err_suspend_not_supported,
  err_resume_not_supported,
}
use libretto.Openstack.Types.{
  state_active, state_shut_off, state_error, action_timeout, err_action_timeout,
}
use libretto.Openstack.Api.{Cloud, Method, get_server, delete_server, stop_server}
use libretto.Openstack.Clients.{get_compute_client, check_id, pause}

abbrev Nothing : Type 0
Nothing = Unit {0}

-- `if status != nil && err != nil`: an error beside no server is dropped.
pub extract : Option String × Option Error → Result (Option String)
extract (some status, some e) = err (new "failed to retrieve the server for VM")
extract (some status, none) = ok (some status)
extract (none, e) = ok none

-- The state for a server's status.
pub state_of : Option String → Result String
state_of none = err err_vm_info_failed
state_of (some status) =
    if status == state_active
    then ok vm_running
    else if status == state_shut_off
    then ok vm_halted
    else if status == state_error
    then ok vm_error
    else ok vm_unknown

-- The status of the server, if there is one, in the round of deleteVM's loop.
unfoldable pub gone_test : Option String → Result (Verdict Nothing Nothing)
gone_test none = ok (stop tt)
gone_test (some status) =
    if status == state_error then err (new "error on destroying the vm") else ok (again tt)

module _ (svc : Cloud) where
  unfoldable pub the_server : Method (Option String)
  unfolding extract
  the_server = do
    vm ← get
    check_id vm
    get_compute_client svc
    reply ← send (get_server vm.instance_id) (λ log. svc.server log vm.instance_id)
    lift (extract reply)

  unfoldable pub get_state : Method String
  unfolding state_of
  get_state = do server ← the_server; lift (state_of server)

  state_round : String → ℕ → Nothing → Method (Verdict Nothing Nothing)
  state_round state i l = do
    current ← get_state
    pause (
        if current == state
        then ok (stop tt)
        else if current == vm_error
        then err (new ("failed to bring the VM to state: " <> state))
        else ok (again tt))

  pub wait_until : String → Method Nothing
  unfolding state_round retry
  wait_until state = retry (state_round state) (λ l. fail err_action_timeout) action_timeout 0 tt

  pub halt : Method Nothing
  halt = do
    vm ← get
    check_id vm
    wrap "compute client is not set for the VM, " (get_compute_client svc)
    state ← get_state
    if not (state == vm_running)
        then fail (new "the VM is not active, so cannot be halted")
        else pure tt
    wrap "failed to stop the instance: "
        (request (stop_server vm.instance_id) (λ log. svc.stop log vm.instance_id))
    wait_until vm_halted

  pub gone_round : ℕ → Nothing → Method (Verdict Nothing Nothing)
  gone_round i l = do server ← the_server; pause (gone_test server)

  unfoldable pub delete_vm : Method Nothing
  unfolding gone_round retry
  delete_vm = do
    vm ← get
    wrap "failed to destroy the vm: "
        (request (delete_server vm.instance_id) (λ log. svc.remove_server log vm.instance_id))
    retry gone_round (λ l. fail err_action_timeout) action_timeout 0 tt

pub suspend : Method Nothing
suspend = fail err_suspend_not_supported

pub resume : Method Nothing
resume = fail err_resume_not_supported
