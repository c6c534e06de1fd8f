-- ===== src/Aws/Lifecycle/Destroy.antt =====
-- Destroy of virtualmachine/aws/vm.go.
use libretto.Base.{
  ℕ, ◌<◌, ◌≡◌, refl, String, true, false, ◌∷◌, ◌==◌, ◌≢◌, if◌then◌else◌, arith, lookup, some,
  eq_iff,
}
use libretto.Go.Result.{ok, answer}
use libretto.Go.Action.{World}
use libretto.Aws.Types.{Vm}
use libretto.Aws.Api.{Ec2, Call, terminate_instances}
use libretto.Aws.Wait.State.{terminated_states, match_state, max_retries, wait_until_terminated}
use libretto.Aws.Wait.State.First.{Finds, status_poll, wait_until_state-ok_iff}
use libretto.Aws.Wait.State.Keeps.{wait_until_terminated-vm}
use libretto.Aws.Lifecycle.{destroy}

-- The struct with its key pair forgotten.
abbrev pub without_keys : Vm → Vm
without_keys vm =
    let creds = vm.ssh_creds in
    record vm { ssh_creds = record creds { ssh_private_key = "" }; key_pair = "" }

module _ (svc : Ec2) (w : World Vm Call) where
  abbrev pub id : String
  id = w.vm.instance_id

  abbrev pub terminating : World Vm Call
  terminating = record w { log = terminate_instances id ∷ w.log }

  destroy-steps :
      (destroy svc w).0 ≡ ok tt
      → ((id == "") ≡ false)
        × (svc.terminate w.log id ≡ answer tt)
        × ((wait_until_terminated svc id terminating).0 ≡ ok tt)
  unfolding destroy
  destroy-steps h = ground arith

  -- Where Destroy returns an error or panics, the struct is unchanged: the key pair is still there.
  pub destroy_unless_ok : (destroy svc w).0 ≢ ok tt → (destroy svc w).1.vm ≡ w.vm
  unfolding destroy
  destroy_unless_ok h = ground (arith, wait_until_terminated-vm svc id terminating)

  destroy_if_ok :
      (destroy svc w).0 ≡ ok tt
      → (destroy svc w).1.vm ≡ (if w.vm.delete_keys_on_destroy then without_keys w.vm else w.vm)
  unfolding destroy
  destroy_if_ok h = ground (arith, wait_until_terminated-vm svc id terminating)

terminated_name : (name : String) → lookup name terminated_states ≡ some true → name ≡ "terminated"
terminated_name name h = ground (arith, eq_iff "terminated" name)

-- Where Destroy returns nil, EC2 has accepted the call to terminate the instance of the VM, one of
-- the sixty queries after it has found that instance terminated, and the key pair is forgotten if
-- and only if DeleteKeysOnDestroy is set, with the rest of the struct as it was.
pub destroy-ok :
    (svc : Ec2) (w : World Vm Call)
    → (destroy svc w).0 ≡ ok tt
    → (svc.terminate w.log w.vm.instance_id ≡ answer tt)
      × ((k : ℕ) × (k < max_retries)
          × Finds terminated_states true "terminated"
              (status_poll svc w.vm.instance_id terminated_states (terminating svc w) k))
      × ((destroy svc w).1.vm ≡ (if w.vm.delete_keys_on_destroy then without_keys w.vm else w.vm))
unfolding wait_until_terminated match_state
destroy-ok svc w h =
    let (set, accepted, waited) = destroy-steps svc w h in
    let (k, lt, found, before) =
      (wait_until_state-ok_iff svc w.vm.instance_id terminated_states (terminating svc w) refl).0
        waited in
    let (s, r, n, l) = found.1 in
    (accepted, (k, lt, (s, r, terminated_name s.state l, l)), destroy_if_ok svc w h)
