-- ===== src/Aws/Wait/State/Keeps.antt =====
-- The waits of State.antt do not write to the VM's struct.
use libretto.Base.{◌≡◌, refl, ap, String, false, ◌==◌}
use libretto.Go.Action.{World}
use libretto.Go.Poll.{Ends-log}
use libretto.Aws.Types.{Vm}
use libretto.Aws.Api.{Ec2, Call}
use libretto.Aws.Wait.State.{
  BreakStates, match_state, wait_timeout-quiet, wait_until_state, wait_until_state-Ends,
  stopped_states, running_states, terminated_states, wait_until_stopped, wait_until_running,
  wait_until_terminated,
}

module _ (svc : Ec2) (id : String) (w : World Vm Call) where
  wait_until_state-vm :
      (m : BreakStates) → (match_state m == "") ≡ false → (wait_until_state svc id m w).1.vm ≡ w.vm
  wait_until_state-vm m target =
      let (k, le, t) =
        Ends-log _ _ _ _ w (wait_until_state-Ends svc id m w target) (wait_timeout-quiet m) in
      ap (λ (u : World Vm Call). u.vm) t

  pub wait_until_stopped-vm : (wait_until_stopped svc id w).1.vm ≡ w.vm
  unfolding wait_until_stopped match_state
  wait_until_stopped-vm = wait_until_state-vm stopped_states refl

  pub wait_until_running-vm : (wait_until_running svc id w).1.vm ≡ w.vm
  unfolding wait_until_running match_state
  wait_until_running-vm = wait_until_state-vm running_states refl

  pub wait_until_terminated-vm : (wait_until_terminated svc id w).1.vm ≡ w.vm
  unfolding wait_until_terminated match_state
  wait_until_terminated-vm = wait_until_state-vm terminated_states refl
