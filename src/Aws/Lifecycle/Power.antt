-- ===== src/Aws/Lifecycle/Power.antt =====
-- Halt and Start of virtualmachine/aws/vm.go.
use libretto.Base.{ℕ, ◌<◌, ◌≡◌, refl, String, true, ◌∷◌, arith, lookup, some, eq_iff}
use libretto.Go.Result.{ok, answer}
use libretto.Go.Action.{World}
use libretto.Aws.Types.{Vm}
use libretto.Aws.Api.{Ec2, Call, stop_instances, start_instances}
use libretto.Aws.Wait.State.{
  BreakStates, stopped_states, running_states, match_state, max_retries, wait_until_stopped,
  wait_until_running,
}
use libretto.Aws.Wait.State.First.{Finds, IsPending, status_poll, wait_until_state-ok_iff}
use libretto.Aws.Wait.State.Keeps.{wait_until_stopped-vm, wait_until_running-vm}
use libretto.Aws.Lifecycle.{halt, start}

-- One of the sixty queries from this world on finds the instance in this state, and each before it
-- is an error or finds a state outside the table.
abbrev pub Reaches : Ec2 → String → BreakStates → World Vm Call → String → Type 0
Reaches svc id m w name =
    (k : ℕ) × (k < max_retries)
    × Finds m true name (status_poll svc id m w k)
    × ((j : ℕ) → j < k → IsPending m (status_poll svc id m w j))

stopped_name : (name : String) → lookup name stopped_states ≡ some true → name ≡ "stopped"
stopped_name name h = ground (arith, eq_iff "stopped" name)

running_name : (name : String) → lookup name running_states ≡ some true → name ≡ "running"
running_name name h = ground (arith, eq_iff "running" name)

module _ (svc : Ec2) (w : World Vm Call) where
  abbrev id : String
  id = w.vm.instance_id

  -- The worlds after the calls to stop and to start the instance.
  abbrev pub stopping : World Vm Call
  stopping = record w { log = stop_instances id ∷ w.log }

  abbrev pub starting : World Vm Call
  starting = record w { log = start_instances id ∷ w.log }

  halt-steps :
      (halt svc w).0 ≡ ok tt
      → (svc.halt w.log id ≡ answer tt)
        × ((wait_until_stopped svc id stopping).0 ≡ ok tt)
        × ((halt svc w).1.vm ≡ w.vm)
  unfolding halt
  halt-steps h = ground (arith, wait_until_stopped-vm svc id stopping)

  start-steps :
      (start svc w).0 ≡ ok tt
      → (svc.start w.log id ≡ answer tt)
        × ((wait_until_running svc id starting).0 ≡ ok tt)
        × ((start svc w).1.vm ≡ w.vm)
  unfolding start
  start-steps h = ground (arith, wait_until_running-vm svc id starting)

  -- Where Halt returns nil, EC2 has accepted the call to stop the VM's instance, some query after it
  -- has found that instance stopped, each query before that one was an error or found a state other
  -- than stopped, terminated and shutting-down, and the struct is unchanged.
  pub halt-ok :
      (halt svc w).0 ≡ ok tt
      → (svc.halt w.log w.vm.instance_id ≡ answer tt)
        × Reaches svc w.vm.instance_id stopped_states stopping "stopped"
        × ((halt svc w).1.vm ≡ w.vm)
  unfolding wait_until_stopped match_state
  halt-ok h =
      let (accepted, waited, kept) = halt-steps h in
      let (k, lt, (n, (s, r, e, l)), before) =
        (wait_until_state-ok_iff svc id stopped_states stopping refl).0 waited in
      (accepted, (k, lt, (s, r, stopped_name s.state l, l), before), kept)

  -- Where Start returns nil, EC2 has accepted the call to start the VM's instance, some query after
  -- it has found that instance running, each query before that one was an error or found a state
  -- other than running, terminated and shutting-down, and the struct is unchanged.
  pub start-ok :
      (start svc w).0 ≡ ok tt
      → (svc.start w.log w.vm.instance_id ≡ answer tt)
        × Reaches svc w.vm.instance_id running_states starting "running"
        × ((start svc w).1.vm ≡ w.vm)
  unfolding wait_until_running match_state
  start-ok h =
      let (accepted, waited, kept) = start-steps h in
      let (k, lt, (n, (s, r, e, l)), before) =
        (wait_until_state-ok_iff svc id running_states starting refl).0 waited in
      (accepted, (k, lt, (s, r, running_name s.state l, l), before), kept)
