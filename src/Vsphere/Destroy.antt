-- ===== src/Vsphere/Destroy.antt =====
-- virtualmachine/vsphere: Destroy of vm.go, isTaskInProgress and waitForTasksToFinish of util.go. The
-- loop that waits for the machine to be off has no bound; the model gives it rounds.
pub mod Off
use libretto.Base.{
  ℕ, zero, suc, String, Bool, true, false, List, [], ◌∷◌, ◌==◌, ◌||◌, if◌then◌else◌,
}
use libretto.Go.Result.{Reply, answer, failure}
use libretto.Go.Action.{◌>>=◌, ◌>>◌, pure, attempt, get, note, request}
use libretto.Vsphere.Types.{Mor, get_vm_search_filter}
use libretto.Vsphere.Api.{
  Cloud, Method, destroy, retrieve, wait_recent, wait_powered_off, sleep, MoVm,
}
use libretto.Vsphere.Session.{in_session}
use libretto.Vsphere.Search.{find_vm, exists_vm}
use libretto.Vsphere.Power.{find_own, get_power_state, halt, run_task, null_message}

-- What becomes of the machine. `unfinished` is in the model, where the rounds did not suffice.
pub data Fate : Type 0 where
  destroyed absent unfinished : Fate

module _ {F : Type 0} (cloud : Cloud F) where
  abbrev pub is_active : String → Bool
  is_active state = (state == "queued") || (state == "running")

  abbrev pub looked_at : Method F Bool → Reply String → Method F Bool
  looked_at rest (failure e) = rest
  looked_at rest (answer state) = if is_active state then pure false else rest

  -- False where a task is active, against its name; Destroy reads it so.
  unfoldable pub is_task_in_progress : List Mor → Method F Bool
  is_task_in_progress [] = pure true
  is_task_in_progress (task ∷ tasks) = do
    reply ← attempt (request (retrieve task ("info" ∷ [])) (λ log. cloud.task_state log task))
    looked_at (is_task_in_progress tasks) reply

  unfoldable pub wait_for_tasks_to_finish : List Mor → Method F (Unit {0})
  wait_for_tasks_to_finish [] = pure tt
  wait_for_tasks_to_finish (task ∷ tasks) = do
    note (wait_recent task)
    wait_for_tasks_to_finish tasks

  -- A round of the loop, before the sleep.
  unfoldable pub turn_off : MoVm → Method F (Unit {0})
  unfolding is_task_in_progress wait_for_tasks_to_finish halt
  turn_off mo = do
    idle ← is_task_in_progress mo.recent_task
    if idle
        then (do
          halt cloud
          request (wait_powered_off mo.self)
              (λ log. cloud.guest_reply log (wait_powered_off mo.self)))
        else wait_for_tasks_to_finish mo.recent_task

  -- Whether the machine is off.
  unfoldable pub off_loop : ℕ → MoVm → String → Method F Bool
  unfolding turn_off get_power_state
  off_loop zero mo state = pure false
  off_loop (suc n) mo state =
      if state == "poweredOff"
      then pure true
      else (do turn_off mo; note (sleep 1); state' ← get_power_state cloud; off_loop n mo state')

  abbrev pub removed : MoVm → Bool → Method F Fate
  removed mo false = pure unfinished
  removed mo true = do
    run_task cloud (destroy mo.self) "error creating a destroy task on the vm: "
        "error waiting for destroy task: " (null_message "destroy task returned an error: ")
    pure destroyed

  unfoldable pub destroy_found : ℕ → Method F Fate
  unfolding find_vm get_power_state off_loop run_task get_vm_search_filter
  destroy_found rounds = do
    mo ← find_own cloud
    state ← get_power_state cloud
    off ← off_loop rounds mo state
    removed mo off

  abbrev pub destroy_if : ℕ → Bool → Method F Fate
  destroy_if rounds false = pure absent
  destroy_if rounds true = destroy_found rounds

  unfoldable pub destroy_vm : ℕ → Method F Fate
  unfolding exists_vm destroy_found get_vm_search_filter
  destroy_vm rounds =
      in_session cloud (do
        vm ← get
        there ← exists_vm cloud (get_vm_search_filter vm.name)
        destroy_if rounds there)
