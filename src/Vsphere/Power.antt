-- ===== src/Vsphere/Power.antt =====
-- virtualmachine/vsphere: the operations that change the power state (start, halt, shutDown, restart,
-- reset and waitForIP of util.go, Suspend and GetState of vm.go).
pub mod ShutDown
use libretto.Base.{
  ℕ, zero, suc, String, Bool, true, false, Option, none, some, List, [], ◌∷◌, ◌<>◌, ◌==◌, ◌||◌,
  if◌then◌else◌,
}
use libretto.Machine.{err_vm_info_failed, vm_running, vm_suspended, vm_halted}
use libretto.Go.Error.{Error, new, message}
use libretto.Go.Result.{err, Reply, answer, failure, deref}
use libretto.Go.Action.{◌>>=◌, ◌>>◌, pure, fail, lift, attempt, get, note, request, wrap}
use libretto.Vsphere.Types.{
  gray_status_check_timeout, green_status_check_timeout, guest_heart_beat_status,
  get_vm_search_filter, retry_count, error_vm_power_state_changing,
}
use libretto.Vsphere.Api.{
  Cloud, Method, Task, power_on, power_off, suspend, reset, start_task, wait_task, shutdown_guest,
  reboot_guest, tools_running, wait_net_ip, wait_property, sleep, PropertyChange, MoVm, Guest,
}
use libretto.Vsphere.Session.{in_session, deferred, setup_session}
use libretto.Vsphere.Search.{find_vm}

-- `if tInfo.Error != nil`: some of the messages print the variable err, which is nil there.
abbrev pub null_message : String → Error → Error
null_message prefix e = new (prefix <> "<nil>")

abbrev pub with_message : String → Error → Error
with_message prefix e = new (prefix <> message e)

abbrev pub is_among : String → List String → Bool
is_among ps [] = false
is_among ps (s ∷ statuses) = if ps == s then true else is_among ps statuses

-- The function that property.Wait calls with the changes of an update.
unfoldable pub has_status : List String → List PropertyChange → Bool
has_status statuses [] = false
has_status statuses (c ∷ pc) =
    let rest = has_status statuses pc in
    if c.name == guest_heart_beat_status
    then elim c.val [ none ↦ rest | some ps ↦ if is_among ps statuses then true else rest ]
    else rest

module _ {F : Type 0} (cloud : Cloud F) where
  abbrev pub task_ended : (Error → Error) → Option Error → Method F (Unit {0})
  task_ended failed none = pure tt
  task_ended failed (some e) = fail (failed e)

  -- A task that is started and waited for.
  unfoldable pub run_task : Task → String → String → (Error → Error) → Method F (Unit {0})
  run_task task creating waiting failed = do
    wrap creating (request (start_task task) (λ log. cloud.start_reply log task))
    info ← wrap waiting (request (wait_task task) (λ log. cloud.wait_reply log task))
    task_ended failed info

  unfoldable pub has_ip : List (List String) → Bool
  has_ip [] = false
  has_ip ([] ∷ cards) = has_ip cards
  has_ip ((ip ∷ ips) ∷ cards) =
      let rest = has_ip cards in elim (cloud.parse_ip ip) [ some parsed ↦ true | none ↦ rest ]

  -- The context's timeout is the service's.
  unfoldable pub wait_for_ip : MoVm → Method F (Unit {0})
  unfolding has_ip
  wait_for_ip mo = do
    cards ←
        wrap "failed to wait for VM to get ips: "
          (request (wait_net_ip mo.self) (λ log. cloud.net_ips log mo.self))
    if has_ip cards
        then pure tt
        else fail (new ("no valid ip assigned: " <> cloud.show_cards cards))

  abbrev pub find_own : Method F MoVm
  find_own = do vm ← get; find_vm cloud (get_vm_search_filter vm.name)

  abbrev pub guest_of : MoVm → Method F Guest
  guest_of mo = lift (deref mo.guest)

  unfoldable pub start : Method F (Unit {0})
  unfolding find_vm run_task wait_for_ip get_vm_search_filter
  start = do
    vm ← get
    mo ← find_own
    guest ← guest_of mo
    if (guest.guest_state == "shuttingdown") || (guest.guest_state == "resetting")
        then fail error_vm_power_state_changing
        else (do
          run_task (power_on mo.self) "error creating a poweron task on the vm: "
              "error waiting for poweron task: " (null_message "poweron task returned an error: ")
          if vm.skip_ip_wait then pure tt else wait_for_ip mo)

  -- getState: any error of the search is ErrVMInfoFailed.
  abbrev pub guest_state_of : Reply MoVm → Method F String
  guest_state_of (failure e) = fail err_vm_info_failed
  guest_state_of (answer mo) = do guest ← guest_of mo; pure guest.guest_state

  unfoldable pub get_guest_state : Method F String
  unfolding find_vm get_vm_search_filter
  get_guest_state = do reply ← attempt find_own; guest_state_of reply

  abbrev pub power_state_of : Reply MoVm → Method F String
  power_state_of (failure e) = fail err_vm_info_failed
  power_state_of (answer mo) = pure mo.power_state

  unfoldable pub get_power_state : Method F String
  unfolding find_vm get_vm_search_filter
  get_power_state = do reply ← attempt find_own; power_state_of reply

  unfoldable pub halt : Method F (Unit {0})
  unfolding get_guest_state start find_vm run_task get_vm_search_filter
  halt = do
    state ← wrap "Error getting state of vm : " get_guest_state
    if state == "standby" then start else pure tt
    mo ← find_own
    run_task (power_off mo.self) "error creating a poweroff task on the vm: "
        "error waiting for poweroff task: " (null_message "poweroff task returned an error: ")

  abbrev pub state_or_empty : Reply String → String
  state_or_empty (answer state) = state
  state_or_empty (failure e) = ""

  -- The rounds that are left at the end of the loop.
  unfoldable pub shut_down_loop : ℕ → String → Method F ℕ
  unfolding get_guest_state
  shut_down_loop zero state = pure 0
  shut_down_loop (suc n) state = if state == "notRunning" then pure (suc n) else (do
    reply ← attempt get_guest_state
    note (sleep 5)
    shut_down_loop n (state_or_empty reply))

  abbrev pub timed_out : String → ℕ → Method F (Unit {0})
  timed_out name zero = fail (new ("Shutting down vm: " <> name <> " timed out"))
  timed_out name (suc n) = pure tt

  unfoldable pub shut_down : Method F (Unit {0})
  unfolding find_vm get_guest_state shut_down_loop get_vm_search_filter
  shut_down = do
    vm ← get
    mo ← find_own
    wrap "error initiating shutDown on the vm: "
        (request (shutdown_guest mo.self) (λ log. cloud.guest_reply log (shutdown_guest mo.self)))
    state ← wrap "Error getting state of vm : " get_guest_state
    retry ← shut_down_loop retry_count state
    timed_out vm.name retry

  -- The updates of a wait, up to the first that has the status.
  unfoldable pub wait_updates : List String → List (List PropertyChange) → Error → Reply (Unit {0})
  unfolding has_status
  wait_updates statuses [] e = failure e
  wait_updates statuses (pc ∷ pcs) e =
      let rest = wait_updates statuses pcs e in if has_status statuses pc then answer tt else rest

  -- The statuses that end the wait are given by their names, which the source has as bits.
  unfoldable pub wait_for_guest_status : MoVm → List String → Option ℕ → Method F (Unit {0})
  unfolding wait_updates
  wait_for_guest_status mo statuses timeout =
      request (wait_property mo.self guest_heart_beat_status timeout)
        (λ log. let (pcs, e) = cloud.updates log mo.self timeout in wait_updates statuses pcs e)

  unfoldable pub restart : Method F (Unit {0})
  unfolding find_vm wait_for_guest_status get_vm_search_filter
  restart = do
    mo ← find_own
    wrap "error initiating reboot on the vm: "
        (request (reboot_guest mo.self) (λ log. cloud.guest_reply log (reboot_guest mo.self)))
    ignored ← attempt (wait_for_guest_status mo ("gray" ∷ []) (some gray_status_check_timeout))
    wrap "error wating for vm to reboot : "
        (wait_for_guest_status mo ("green" ∷ "yellow" ∷ []) (some green_status_check_timeout))

  unfoldable pub reset_vm : Method F (Unit {0})
  unfolding find_vm run_task wait_for_guest_status get_vm_search_filter
  reset_vm = do
    mo ← find_own
    tools ←
        wrap "Error checking status of tools : "
          (request (tools_running mo.self) (λ log. cloud.tools_reply log mo.self))
    run_task (reset mo.self) "error creating a reset task on the vm: "
        "error waiting for reset task: " (null_message "reset task returned an error: ")
    if tools
        then (do
          wrap "error wating for vm to reset: "
              (wait_for_guest_status mo ("gray" ∷ "red" ∷ []) none)
          wrap "error wating for vm to reset : "
              (wait_for_guest_status mo ("green" ∷ "yellow" ∷ []) none))
        else pure tt

  unfoldable pub suspend_vm : Method F (Unit {0})
  unfolding find_vm run_task get_vm_search_filter
  suspend_vm = do
    mo ← find_own
    run_task (suspend mo.self) "error creating a suspend task on the vm: "
        "error waiting for suspend task: " (null_message "suspend task returned an error: ")

  abbrev pub state_name : String → Method F String
  state_name state =
      if state == "running"
      then pure vm_running
      else (if state == "standby"
          then pure vm_suspended
          else (if (state == "shuttingDown") || (state == "resetting") || (state == "notRunning")
              then pure vm_halted
              else fail err_vm_info_failed))

  unfoldable pub get_state : Method F String
  unfolding get_guest_state
  get_state = do state ← get_guest_state; state_name state

  -- The methods, each in a session of its own.
  unfoldable pub vm_halt : Method F (Unit {0})
  unfolding halt
  vm_halt = in_session cloud halt

  unfoldable pub vm_shut_down : Method F (Unit {0})
  unfolding shut_down
  vm_shut_down = in_session cloud shut_down

  unfoldable pub vm_restart : Method F (Unit {0})
  unfolding restart
  vm_restart = in_session cloud restart

  unfoldable pub vm_start : Method F (Unit {0})
  unfolding start
  vm_start = in_session cloud start

  unfoldable pub vm_resume : Method F (Unit {0})
  unfolding vm_start
  vm_resume = vm_start

  unfoldable pub vm_reset : Method F (Unit {0})
  unfolding reset_vm
  vm_reset = in_session cloud reset_vm

  unfoldable pub vm_suspend : Method F (Unit {0})
  unfolding suspend_vm
  vm_suspend = in_session cloud suspend_vm

  abbrev pub session_for_state : Reply (Unit {0}) → Method F String
  session_for_state (failure e) = fail err_vm_info_failed
  session_for_state (answer _) = deferred get_state

  unfoldable pub vm_get_state : Method F String
  unfolding get_state setup_session
  vm_get_state = do reply ← attempt (setup_session cloud); session_for_state reply

  unfoldable pub validate_auth : Method F (Unit {0})
  unfolding setup_session
  validate_auth = in_session cloud (pure tt)
