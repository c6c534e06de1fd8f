-- ===== src/Aws/Wait/State.antt =====
-- waitUntilState and its callers of virtualmachine/aws/wait.go.
pub mod First
pub mod Keeps
use libretto.Base.{
  ℕ, ◌/◌, ◌≡◌, refl, String, Bool, true, false, Option, none, some, List, [], ◌∷◌, ◌==◌, ◌<>◌,
  if◌then◌else◌, lookup,
}
use libretto.Go.Error.{new}
use libretto.Go.Result.{Result, ok, err, panic, Reply, answer, failure}
use libretto.Go.Result
use libretto.Go.Action.{World, ◌>>=◌, ◌>>◌, fail, lift, note, attempt, outcome, resume-lift}
use libretto.Go.Retry.{Verdict, again, stop, retry}
use libretto.Go.Poll.{Ends, poll-Ends}
use libretto.Aws.Types.{Vm, InstanceStatus}
use libretto.Aws.Api.{Ec2, Call, Method, sleep, describe_instance_status}
use libretto.Aws.Service.{get_instance_status, instance_status, get_instance_status_lem}

abbrev Nothing : Type 0
Nothing = Unit {0}

-- Seconds.
abbrev pub vm_ops_timeout : ℕ
vm_ops_timeout = 900

abbrev pub vm_ops_interval : ℕ
vm_ops_interval = 15

-- matchBreakState: true for the state waited for, false for a state that ends the wait.
abbrev pub BreakStates : Type 0
BreakStates = List (String × Bool)

-- The first loop: a state marked true, or "".
unfoldable pub match_state : BreakStates → String
match_state [] = ""
match_state ((state, true) ∷ m) = state
match_state ((state, false) ∷ m) = match_state m

abbrev verdict_of : String → Option Bool → Result (Verdict Nothing Nothing)
verdict_of state none = ok (again tt)
verdict_of state (some true) = ok (stop tt)
verdict_of state (some false) = err (new ("Instance unexpectedly " <> state))

-- The round after its query: an error of the query is ignored.
unfoldable pub break_test : BreakStates → Reply InstanceStatus → Result (Verdict Nothing Nothing)
break_test m (failure e) = ok (again tt)
break_test m (answer status) = verdict_of status.state (lookup status.state m)

abbrev pub max_retries : ℕ
max_retries = vm_ops_timeout / vm_ops_interval

-- The calls of a round.
abbrev pub status_calls : String → ℕ → List Call → List Call
status_calls id k log = describe_instance_status id ∷ sleep vm_ops_interval ∷ log

pub wait_timeout : BreakStates → Nothing → Method Nothing
wait_timeout m l = fail (new ("Timeout while waiting for VM to be " <> match_state m))

pub wait_timeout-quiet :
    (m : BreakStates) (l : Nothing) (w : World Vm Call) → (wait_timeout m l w).1 ≡ w
unfolding wait_timeout
wait_timeout-quiet m l w = refl

abbrev pub stopped_states : BreakStates
stopped_states = ("stopped", true) ∷ ("terminated", false) ∷ ("shutting-down", false) ∷ []

abbrev pub running_states : BreakStates
running_states = ("running", true) ∷ ("terminated", false) ∷ ("shutting-down", false) ∷ []

abbrev pub terminated_states : BreakStates
terminated_states = ("terminated", true) ∷ []

module _ (svc : Ec2) where
  status_round : String → BreakStates → ℕ → Nothing → Method (Verdict Nothing Nothing)
  status_round id m ii l = do
    note (sleep vm_ops_interval)
    reply ← attempt (get_instance_status svc id)
    lift (break_test m reply)

  status_loop : String → BreakStates → Method Nothing
  unfolding status_round retry
  status_loop id m = retry (status_round id m) (wait_timeout m) max_retries 0 tt

  unfoldable pub wait_until_state : String → BreakStates → Method Nothing
  unfolding status_loop match_state break_test get_instance_status wait_timeout
  wait_until_state id m = if match_state m == "" then lift panic else status_loop id m

  unfoldable pub wait_until_stopped : String → Method Nothing
  wait_until_stopped id = wait_until_state id stopped_states

  unfoldable pub wait_until_running : String → Method Nothing
  wait_until_running id = wait_until_state id running_states

  unfoldable pub wait_until_terminated : String → Method Nothing
  wait_until_terminated id = wait_until_state id terminated_states

  -- What the query of a round returns, and the round's verdict.
  abbrev pub status_at : String → ℕ → List Call → Result (Reply InstanceStatus)
  status_at id k log = outcome (instance_status svc id (sleep vm_ops_interval ∷ log))

  abbrev pub status_verdict :
      String → BreakStates → ℕ → List Call → Result (Verdict Nothing Nothing)
  status_verdict id m k log = Result.◌>>=◌ (status_at id k log) (break_test m)

  status_round_polls :
      (id : String) (m : BreakStates) (k : ℕ) (l : Nothing) (w : World Vm Call)
      → status_round id m k l w
        ≡ (status_verdict id m k w.log, record w { log = status_calls id k w.log })
  unfolding status_round
  status_round_polls id m k l w = rw get_instance_status_lem (
      resume-lift (status_at id k w.log) (break_test m)
        (record w { log = status_calls id k w.log }))

  pub wait_until_state-Ends :
      (id : String) (m : BreakStates) (w : World Vm Call)
      → (match_state m == "") ≡ false
      → Ends
          (status_calls id)
          (status_verdict id m)
          (wait_timeout m)
          max_retries
          w
          (wait_until_state id m w).0
          (wait_until_state id m w).1
  unfolding wait_until_state
  wait_until_state-Ends id m w h =
      rw h (poll-Ends _ _ (status_round id m) _ (status_round_polls id m) 59 w tt)
