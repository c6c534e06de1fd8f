-- ===== src/Aws/Wait/Ready.antt =====
-- waitUntilReady and newReadyError of virtualmachine/aws/wait.go.
pub mod First
use libretto.Base.{
  ℕ, ◌^◌, refl, String, ◌||◌, Option, none, some, List, [], ◌∷◌, ◌==◌, if◌then◌else◌,
}
use libretto.Go.Error.{Error, new, not_ready, ReadyInfo}
use libretto.Go.Result.{Result, ok, err}
use libretto.Go.Action.{World, ◌>>=◌, ◌>>◌, fail, lift, send, note}
use libretto.Go.Retry.{Verdict, again, stop, retry}
use libretto.Go.Poll.{Ends, poll-Ends}
use libretto.Go.Sends.{Sends, Sends-retry, Sends-fail, sends_rules}
use libretto.Aws.Types.{Vm}
use libretto.Aws.Api.{Ec2, Call, Method, sleep, describe_instances, Instance, Reservations}

abbrev Nothing : Type 0
Nothing = Unit {0}

-- A pointer's value, or the zero value where it is nil.
abbrev or_empty : Option String → String
or_empty none = ""
or_empty (some s) = s

abbrev or_zero : Option ℕ → ℕ
or_zero none = 0
or_zero (some n) = n

-- A pointer field of a struct behind a pointer.
abbrev inner : Option (Option String) → Option String
inner none = none
inner (some s) = s

abbrev no_info : ReadyInfo
no_info = record {
  image_id = "";
  instance_id = "";
  instance_type = "";
  launch_time = 0;
  public_ip_address = "";
  state = "";
  state_reason = "";
  state_transition_reason = "";
  subnet_id = "";
  vpc_id = "";
}

abbrev info_of : Instance → ReadyInfo
info_of i = record {
  image_id = or_empty i.image_id;
  instance_id = or_empty i.instance_id;
  instance_type = or_empty i.instance_type;
  launch_time = or_zero i.launch_time;
  public_ip_address = or_empty i.public_ip_address;
  state = or_empty (inner i.state);
  state_reason = or_empty (inner i.state_reason);
  state_transition_reason = or_empty i.state_transition_reason;
  subnet_id = or_empty i.subnet_id;
  vpc_id = or_empty i.vpc_id;
}

-- newReadyError; its field Err is given by the caller, which sets it in every case.
pub new_ready_error : Error → Reservations → Error
new_ready_error e [] = not_ready e no_info
new_ready_error e ([] ∷ rs) = not_ready e no_info
new_ready_error e ((i ∷ is) ∷ rs) = not_ready e (info_of i)

-- The state's name of the first instance of the first reservation, if all of these are there.
unfoldable pub first_state : Reservations → Option String
first_state [] = none
first_state ([] ∷ rs) = none
first_state ((i ∷ is) ∷ rs) = inner i.state

-- The locals `resp` and `err`, which the code after the loop reads.
abbrev pub Locals : Type 0
Locals = Reservations × Option Error

-- The `switch` on the state.
pub ready_switch : Locals → String → Result (Verdict Locals Nothing)
ready_switch l state =
    if state == "running"
    then ok (stop tt)
    else if state == "terminated" || state == "shutting-down"
    then err (new "Instance unexpectedly terminating or has terminated")
    else if state == "stopping" || state == "stopped"
    then err (new "Instance unexpectedly stopping or has stopped")
    else ok (again l)

-- The `continue`s on a state that is not there.
pub state_test : Locals → Option String → Result (Verdict Locals Nothing)
unfolding ready_switch
state_test l none = ok (again l)
state_test l (some state) = ready_switch l state

unfoldable pub ready_test : Locals → Result (Verdict Locals Nothing)
unfolding first_state state_test
ready_test (resp, some e) = ok (again (resp, some e))
ready_test (resp, none) = state_test (resp, none) (first_state resp)

pub give_up : Locals → Error
unfolding new_ready_error
give_up (resp, some e) = new_ready_error e resp
give_up (resp, none) = new_ready_error (new "wait until instance ready timeout") resp

abbrev pub max_retries : ℕ
max_retries = 10

-- The calls of a round.
abbrev pub ready_calls : String → ℕ → List Call → List Call
ready_calls id k log = describe_instances id ∷ sleep (2 ^ k) ∷ log

module _ (svc : Ec2) where
  ready_round : String → ℕ → Locals → Method (Verdict Locals Nothing)
  ready_round id ii old = do
    note (sleep (2 ^ ii))
    l ← send (describe_instances id) (λ log. svc.instances log id)
    lift (ready_test l)

  unfoldable pub wait_until_ready : String → Method Nothing
  unfolding ready_round retry give_up
  wait_until_ready id = retry (ready_round id) (λ l. fail (give_up l)) max_retries 0 ([], none)

  -- What the service answers in a round.
  abbrev pub described : String → ℕ → List Call → Locals
  described id k log = svc.instances (sleep (2 ^ k) ∷ log) id

  pub wait_until_ready-Ends :
      (id : String) (w : World Vm Call)
      → Ends
          (ready_calls id)
          (λ k log. ready_test (described id k log))
          (λ l. fail (give_up l))
          max_retries
          w
          (wait_until_ready id w).0
          (wait_until_ready id w).1
  unfolding wait_until_ready
  wait_until_ready-Ends id w = poll-Ends _ _ (ready_round id) _ (λ k l w'. refl) 9 w ([], none)

module _ {Q : Call → Type 0} (svc : Ec2) (id : String) (q : (n : ℕ) → Q (sleep n))
    (d : Q (describe_instances id)) where
  pub wait_until_ready-Sends : Sends Q (wait_until_ready svc id)
  unfolding wait_until_ready
  wait_until_ready-Sends =
      Sends-retry (ready_round svc id) (λ l. fail (give_up l))
        (λ i l. search (sends_rules, q, d) depth 20) (λ l. Sends-fail (give_up l)) max_retries 0
        ([], none)
