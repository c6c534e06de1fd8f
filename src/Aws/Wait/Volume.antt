-- ===== src/Aws/Wait/Volume.antt =====
-- waitUntilVolumeState and its callers of virtualmachine/aws/wait.go.
pub mod First
use libretto.Base.{
  ℕ, ◌/◌, ◌≡◌, refl, String, Option, none, some, List, [], ◌∷◌, ◌==◌, ◌<>◌, if◌then◌else◌,
}
use libretto.Go.Error.{Error, new, errorf}
use libretto.Go.Result.{Result, ok, err}
use libretto.Go.Action.{World, ◌>>=◌, ◌>>◌, fail, lift, note, send}
use libretto.Go.Retry.{Verdict, again, stop, retry}
use libretto.Go.Poll.{Ends, poll-Ends}
use libretto.Aws.Types.{Vm}
use libretto.Aws.Api.{Ec2, Call, Method, sleep, describe_volumes, VolumeOutput}

abbrev Nothing : Type 0
Nothing = Unit {0}

-- Seconds.
abbrev pub vol_timeout : ℕ
vol_timeout = 600

abbrev pub vol_interval : ℕ
vol_interval = 5

abbrev pub max_retries : ℕ
max_retries = vol_timeout / vol_interval

-- What a query returns: the volumes, and an error.
abbrev pub VolumeReply : Type 0
VolumeReply = List VolumeOutput × Option Error

-- The local `err`, which the code after the loop reads.
abbrev pub Locals : Type 0
Locals = Option Error

-- The tests on the state, the error state first.
pub state_switch : String → String → Result (Verdict Locals Nothing)
state_switch wanted state =
    if state == "error"
    then err (new "Volume in error state")
    else if state == wanted
    then ok (stop tt)
    else ok (again none)

pub state_test : String → Option String → Result (Verdict Locals Nothing)
unfolding state_switch
state_test wanted none = ok (again none)
state_test wanted (some state) = state_switch wanted state

-- The state of the first volume, if it is there.
unfoldable pub first_volume_state : List VolumeOutput → Option String
first_volume_state [] = none
first_volume_state (v ∷ vs) = v.state

unfoldable pub volume_test : String → VolumeReply → Result (Verdict Locals Nothing)
unfolding state_test first_volume_state
volume_test wanted (vols, some e) = ok (again (some e))
volume_test wanted (vols, none) = state_test wanted (first_volume_state vols)

-- The code after the loop.
pub volume_timeout : String → Locals → Method Nothing
volume_timeout wanted (some e) = fail (errorf "Error in getting volume state: " e)
volume_timeout wanted none = fail (new ("Timeout while waiting for Volume to be " <> wanted))

pub volume_timeout-quiet :
    (wanted : String) (l : Locals) (w : World Vm Call) → (volume_timeout wanted l w).1 ≡ w
unfolding volume_timeout
volume_timeout-quiet wanted none w = refl
volume_timeout-quiet wanted (some e) w = refl

-- The calls of a round.
abbrev pub volume_calls : String → ℕ → List Call → List Call
volume_calls id k log = describe_volumes id ∷ sleep vol_interval ∷ log

module _ (svc : Ec2) where
  volume_round : String → String → ℕ → Locals → Method (Verdict Locals Nothing)
  volume_round id wanted ii l = do
    note (sleep vol_interval)
    reply ← send (describe_volumes id) (λ log. svc.volumes log id)
    lift (volume_test wanted reply)

  unfoldable pub wait_until_volume_state : String → String → Method Nothing
  unfolding volume_round retry volume_timeout
  wait_until_volume_state id wanted =
      retry (volume_round id wanted) (volume_timeout wanted) max_retries 0 none

  unfoldable pub wait_for_create : String → Method Nothing
  wait_for_create id = wait_until_volume_state id "available"

  unfoldable pub wait_for_attach : String → Method Nothing
  wait_for_attach id = wait_until_volume_state id "in-use"

  unfoldable pub wait_for_detach : String → Method Nothing
  wait_for_detach id = wait_until_volume_state id "available"

  -- What the query of a round returns.
  abbrev pub volume_at : String → ℕ → List Call → VolumeReply
  volume_at id k log = svc.volumes (sleep vol_interval ∷ log) id

  pub wait_until_volume_state-Ends :
      (id wanted : String) (w : World Vm Call)
      → Ends
          (volume_calls id)
          (λ k log. volume_test wanted (volume_at id k log))
          (volume_timeout wanted)
          max_retries
          w
          (wait_until_volume_state id wanted w).0
          (wait_until_volume_state id wanted w).1
  unfolding wait_until_volume_state
  wait_until_volume_state-Ends id wanted w =
      poll-Ends _ _ (volume_round id wanted) _ (λ k l w'. refl) 119 w none
