-- ===== src/Aws/Service.antt =====
-- virtualmachine/aws/util.go and the constants of vm.go: errors, the service for a region, and the
-- status of an instance.
use libretto.Base.{String, none, some, List, ◌∷◌, ◌==◌, if◌then◌else◌, ◌<>◌, ◌≡◌}
use libretto.Go.Error.{Error, new, errorf}
use libretto.Go.Result.{Result, ok, err, ◌>>=◌, deref, first, of_reply}
use libretto.Go.Action
use libretto.Go.Action.{Action, World, lift, wrap, on_error, request, pure, resume-lift}
use libretto.Aws.Types.{Vm, InstanceStatus}
use libretto.Aws.Api.{Ec2, Call, Method, StatusOutput, describe_instance_status}

abbrev pub err_no_creds : Error
err_no_creds = new "Missing AWS credentials"

abbrev pub err_no_region : Error
err_no_region = new "Missing AWS region"

abbrev pub err_no_instance : Error
err_no_instance = new "Missing VM instance"

abbrev pub err_no_instance_id : Error
err_no_instance_id = new "Missing instance ID"

abbrev pub err_no_support_suspend : Error
err_no_support_suspend = new "Suspend action not supported by AWS"

abbrev pub err_no_support_resume : Error
err_no_support_resume = new "Resume action not supported by AWS"

-- The region that getService hands to the SDK.
unfoldable pub service_region : (String → String) → String → String
service_region getenv region =
    if region == ""
    then (if getenv "AWS_DEFAULT_REGION" == ""
        then getenv "AWS_REGION"
        else getenv "AWS_DEFAULT_REGION")
    else region

-- getService, up to the client that it makes, which is the service `svc` itself.
unfoldable pub get_service : Ec2 → String → Result (Unit {0})
unfolding service_region
get_service svc region = elim (svc.new_session (service_region svc.getenv region)) [
  | none ↦ ok tt
  | some e ↦ err (errorf "failed to create AWS session: " e)
]

-- The statements that begin every method: the service for the VM's region, or an error.
abbrev pub with_service : Ec2 → String → Method Vm
with_service svc prefix =
    Action.◌>>=◌ Action.get
      λ vm. Action.◌>>=◌ (wrap prefix (lift (get_service svc vm.region))) λ _. pure vm

-- The fields of an instance status, whose pointers must not be nil.
unfoldable pub read_status : StatusOutput → Result InstanceStatus
read_status s = do
  zone ← deref s.availability_zone
  id ← deref s.instance_id
  named ← deref s.instance_state
  state ← deref named
  ok (record { availability_zone = zone; instance_id = id; state = state })

-- The text in front of a status error.
abbrev status_prefix : String → String
status_prefix id = "Failed to get instance (instanceId " <> id <> ") status: "

-- GetInstanceStatus; an answer with no status panics.
unfoldable pub get_instance_status :
    {V : Type 0} → Ec2 → String → Action (World V Call) InstanceStatus
unfolding read_status
get_instance_status svc id =
    Action.◌>>=◌
      (wrap (status_prefix id) (request (describe_instance_status id) (λ log. svc.status log id)))
      λ outs. lift (first outs >>= read_status)

-- What it returns, as a function of the calls before it.
unfoldable pub instance_status : Ec2 → String → List Call → Result InstanceStatus
instance_status svc id log =
    on_error (errorf (status_prefix id)) (of_reply (svc.status log id)) >>= λ outs.
    first outs >>= read_status

pub get_instance_status_lem :
    {V : Type 0} (svc : Ec2) (id : String) (w : World V Call)
    → get_instance_status svc id w
      ≡ (instance_status svc id w.log, record w { log = describe_instance_status id ∷ w.log })
unfolding get_instance_status instance_status
get_instance_status_lem svc id w =
    resume-lift (on_error (errorf (status_prefix id)) (of_reply (svc.status w.log id)))
      (λ outs. first outs >>= read_status) (record w { log = describe_instance_status id ∷ w.log })
