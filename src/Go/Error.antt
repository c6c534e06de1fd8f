-- ===== src/Go/Error.antt =====
-- Go's `error` interface: the dynamic types that the program's errors have.
use libretto.Base.{ℕ, String, ◌<>◌}

-- The fields of a ReadyError (virtualmachine/aws/wait.go) but for the wrapped error.
pub record ReadyInfo : Type 0 where
  pub image_id : String
  pub instance_id : String
  pub instance_type : String
  -- a time.Time, whose zero is 0
  pub launch_time : ℕ
  pub public_ip_address : String
  pub state : String
  pub state_reason : String
  pub state_transition_reason : String
  pub subnet_id : String
  pub vpc_id : String

-- `new` is what errors.New and fmt.Errorf make, a text. `coded` is an awserr.Error of the AWS SDK,
-- with its code and text. `not_ready` is a ReadyError with the error that it wraps. `object_not_found` is an
-- ErrorObjectNotFound (virtualmachine/vsphere/vm.go).
pub data Error : Type 0 where
  new : String → Error
  coded : String → String → Error
  not_ready : Error → ReadyInfo → Error
  object_not_found : Error → String → Error

-- The method Error of the interface.
unfoldable pub message : Error → String
message (new s) = s
message (coded code s) = s
message (not_ready e info) =
    "failed waiting for instance (" <> info.instance_id <> ") to be ready, reason was: "
    <> info.state_reason
message (object_not_found e object) =
    "Could not retrieve the object '" <> object <> "' from the vSphere API: " <> message e

-- fmt.Errorf with one error as the last operand: the text in front of it, then its message.
unfoldable pub errorf : String → Error → Error
unfolding message
errorf prefix e = new (prefix <> message e)
