-- ===== src/Aws/Lifecycle/Guards.antt =====
-- What the operations on an instance do before Provision has set the instance's id.
use libretto.Base.{◌≡◌, String}
use libretto.Go.Result.{ok, err}
use libretto.Go.Action.{World}
use libretto.Aws.Types.{Vm}
use libretto.Aws.Api.{Ec2, Call}
use libretto.Aws.Service.{get_service, err_no_instance_id}
use libretto.Aws.Lifecycle.{set_tag, get_ips, get_state, destroy, halt, start}

-- With a service for its region but no instance id, a VM can be neither tagged, asked for its
-- addresses or state, destroyed, halted nor started: each of these returns ErrNoInstanceID, sends
-- no call and leaves the struct as it is.
pub no_instance_id :
    (svc : Ec2) (key value : String) (w : World Vm Call)
    → get_service svc w.vm.region ≡ ok tt
    → w.vm.instance_id ≡ ""
    → (set_tag svc key value w ≡ (err err_no_instance_id, w))
      × (get_ips svc w ≡ (err err_no_instance_id, w))
      × (get_state svc w ≡ (err err_no_instance_id, w))
      × (destroy svc w ≡ (err err_no_instance_id, w))
      × (halt svc w ≡ (err err_no_instance_id, w))
      × (start svc w ≡ (err err_no_instance_id, w))
unfolding set_tag get_ips get_state destroy halt start
no_instance_id svc key value w s h =
    (rw (s, h), rw (s, h), rw (s, h), rw (s, h), rw (s, h), rw (s, h))
