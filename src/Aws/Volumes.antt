-- ===== src/Aws/Volumes.antt =====
-- virtualmachine/aws/vm.go: the operations on the first volume of the VM, and getVolumeInput of
-- util.go.
pub mod Effects
use libretto.Base.{none, some, List, [], ◌∷◌, ◌==◌, ◌<>◌, if◌then◌else◌}
use libretto.Go.Result.{deref, first}
use libretto.Go.Action.{◌>>=◌, ◌>>◌, get, put, lift, wrap, request}
use libretto.Aws.Types.{EbsBlockVolume}
use libretto.Aws.Api.{
  Ec2, Method, CreateVolumeInput, create_volume, attach_volume, detach_volume, delete_volume,
}
use libretto.Aws.Service.{with_service, get_instance_status}
use libretto.Aws.Launch.{default_volume_size, default_volume_type}
use libretto.Aws.Wait.Volume.{wait_for_create, wait_for_attach, wait_for_detach}

abbrev Nothing : Type 0
Nothing = Unit {0}

-- getVolumeInput, first what it writes to the volume, then the request.
pub volume_defaults : EbsBlockVolume → EbsBlockVolume
volume_defaults v = record v {
  volume_size = elim v.volume_size [ none ↦ some default_volume_size | some s ↦ some s ];
  volume_type = if v.volume_type == "" then default_volume_type else v.volume_type;
}

pub volume_input : EbsBlockVolume → CreateVolumeInput
volume_input v = record {
  availability_zone = v.availability_zone;
  size = v.volume_size;
  volume_type = v.volume_type;
}

-- `vm.Volumes[0] = volume`.
pub set_first : List EbsBlockVolume → EbsBlockVolume → List EbsBlockVolume
set_first [] v = []
set_first (x ∷ xs) v = v ∷ xs

module _ (svc : Ec2) where
  abbrev the_volume : Method EbsBlockVolume
  the_volume = do vm ← with_service svc "Failed to get AWS service: "; lift (first vm.volumes)

  unfoldable pub create : Method Nothing
  unfolding volume_defaults volume_input set_first
  create = do
    volume ← the_volume
    before ← get
    status ←
        wrap "Failed to get availability zone of instance: "
          (get_instance_status svc before.instance_id)
    let placed = volume_defaults (record volume { availability_zone = status.availability_zone })
    response ← wrap "Failed to create volume: " (
        request (create_volume (volume_input placed))
          (λ log. svc.make_volume log (volume_input placed)))
    id ← lift (deref response)
    wait_for_create svc id
    vm ← get
    put (record vm { volumes = set_first vm.volumes (record placed { volume_id = id }) })

  -- The text of fmt.Errorf here names the volume only; its verb for the instance has no operand.
  pub attach : Method Nothing
  attach = do
    volume ← the_volume
    vm ← get
    wrap ("Failed to attach volume (volumeId " <> volume.volume_id <> ") to instance: ") (
        request (attach_volume volume.device_name vm.instance_id volume.volume_id)
          (λ log. svc.attach log volume.device_name vm.instance_id volume.volume_id))
    wait_for_attach svc volume.volume_id

  pub detach : Method Nothing
  detach = do
    volume ← the_volume
    wrap ("Failed to detach volume (volumeId " <> volume.volume_id <> ") from instance: ")
        (request (detach_volume volume.volume_id) (λ log. svc.detach log volume.volume_id))
    wait_for_detach svc volume.volume_id

  pub delete : Method Nothing
  delete = do
    volume ← the_volume
    wrap ("Failed to delete volume (volumeId " <> volume.volume_id <> "): ")
        (request (delete_volume volume.volume_id) (λ log. svc.remove_volume log volume.volume_id))
