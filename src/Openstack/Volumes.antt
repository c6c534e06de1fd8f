-- ===== src/Openstack/Volumes.antt =====
-- virtualmachine/openstack/util.go: the volume of a VM, from its creation to its deletion.
pub mod Wait
pub mod Cleanup
use libretto.Base.{ℕ, String, Option, none, some, List, ◌∷◌, ◌==◌, ◌||◌, ◌<>◌, if◌then◌else◌, ◌≡◌}
use libretto.Go.Error.{Error, new, errorf, message}
use libretto.Go.Result.{Result, ok, err, Reply, answer, failure, deref}
use libretto.Go.Action.{
  World, ◌>>=◌, ◌>>◌, get, put, lift, send, fail, wrap, request, attempt, on_failure,
}
use libretto.Go.Retry.{Verdict, again, stop, retry}
use libretto.Go.Poll.{Ends, poll-Ends}
use libretto.Machine.{vm_error}
use libretto.Openstack.Types.{
  Vm, volume_state_available, volume_state_in_use, volume_state_deleted,
  volume_state_error_deleting, volume_action_timeout, err_action_timeout,
}
use libretto.Openstack.Api.{
  Cloud, Call, Method, VolumeOpts, create_volume, get_volume, delete_volume, attach_volume,
  detach_volume,
}
use libretto.Openstack.Clients.{
  get_compute_client, get_block_storage_client, check_id, shown, pause, paused, pause_lem,
}

abbrev Nothing : Type 0
Nothing = Unit {0}

-- The error that a reply has.
abbrev pub error_of : {A : Type 0} → Reply A → Option Error
error_of (answer a) = none
error_of (failure e) = some e

abbrev pub VolumeReply : Type 0
VolumeReply = Option String × Option Error

status_error : Option Error → Error
status_error e = new ("failed on getting volume Status: " <> shown e)

-- The cases on the status of a volume that is there.
pub status_switch : String → String → Result (Verdict Nothing Nothing)
status_switch state status =
    if status == state
    then ok (stop tt)
    else if status == vm_error || status == volume_state_error_deleting
    then err
        (new ("failed to bring the volume to state " <> state <> ", ended up at state " <> status))
    else ok (again tt)

-- The `switch` of waitUntilVolume, the first case first.
unfoldable pub volume_test : String → VolumeReply → Result (Verdict Nothing Nothing)
unfolding status_switch status_error
volume_test state (none, e) = if state == "nil" then ok (stop tt) else err (status_error e)
volume_test state (some status, some e) = err (status_error (some e))
volume_test state (some status, none) = status_switch state status

module _ (svc : Cloud) where
  volume_round : String → String → ℕ → Nothing → Method (Verdict Nothing Nothing)
  volume_round id state i l = do
    reply ← send (get_volume id) (λ log. svc.volume log id)
    pause (volume_test state reply)

  unfoldable pub wait_until_volume : String → String → Method Nothing
  unfolding volume_round retry
  wait_until_volume id state =
      retry (volume_round id state) (λ l. fail err_action_timeout) volume_action_timeout 0 tt

  abbrev pub volume_verdict : String → String → List Call → Result (Verdict Nothing Nothing)
  volume_verdict id state log = volume_test state (svc.volume log id)

  -- The calls of a round: the query, and a pause if the loop goes on.
  abbrev pub volume_calls : String → String → ℕ → List Call → List Call
  volume_calls id state k log = paused (volume_verdict id state log) (get_volume id ∷ log)

  pub wait_until_volume-Ends :
      (id state : String) (w : World Vm Call)
      → Ends
          (volume_calls id state)
          (λ k log. volume_verdict id state log)
          (λ l. fail err_action_timeout)
          volume_action_timeout
          w
          (wait_until_volume id state w).0
          (wait_until_volume id state w).1
  unfolding wait_until_volume volume_round
  wait_until_volume-Ends id state w =
      poll-Ends _ _ (volume_round id state) _
        (λ k l u.
          pause_lem (volume_verdict id state u.log) (record u { log = get_volume id ∷ u.log }))
        899 w tt

  -- The closure `cleanup` of createAndAttachVolume, which always returns an error.
  unfoldable pub cleanup : {A : Type 0} → String → Error → Method A
  unfolding message
  cleanup id e = do
    reply ← attempt (request (delete_volume id) (λ log. svc.remove_volume log id))
    fail (elim reply [ answer a ↦ e | failure x ↦ new (message e <> " " <> message x) ])

  -- createAndAttachVolume up to the id of the new volume.
  unfoldable pub create_volume_of : Method String
  create_volume_of = do
    vm ← get
    check_id vm
    wrap "compute client is not set for the VM, " (get_compute_client svc)
    get_block_storage_client svc
    let volume = vm.volume
    let opts : VolumeOpts = record {
      size = volume.size;
      name = volume.name;
      volume_type = volume.volume_type;
    }
    made ←
        wrap "failed to create a new volume for the VM: "
          (request (create_volume opts) (λ log. svc.make_volume log opts))
    lift (deref made)

  -- The last statements of createAndAttachVolume: a nil attachment panics after the id is written.
  pub record_attachment : String → Option String → Method Nothing
  record_attachment id attachment = do
    vm ← get
    let volume = vm.volume
    put (record vm { volume = record volume { id = id } })
    device ← lift (deref attachment)
    put (record vm { volume = record volume { id = id; device = device } })

  -- Its failed wait for the attachment: the attachment is deleted, then the volume.
  pub undo_attachment : String → String → Error → Method Nothing
  unfolding message
  undo_attachment server id e = do
    reply ← attempt (request (detach_volume server id) (λ log. svc.detach log server id))
    cleanup id (
        new
          ("failed to attach the volume to the VM: " <> message e <> " " <> shown (error_of reply)))

  -- The rest, from the new volume's id on.
  unfoldable pub attach_new : String → Method Nothing
  unfolding record_attachment undo_attachment
  attach_new id = do
    vm ← get
    on_failure (wait_until_volume id volume_state_available)
        (λ e. cleanup id (errorf "failed to create a new volume for the VM: " e))
    let volume = vm.volume
    attachment ←
        on_failure
          (request (attach_volume vm.instance_id volume.device id)
            (λ log. svc.attach log vm.instance_id volume.device id))
          (λ e. cleanup id (errorf "failed to attach the volume to the VM: " e))
    on_failure (wait_until_volume id volume_state_in_use) (undo_attachment vm.instance_id id)
    record_attachment id attachment

  unfoldable pub create_and_attach_volume : Method Nothing
  create_and_attach_volume = do id ← create_volume_of; attach_new id

  unfoldable pub deattach_and_delete_volume : Method Nothing
  deattach_and_delete_volume = do
    vm ← get
    check_id vm
    wrap "compute client is not set for the VM, " (get_compute_client svc)
    get_block_storage_client svc
    let id = vm.volume.id
    wrap "failed to deattach volume from the VM: "
        (request (detach_volume vm.instance_id id) (λ log. svc.detach log vm.instance_id id))
    wrap "failed to deattach volume from the VM: " (wait_until_volume id volume_state_available)
    wrap "failed to delete volume: " (request (delete_volume id) (λ log. svc.remove_volume log id))
    wrap "failed to delete volume: " (wait_until_volume id volume_state_deleted)
