-- ===== src/Aws/Volumes/Effects.antt =====
-- What the operations on volumes write to the VM's struct.
use libretto.Base.{ℕ, ◌<◌, ◌≡◌, refl, ap, String, Option, none, some, List, ◌∷◌, arith}
use libretto.Go.Result.{Result, ok, err, panic, Reply, answer, failure}
use libretto.Go.Action.{World}
use libretto.Go.Keeps.{Keeps, keeps_rules}
use libretto.Go.Poll.{Ends-log}
use libretto.Aws.Types.{Vm, EbsBlockVolume, InstanceStatus}
use libretto.Aws.Api.{Ec2, Call, create_volume, describe_instance_status}
use libretto.Aws.Service.{instance_status, get_instance_status_lem}
use libretto.Aws.Wait.Volume.{
  max_retries, volume_timeout-quiet, wait_until_volume_state, wait_until_volume_state-Ends,
  wait_for_create, wait_for_attach, wait_for_detach,
}
use libretto.Aws.Wait.Volume.First.{Finds, IsPending, volume_poll, wait_until_volume_state-ok_iff}
use libretto.Aws.Volumes.{volume_defaults, volume_input, create, attach, detach, delete}

module _ (svc : Ec2) (id : String) where
  wait-Keeps : (wanted : String) → Keeps (wait_until_volume_state svc id wanted)
  wait-Keeps wanted = record {
    at = λ w.
        let (k, le, t) =
          Ends-log _ _ _ _ w (wait_until_volume_state-Ends svc id wanted w)
            (volume_timeout-quiet wanted) in
        ap (λ (u : World Vm Call). u.vm) t;
  }

  wait_for_create-Keeps : Keeps (wait_for_create svc id)
  unfolding wait_for_create
  wait_for_create-Keeps = wait-Keeps "available"

  wait_for_attach-Keeps : Keeps (wait_for_attach svc id)
  unfolding wait_for_attach
  wait_for_attach-Keeps = wait-Keeps "in-use"

  wait_for_detach-Keeps : Keeps (wait_for_detach svc id)
  unfolding wait_for_detach
  wait_for_detach-Keeps = wait-Keeps "available"

ruleset volume_rules =
    (keeps_rules, wait_for_create-Keeps, wait_for_attach-Keeps, wait_for_detach-Keeps)

attach-Keeps : (svc : Ec2) → Keeps (attach svc)
unfolding attach
attach-Keeps svc = search volume_rules depth 40

detach-Keeps : (svc : Ec2) → Keeps (detach svc)
unfolding detach
detach-Keeps svc = search volume_rules depth 40

delete-Keeps : (svc : Ec2) → Keeps (delete svc)
unfolding delete
delete-Keeps svc = search volume_rules depth 40

module _ (svc : Ec2) (w : World Vm Call) (v : EbsBlockVolume) (vs : List EbsBlockVolume)
    (e : w.vm.volumes ≡ v ∷ vs) where
  -- The world after the query for the zone, the volume asked for, and the world after asking.
  abbrev pub asked : World Vm Call
  asked = record w { log = describe_instance_status w.vm.instance_id ∷ w.log }

  abbrev pub wanted : InstanceStatus → EbsBlockVolume
  wanted s = volume_defaults (record v { availability_zone = s.availability_zone })

  abbrev pub sent : InstanceStatus → World Vm Call
  sent s = record asked { log = create_volume (volume_input (wanted s)) ∷ asked.log }

  -- EC2 has given the zone of the instance and an id for the volume.
  abbrev pub Creates : InstanceStatus → String → Type 0
  Creates s id =
      (instance_status svc w.vm.instance_id w.log ≡ ok s)
      × (svc.make_volume asked.log (volume_input (wanted s)) ≡ answer (some id))

  -- The struct with that volume in place of the first one.
  abbrev pub with_created : InstanceStatus → String → Vm
  with_created s id =
      let vm = w.vm in let c = wanted s in record vm { volumes = record c { volume_id = id } ∷ vs }

  create_by_reply :
      (s : InstanceStatus) (r : Reply (Option String))
      → instance_status svc w.vm.instance_id w.log ≡ ok s
      → svc.make_volume asked.log (volume_input (wanted s)) ≡ r
      → (create svc w).0 ≡ ok tt
      → (id : String) × Creates s id
        × ((wait_for_create svc id (sent s)).0 ≡ ok tt)
        × ((create svc w).1.vm ≡ with_created s id)
  unfolding create
  create_by_reply s (failure x) q r h =
      absurd (ground (arith, get_instance_status_lem svc w.vm.instance_id w))
  create_by_reply s (answer none) q r h =
      absurd (ground (arith, get_instance_status_lem svc w.vm.instance_id w))
  create_by_reply s (answer (some id)) q r h = (
    id,
    (q, r),
    ground (arith, get_instance_status_lem svc w.vm.instance_id w),
    ground (
      arith,
      get_instance_status_lem svc w.vm.instance_id w,
      (wait_for_create-Keeps svc id).at (sent s),
    ),
  )

  create_by_status :
      (r : Result InstanceStatus)
      → instance_status svc w.vm.instance_id w.log ≡ r
      → (create svc w).0 ≡ ok tt
      → (s : InstanceStatus) × (r ≡ ok s)
  unfolding create
  create_by_status (ok s) q h = (s, refl)
  create_by_status (err x) q h =
      absurd (ground (arith, get_instance_status_lem svc w.vm.instance_id w))
  create_by_status panic q h =
      absurd (ground (arith, get_instance_status_lem svc w.vm.instance_id w))

  -- Where CreateVolume returns nil for a VM with a volume, EC2 has given the zone of the instance and
  -- an id for the volume asked for (the VM's first one with the default size and type filled in, in
  -- that zone), some query after it has found the volume available and no earlier one in error, and
  -- that volume with that id has taken the first one's place in an otherwise unchanged struct.
  pub create-ok :
      (create svc w).0 ≡ ok tt
      → (s : InstanceStatus) × (id : String) × Creates s id
        × ((k : ℕ) × (k < max_retries)
            × Finds "available" (volume_poll svc id "available" (sent s) k)
            × ((j : ℕ) → j < k → IsPending "available" (volume_poll svc id "available" (sent s) j)))
        × ((create svc w).1.vm ≡ with_created s id)
  unfolding wait_for_create
  create-ok h =
      let (s, q) = create_by_status (instance_status svc w.vm.instance_id w.log) refl h in
      let (id, creates, waited, kept) =
        create_by_reply s (svc.make_volume asked.log (volume_input (wanted s))) q refl h in
      (
        s,
        id,
        creates,
        (wait_until_volume_state-ok_iff svc id "available" (sent s) refl).0 waited,
        kept,
      )

-- AttachVolume, DetachVolume and DeleteVolume leave the VM's struct as it is, however they end.
pub volumes_keep :
    (svc : Ec2) (w : World Vm Call)
    → ((attach svc w).1.vm ≡ w.vm) × ((detach svc w).1.vm ≡ w.vm) × ((delete svc w).1.vm ≡ w.vm)
volumes_keep svc w = ((attach-Keeps svc).at w, (detach-Keeps svc).at w, (delete-Keeps svc).at w)
