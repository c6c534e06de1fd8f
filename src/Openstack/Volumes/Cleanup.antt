-- ===== src/Openstack/Volumes/Cleanup.antt =====
-- What createAndAttachVolume of virtualmachine/openstack/util.go leaves behind.
use libretto.Base.{◌≡◌, refl, String, Option, none, some, List, ◌∷◌, arith, subst, sym, ◌∙◌}
use libretto.Go.Error.{Error, errorf}
use libretto.Go.Result.{Result, ok, err, panic}
use libretto.Go.Action.{World, ◌>>=◌, resume, recover, request, on_failure}
use libretto.Openstack.Types.{Vm, Volume, volume_state_available, volume_state_in_use}
use libretto.Openstack.Api.{Cloud, Call, Method, delete_volume, attach_volume, detach_volume}
use libretto.Go.Stays.{Stays, stays_rules}
use libretto.Openstack.Clients.{
  instead, get_provider_client, get_compute_client, get_block_storage_client,
}
use libretto.Openstack.Volumes.{
  wait_until_volume, cleanup, record_attachment, undo_attachment, attach_new, create_volume_of,
  create_and_attach_volume,
}
use libretto.Openstack.Volumes.Wait.{wait_until_volume-vm}

-- The last call is the deletion of this volume, and the struct is that one.
abbrev pub Undone : String → Vm → World Vm Call → Type 0
Undone id vm t = (log : List Call) × (t.log ≡ delete_volume id ∷ log) × (t.vm ≡ vm)

cleanup-Undone :
    (A : Type 0) (svc : Cloud) (id : String) (e : Error) (w : World Vm Call)
    → Undone id w.vm (cleanup svc {A = A} id e w).1
unfolding cleanup
cleanup-Undone A svc id e w = (w.log, ground arith, ground arith)

undo-Undone :
    (svc : Cloud) (server id : String) (e : Error) (w : World Vm Call)
    → Undone id w.vm (undo_attachment svc server id e w).1
unfolding undo_attachment cleanup
undo-Undone svc server id e w = (detach_volume server id ∷ w.log, ground arith, ground arith)

cleanup-fails :
    {A : Type 0} (svc : Cloud) (id : String) (e : Error) (w : World Vm Call) (a : A)
    → ¬ ((cleanup svc {A = A} id e w).0 ≡ ok a)
unfolding cleanup
cleanup-fails svc id e w a h = ground arith

undo-fails :
    (svc : Cloud) (server id : String) (e : Error) (w : World Vm Call)
    → ¬ ((undo_attachment svc server id e w).0 ≡ ok tt)
unfolding undo_attachment cleanup
undo-fails svc server id e w h = ground arith

module _ (id : String) (vm : Vm) {A : Type 0} where
  -- An action that, from this struct, undoes the creation of the volume if it fails, and leaves the
  -- struct as it is if it succeeds.
  abbrev Cleans : Method A → Type 0
  Cleans m = (u : World Vm Call) → u.vm ≡ vm → (e : Error) → (m u).0 ≡ err e → Undone id vm (m u).1

  abbrev Holds : Method A → Type 0
  Holds m = (u : World Vm Call) → u.vm ≡ vm → (a : A) → (m u).0 ≡ ok a → (m u).1.vm ≡ vm

  recover-Undone :
      (r : Result A) (h : Error → Method A) (s : World Vm Call) {e : Error}
      → ((x : Error) → Undone id vm (h x s).1)
      → (recover r h s).0 ≡ err e
      → Undone id vm (recover r h s).1
  recover-Undone (ok a) h s undone q = absurd (cc)
  recover-Undone (err x) h s undone q = undone x
  recover-Undone panic h s undone q = absurd (cc)

  recover-vm :
      (r : Result A) (h : Error → Method A) (s : World Vm Call) {a : A}
      → ((x : Error) → ¬ ((h x s).0 ≡ ok a))
      → (recover r h s).0 ≡ ok a
      → (recover r h s).1.vm ≡ s.vm
  recover-vm (ok a) h s fails q = refl
  recover-vm (err x) h s fails q = absurd (fails x q)
  recover-vm panic h s fails q = absurd (cc)

  module _ (m : Method A) (h : Error → Method A)
      (same : (u : World Vm Call) → (m u).1.vm ≡ u.vm) where
    failure-Cleans :
        ((x : Error) (u : World Vm Call) → Undone id u.vm (h x u).1) → Cleans (on_failure m h)
    failure-Cleans undone u v e q =
        recover-Undone (m u).0 h (m u).1
          (λ x. subst (λ t. Undone id t (h x (m u).1).1) (same u ∙ v) (undone x (m u).1)) q

    failure-Holds :
        ((x : Error) (u : World Vm Call) (a : A) → ¬ ((h x u).0 ≡ ok a)) → Holds (on_failure m h)
    failure-Holds fails u v a q =
        recover-vm (m u).0 h (m u).1 (λ x. fails x (m u).1 a) q ∙ same u ∙ v

module _ (id : String) (vm : Vm) {A B : Type 0} where
  resume-Cleans :
      (r : Result A) (f : A → Method B) (s : World Vm Call) {e : Error}
      → ((x : Error) → r ≡ err x → Undone id vm s)
      → ((a : A) → r ≡ ok a → s.vm ≡ vm)
      → ((a : A) → Cleans id vm (f a))
      → (resume r f s).0 ≡ err e
      → Undone id vm (resume r f s).1
  resume-Cleans (ok a) f s undone kept rest q = rest a s (kept a refl) _ q
  resume-Cleans (err x) f s undone kept rest q = undone x refl
  resume-Cleans panic f s undone kept rest q = absurd (cc)

  bind-Cleans :
      (m : Method A) (f : A → Method B)
      → Cleans id vm m
      → Holds id vm m
      → ((a : A) → Cleans id vm (f a))
      → Cleans id vm (m >>= f)
  bind-Cleans m f cleans holds rest u v e q =
      resume-Cleans (m u).0 f (m u).1 (cleans u v) (holds u v) rest q

record-Cleans :
    (svc : Cloud) (id : String) (vm : Vm) (d : Option String)
    → Cleans id vm (record_attachment svc id d)
unfolding record_attachment
record-Cleans svc id vm none u v e q = absurd (cc)
record-Cleans svc id vm (some d) u v e q = absurd (cc)

module _ (svc : Cloud) (id : String) (w : World Vm Call) where
  abbrev make_available : Method (Unit {0})
  make_available =
      on_failure (wait_until_volume svc id volume_state_available)
        (λ e. cleanup svc id (errorf "failed to create a new volume for the VM: " e))

  abbrev attaching : Method (Option String)
  attaching =
      on_failure
        (request (attach_volume w.vm.instance_id w.vm.volume.device id)
          (λ log. svc.attach log w.vm.instance_id w.vm.volume.device id))
        (λ e. cleanup svc id (errorf "failed to attach the volume to the VM: " e))

  abbrev be_used : Method (Unit {0})
  be_used =
      on_failure (wait_until_volume svc id volume_state_in_use)
        (undo_attachment svc w.vm.instance_id id)

  use-Cleans : (d : Option String) → Cleans id w.vm (be_used >>= λ b. record_attachment svc id d)
  use-Cleans d =
      bind-Cleans id w.vm be_used (λ b. record_attachment svc id d)
        (failure-Cleans id w.vm (wait_until_volume svc id volume_state_in_use)
          (undo_attachment svc w.vm.instance_id id)
          (wait_until_volume-vm svc id volume_state_in_use) (undo-Undone svc w.vm.instance_id id))
        (failure-Holds id w.vm (wait_until_volume svc id volume_state_in_use)
          (undo_attachment svc w.vm.instance_id id)
          (wait_until_volume-vm svc id volume_state_in_use)
          (λ x u b. undo-fails svc w.vm.instance_id id x u))
        (λ b. record-Cleans svc id w.vm d)

  abbrev after_available : Method (Unit {0})
  after_available = attaching >>= λ d. be_used >>= λ b. record_attachment svc id d

  attach-Cleans : Cleans id w.vm after_available
  attach-Cleans =
      bind-Cleans id w.vm attaching (λ d. be_used >>= λ b. record_attachment svc id d)
        (failure-Cleans id w.vm _ _ (λ u. refl)
          (λ x u. cleanup-Undone _ svc id (errorf "failed to attach the volume to the VM: " x) u))
        (failure-Holds id w.vm _ _ (λ u. refl)
          (λ x u b. cleanup-fails svc id (errorf "failed to attach the volume to the VM: " x) u b))
        use-Cleans

  attach_new-err :
      (e : Error) → (attach_new svc id w).0 ≡ err e → Undone id w.vm (attach_new svc id w).1
  unfolding attach_new
  attach_new-err e h =
      bind-Cleans id w.vm make_available (λ a. after_available)
        (failure-Cleans id w.vm _ _ (wait_until_volume-vm svc id volume_state_available) (λ x u.
          cleanup-Undone _ svc id (errorf "failed to create a new volume for the VM: " x) u))
        (failure-Holds id w.vm _ _ (wait_until_volume-vm svc id volume_state_available) (λ x u a.
          cleanup-fails svc id (errorf "failed to create a new volume for the VM: " x) u a))
        (λ a. attach-Cleans) w refl e h

  attach_new-ok : (attach_new svc id w).0 ≡ ok tt → (attach_new svc id w).1.vm.volume.id ≡ id
  unfolding attach_new record_attachment
  attach_new-ok h = ground (arith)

module _ (svc : Cloud) (v : Volume) where
  -- The struct has this volume.
  abbrev HasVolume : Vm → Type 0
  HasVolume vm = vm.volume ≡ v

  get_provider_client-Stays : Stays HasVolume (get_provider_client svc)
  unfolding get_provider_client
  get_provider_client-Stays = search stays_rules

  instead-Stays :
      {A : Type 0} (e : Error) (m : Method A) → Stays HasVolume m → Stays HasVolume (instead e m)
  instead-Stays e m s = record { at = λ w h. s.at w h }

  get_compute_client-Stays : Stays HasVolume (get_compute_client svc)
  unfolding get_compute_client
  get_compute_client-Stays = search (stays_rules, instead-Stays, get_provider_client-Stays) depth 12

  get_block_storage_client-Stays : Stays HasVolume (get_block_storage_client svc)
  unfolding get_block_storage_client
  get_block_storage_client-Stays =
      search (stays_rules, instead-Stays, get_provider_client-Stays) depth 12

  create_volume_of-Stays : Stays HasVolume (create_volume_of svc)
  unfolding create_volume_of
  create_volume_of-Stays =
      search (stays_rules, get_compute_client-Stays, get_block_storage_client-Stays) depth 16

module _ (svc : Cloud) (w : World Vm Call) (id : String)
    (made : (create_volume_of svc w).0 ≡ ok id) where
  abbrev pub after : World Vm Call
  after = (create_volume_of svc w).1

  joins : create_and_attach_volume svc w ≡ attach_new svc id after
  unfolding create_and_attach_volume
  joins = rw made

  create_volume_of-volume : after.vm.volume ≡ w.vm.volume
  create_volume_of-volume = (create_volume_of-Stays svc w.vm.volume).at w refl

  -- Once OpenStack has made a volume, where createAndAttachVolume returns an error, its last call asks
  -- OpenStack to delete that volume, and the struct is as it was after the creation, with the volume
  -- that it had before: the id of the new one is not written to it.
  pub create_and_attach_volume-Undone :
      (e : Error)
      → (create_and_attach_volume svc w).0 ≡ err e
      → Undone id after.vm (create_and_attach_volume svc w).1 × (after.vm.volume ≡ w.vm.volume)
  create_and_attach_volume-Undone e h =
      (rw joins (attach_new-err svc id after e (rw (sym joins) h)), create_volume_of-volume)

  pub create_and_attach_volume-ok :
      (create_and_attach_volume svc w).0 ≡ ok tt
      → (create_and_attach_volume svc w).1.vm.volume.id ≡ id
  create_and_attach_volume-ok = rw joins (attach_new-ok svc id after)
