-- ===== src/Openstack/Destroy/Errors.antt =====
-- Destroy of virtualmachine/openstack/vm.go returns nil only if each of its steps does.
use libretto.Base.{◌≡◌, ◌≢◌, refl, true, false, ◌==◌, ◌↔◌, ◌⊎◌, inl, inr, arith}
use libretto.Go.Result.{Result, ok, err, panic}
use libretto.Go.Action.{World}
use libretto.Openstack.Types.{Vm}
use libretto.Openstack.Api.{Cloud, Call}
use libretto.Openstack.Clients.{get_compute_client}
use libretto.Openstack.Servers.{delete_vm}
use libretto.Openstack.Destroy.{returned, release_ip, release_volume, destroy}

module _ (svc : Cloud) (w : World Vm Call) where
  -- The worlds after the steps on the floating address and on the volume, whatever these returned.
  abbrev pub after_ip : World Vm Call
  after_ip = (release_ip svc w.vm w).1

  abbrev pub after_volume : World Vm Call
  after_volume = (release_volume svc w.vm after_ip).1

  release_ip-ends : (release_ip svc w.vm w).0 ≢ panic
  unfolding release_ip
  release_ip-ends e = ground arith

  order :
      w.vm.compute_client ≡ true
      → (w.vm.instance_id == "") ≡ false
      → (release_volume svc w.vm after_ip).0 ≢ panic
      → (destroy svc w).1.log ≡ (delete_vm svc after_volume).1.log
  unfolding destroy get_compute_client
  order c n h = let e = release_ip-ends in ground arith

  panic-cases : (r : Result (Unit {0})) → (r ≡ panic) ⊎ (r ≢ panic)
  panic-cases (ok a) = inr (λ e. absurd (cc))
  panic-cases (err e) = inr (λ h. absurd (cc))
  panic-cases panic = inl refl

  -- For a VM with an id and a client, Destroy returns nil if and only if its three steps do. Whatever the
  -- release of the floating address and that of the volume return, unless the latter panics, the calls
  -- of Destroy are those of the deletion of the server after the other two.
  pub destroy-ok_iff :
      w.vm.compute_client ≡ true
      → (w.vm.instance_id == "") ≡ false
      → (((destroy svc w).0 ≡ ok tt) ↔ (
          ((release_ip svc w.vm w).0 ≡ ok tt)
          × ((release_volume svc w.vm after_ip).0 ≡ ok tt)
          × ((delete_vm svc after_volume).0 ≡ ok tt)))
        × (((release_volume svc w.vm after_ip).0 ≡ panic)
            ⊎ ((destroy svc w).1.log ≡ (delete_vm svc after_volume).1.log))
  unfolding destroy get_compute_client returned
  destroy-ok_iff c n = (
    ((λ h. (ground arith, ground arith, ground arith)), (λ h. ground arith)),
    elim (panic-cases (release_volume svc w.vm after_ip).0) [
      | inl e ↦ inl e
      | inr e ↦ inr (order c n e)
    ],
  )
