-- ===== src/Aws/Lifecycle/Tagging.antt =====
-- Provision and the tags.
use libretto.Base.{◌≡◌, refl, String, Bool, true, All, arith}
use libretto.Go.Result.{Result, ok, err, panic}
use libretto.Go.Action.{World}
use libretto.Go.Sends.{Sends, sends_rules}
use libretto.Aws.Types.{Vm}
use libretto.Aws.Api.{Ec2, Call, create_tags}
use libretto.Aws.Launch.{with_defaults}
use libretto.Aws.Wait.Ready.{wait_until_ready, wait_until_ready-Sends}
use libretto.Aws.Lifecycle.{
  launch, provision, label, set_non_root_delete_on_destroy, get_non_root_device_names,
}
use libretto.Aws.Lifecycle.Provision.{finish, launch-ok, wait_until_ready-vm}

-- Calls other than CreateTags.
abbrev pub IsNoTag : Call → Type 0
IsNoTag (create_tags ids key value) = ⊥
IsNoTag c = Unit {0}

launch-Sends : (svc : Ec2) → Sends IsNoTag (launch svc)
unfolding launch
launch-Sends svc = search (sends_rules, tt) depth 40

set_non_root-Sends :
    (svc : Ec2) (id : String) (b : Bool) → Sends IsNoTag (set_non_root_delete_on_destroy svc id b)
unfolding set_non_root_delete_on_destroy get_non_root_device_names
set_non_root-Sends svc id b = search (sends_rules, tt) depth 40

finish_untagged :
    (svc : Ec2) (id : String) (u : World Vm Call)
    → u.vm.delete_non_root_volume_on_destroy ≡ true
    → All IsNoTag u.log
    → All IsNoTag (finish svc id u).1.log
unfolding label
finish_untagged svc id u flag h =
    let t = (wait_until_ready svc id u).1 in
    let waited = (wait_until_ready-Sends {Q = IsNoTag} svc id (λ n. tt) tt).at u h in
    ground (
      arith,
      wait_until_ready-vm svc id u,
      (set_non_root-Sends svc t.vm.instance_id true).at t waited,
    )

untagged_by_launch :
    (svc : Ec2) (w : World Vm Call) (r : Result String)
    → (launch svc w).0 ≡ r
    → w.vm.delete_non_root_volume_on_destroy ≡ true
    → All IsNoTag w.log
    → All IsNoTag (provision svc w).1.log
unfolding provision with_defaults
untagged_by_launch svc w (ok id) e flag h =
    let (starts, t) = launch-ok svc w e in
    rw e (finish_untagged svc id (launch svc w).1 (rw t flag) ((launch-Sends svc).at w h))
untagged_by_launch svc w (err x) e flag h = rw e ((launch-Sends svc).at w h)
untagged_by_launch svc w panic e flag h = rw e ((launch-Sends svc).at w h)

-- Where DeleteNonRootVolumeOnDestroy is set, Provision sends no CreateTags call, whatever EC2
-- answers: the VM's name, which instanceInfo has filled in, is never set as a tag.
pub provision_untagged :
    (svc : Ec2) (w : World Vm Call)
    → w.vm.delete_non_root_volume_on_destroy ≡ true
    → All IsNoTag w.log
    → All IsNoTag (provision svc w).1.log
provision_untagged svc w = untagged_by_launch svc w (launch svc w).0 refl
