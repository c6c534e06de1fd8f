-- ===== src/Openstack/Destroy.antt =====
-- virtualmachine/openstack/vm.go: Destroy, which goes on after an error and returns all of them.
pub mod Errors
use libretto.Base.{false, none, some, List, [], ◌∷◌, ◌++◌, ◌==◌, ◌<>◌, if◌then◌else◌}
use libretto.Go.Error.{Error, new, message}
use libretto.Go.Result.{Result, ok, err, answer, failure}
use libretto.Go.Action.{◌>>=◌, ◌>>◌, get, put, pure, lift, wrap, request, attempt}
use libretto.Openstack.Types.{Vm}
use libretto.Openstack.Api.{Cloud, Method, disassociate_floating_ip, delete_floating_ip}
use libretto.Openstack.Clients.{get_compute_client, check_id}
use libretto.Openstack.Servers.{delete_vm}
use libretto.Openstack.Volumes.{deattach_and_delete_volume}

abbrev Nothing : Type 0
Nothing = Unit {0}

-- The error of a step, if it has one, appended to the slice of errors.
abbrev pub collected : List Error → Method Nothing → Method (List Error)
collected es m = do
  reply ← attempt m
  pure (elim reply [ answer a ↦ es | failure e ↦ es ++ e ∷ [] ])

-- The loop that joins the errors into one text.
pub joined : Error → List Error → Error
unfolding message
joined e [] = e
joined e (x ∷ xs) = joined (new (message e <> ", " <> message x)) xs

unfoldable pub returned : List Error → Result Nothing
unfolding joined
returned [] = ok tt
returned (e ∷ es) = err (joined e es)

module _ (svc : Cloud) where
  -- The floating address is taken from the server, then deleted.
  unfoldable pub release_ip : Vm → Method Nothing
  release_ip vm = elim vm.floating_ip [
    | none ↦ pure tt
    | some fip ↦ do
      wrap "unable to disassociate floating ip from instance: " (
          request (disassociate_floating_ip vm.instance_id fip.ip)
            (λ log. svc.disassociate log vm.instance_id fip.ip))
      wrap "unable to delete floating ip: "
          (request (delete_floating_ip fip.id) (λ log. svc.remove_floating_ip log fip.id))
  ]

  unfoldable pub release_volume : Vm → Method Nothing
  release_volume vm = if vm.volume.id == "" then pure tt else deattach_and_delete_volume svc

  unfoldable pub destroy : Method Nothing
  destroy = do
    vm ← get
    check_id vm
    wrap "compute client is not set for the VM, " (get_compute_client svc)
    e1 ← collected [] (release_ip vm)
    e2 ← collected e1 (release_volume vm)
    es ← collected e2 (delete_vm svc)
    left ← get
    put (record left { compute_client = false })
    lift (returned es)
