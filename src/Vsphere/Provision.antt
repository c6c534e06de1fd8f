-- ===== src/Vsphere/Provision.antt =====
-- virtualmachine/vsphere/vm.go: Provision.
pub mod Places
pub mod Named
pub mod Fresh
use libretto.Base.{
  ℕ, String, Bool, true, false, Option, none, some, List, [], ◌∷◌, ◌<>◌, equal, if◌then◌else◌,
}
use libretto.Go.Error.{new, object_not_found}
use libretto.Go.Action.{◌>>=◌, ◌>>◌, pure, fail, get, put, wrap}
use libretto.Vsphere.Types.{
  Vm, skip_template_error, skip_template_overwrite, skip_template_use, get_temp_search_filter,
  get_vm_search_filter, error_vm_exists,
}
use libretto.Vsphere.Api.{Cloud, Method, MoDatacenter}
use libretto.Vsphere.Session.{setup_session, get_datacenter, deferred}
use libretto.Vsphere.Search.{exists_vm}
use libretto.Vsphere.Reconfigure.{choose, create_template_name}
use libretto.Vsphere.Clone.{clone_from_template}
use libretto.Vsphere.Templates.{renamed, delete_template, upload_template}

module _ {F : Type 0} (cloud : Cloud F) where
  -- What Provision does with a template that is there: it is used, or it is overwritten. The
  -- last message ends in the address of SkipExisting, which is left out.
  abbrev pub skipped : ℕ → MoDatacenter → String → Vm F → Option ℕ → Method F (Unit {0})
  skipped depth dc ds vm none = fail (new "Mandatory parameter SkipExising not given")
  skipped depth dc ds vm (some skip) =
      if equal skip skip_template_use
      then pure tt
      else (if equal skip skip_template_error
          then fail (new ("Template already exists: " <> vm.template.name))
          else (if equal skip skip_template_overwrite
              then (do delete_template cloud; upload_template cloud depth dc ds)
              else fail (new "Unsupported value for SkipExisting parameter")))

  -- A round of the loop over the datastores.
  unfoldable pub ready_template : ℕ → MoDatacenter → String → Method F (Unit {0})
  unfolding exists_vm create_template_name delete_template upload_template get_temp_search_filter
  ready_template depth dc ds = do
    given ← get
    put (
        if given.use_local_templates
        then record given { template = renamed given.template ds }
        else given)
    vm ← get
    there ←
        wrap "failed to check if the template already exists: "
          (exists_vm cloud (get_temp_search_filter vm.template))
    if there
        then skipped depth dc ds vm vm.skip_existing
        else fail (object_not_found (new "Template not found") vm.template.name)

  unfoldable pub ready_templates : ℕ → MoDatacenter → List String → Method F (Unit {0})
  unfolding ready_template
  ready_templates depth dc [] = pure tt
  ready_templates depth dc (ds ∷ dss) = do ready_template depth dc ds; ready_templates depth dc dss

  abbrev pub one_datastore : Vm F → List String → Method F (List String)
  one_datastore vm [] = pure []
  one_datastore vm (ds ∷ dss) =
      if vm.use_local_templates
      then pure (ds ∷ dss)
      else (do one ← choose cloud (ds ∷ dss); pure (one ∷ []))

  abbrev pub cloned : ℕ → MoDatacenter → List String → Bool → Method F (Unit {0})
  cloned depth dc usable true = fail error_vm_exists
  cloned depth dc usable false =
      wrap "error while cloning vm from template: " (clone_from_template cloud depth dc usable)

  unfoldable pub provision_found : ℕ → MoDatacenter → Method F (Unit {0})
  unfolding choose ready_templates exists_vm clone_from_template get_vm_search_filter
  provision_found depth dc = do
    vm ← get
    datastores ← one_datastore vm vm.datastores
    ready_templates depth dc datastores
    there ←
        wrap "failed to check if the vm already exists: "
          (exists_vm cloud (get_vm_search_filter vm.name))
    cloned depth dc datastores there

  unfoldable pub provision : ℕ → Method F (Unit {0})
  unfolding setup_session get_datacenter provision_found
  provision depth = do
    wrap "Error setting up vSphere session: " (setup_session cloud)
    deferred (do
      dc ← wrap "Failed to retrieve datacenter: " (get_datacenter cloud)
      provision_found depth dc)
