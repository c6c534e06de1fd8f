-- ===== src/Vsphere/Templates.antt =====
-- virtualmachine/vsphere: DeleteTemplate, CreateTemplate and ConvertToTemplate of vm.go, and
-- uploadTemplate of util.go.
use libretto.Base.{
  ℕ, String, true, Option, none, some, List, [], ◌∷◌, ◌++◌, ◌<>◌, ◌==◌, if◌then◌else◌,
}
use libretto.Go.Error.{Error, new, message}
use libretto.Go.Result.{Reply, answer, failure}
use libretto.Go.Action.{◌>>=◌, ◌>>◌, pure, fail, attempt, get, put, request, wrap}
use libretto.Vsphere.Types.{Vm, Template, get_temp_search_filter, get_vm_search_filter}
use libretto.Vsphere.Api.{
  Cloud, Method, destroy, create_snapshot, download, read_file, create_import, import_vapp,
  mark_as_template, start_task, wait_task, make_temp_dir, remove_all, upload_ovf, MoDatacenter,
  MoVm,
}
use libretto.Vsphere.Session.{setup_session, in_session, get_datacenter, find_datastore}
use libretto.Vsphere.Search.{find_vm}
use libretto.Vsphere.Fields.{set_custom_field}
use libretto.Vsphere.Hosts.{get_vm_location}
use libretto.Vsphere.Power.{run_task, task_ended, with_message, null_message, find_own, shut_down}
use libretto.Vsphere.Reconfigure.{choose, create_template_name}

abbrev pub renamed : Template → String → Template
renamed template ds = record template { name = create_template_name template.name ds }

module _ {F : Type 0} (cloud : Cloud F) where
  abbrev pub ovf_of : String → String → Method F (Unit {0})
  ovf_of dir url = if url == "" then pure tt else (do
    path ← request (download dir url) (λ log. cloud.download_ova log dir url)
    vm ← get
    put (record vm { ovf_path = path }))

  abbrev pub imported : Option Error → Method F (Unit {0})
  imported none = pure tt
  imported (some e) = fail (new ("errors returned from the ovf manager api. Errors: " <> message e))

  -- The entity's name is only set for local templates.
  abbrev entity_name : Vm F → String → String
  entity_name vm ds =
      if vm.use_local_templates then create_template_name vm.template.name ds else ""

  abbrev pub named_template : Vm F → String → Vm F
  named_template vm ds =
      if vm.use_local_templates
      then record vm { template = renamed vm.template ds; datastore = ds }
      else record vm { datastore = ds }

  -- The deferred removal of the directory, whose error is dropped, and the rest of the method.
  abbrev pub removing : String → Method F (Unit {0}) → Method F (Unit {0})
  removing dir m w = let r = m w in (r.0, record r.1 { log = remove_all dir ∷ r.1.log })

  -- What uploadTemplate does with its directory, for a template of this name.
  unfoldable pub upload_from : ℕ → MoDatacenter → String → String → String → Method F (Unit {0})
  unfolding find_datastore get_vm_location find_vm run_task get_temp_search_filter
  upload_from depth dc selected template dir = do
    given ← get
    ovf_of dir given.ova_path_url
    vm ← get
    text ← request (read_file vm.ovf_path) (λ log. cloud.read_ovf log vm.ovf_path)
    ds ← find_datastore cloud dc selected
    l ← get_vm_location cloud depth vm dc
    spec ← wrap "failed to create an import spec for the VM: " (
        request (create_import template)
          (λ log. cloud.import_spec log text l.resource_pool ds.0 l.host template))
    imported spec
    wrap "error getting an nfc lease: "
        (request (import_vapp l.resource_pool) (λ log. cloud.import_app log l.resource_pool))
    wrap "error uploading the ovf template: "
        (request (upload_ovf l.resource_pool) (λ log. cloud.upload_reply log l.resource_pool))
    mo ← wrap "error getting the uploaded VM: " (find_vm cloud (get_temp_search_filter vm.template))
    if vm.use_linked_clones
        then run_task cloud
            (create_snapshot mo.self ("snapshot-" <> template)
              "Snapshot created by Libretto for linked clones.")
            "error creating snapshot of the vm: " "error waiting for snapshot to finish: "
            (null_message "snapshot task returned an error: ")
        else wrap "error converting the uploaded VM to a template: " (
            request (mark_as_template mo.self)
              (λ log. cloud.guest_reply log (mark_as_template mo.self)))

  unfoldable pub upload_template : ℕ → MoDatacenter → String → Method F (Unit {0})
  unfolding create_template_name upload_from
  upload_template depth dc selected = do
    given ← get
    put (named_template given selected)
    dir ← request make_temp_dir cloud.temp_dir
    removing dir (upload_from depth dc selected (entity_name given selected) dir)

  unfoldable pub delete_vm : MoVm → Method F (Unit {0})
  delete_vm mo = do
    request (start_task (destroy mo.self)) (λ log. cloud.start_reply log (destroy mo.self))
    info ←
        wrap "Error waiting for task : "
          (request (wait_task (destroy mo.self)) (λ log. cloud.wait_reply log (destroy mo.self)))
    task_ended cloud (with_message "Destroy task returned error : ") info

  abbrev pub missing_error : List String → Method F (Unit {0})
  missing_error [] = pure tt
  missing_error (name ∷ names) = fail (
      new (
        "Following templates not found.\n[ "
        <> listed name names
        <> " ].\nHowever any found templates are deleted"))
    where
      listed : String → List String → String
      listed s [] = s
      listed s (t ∷ ts) = s <> ", " <> listed t ts

  abbrev pub deleted : Template → String → Reply MoVm → Method F (List String)
  deleted template ds (failure e) = pure (create_template_name template.name ds ∷ [])
  deleted template ds (answer mo) = do delete_vm mo; pure []

  -- The loop over the datastores, with the templates that are missing so far.
  unfoldable pub delete_loop : Template → List String → List String → Method F (Unit {0})
  unfolding find_vm delete_vm create_template_name get_temp_search_filter
  delete_loop template [] missing = missing_error missing
  delete_loop template (ds ∷ dss) missing = do
    reply ← attempt (find_vm cloud (get_temp_search_filter (renamed template ds)))
    more ← deleted template ds reply
    delete_loop template dss (missing ++ more)

  -- The session is not cancelled.
  unfoldable pub delete_template : Method F (Unit {0})
  unfolding setup_session delete_loop find_vm delete_vm get_temp_search_filter
  delete_template = do
    setup_session cloud
    vm ← get
    if vm.use_local_templates
        then delete_loop vm.template vm.datastores []
        else (do mo ← find_vm cloud (get_temp_search_filter vm.template); delete_vm mo)

  abbrev template_there : Reply MoVm → Method F (Unit {0})
  template_there (failure e) = pure tt
  template_there (answer mo) = do
    vm ← get
    fail (new (vm.template.name <> " : Template already exists"))

  unfoldable pub create_template : ℕ → Method F (Unit {0})
  unfolding setup_session get_datacenter find_vm choose upload_template get_temp_search_filter
  create_template depth = do
    setup_session cloud
    dc ← get_datacenter cloud
    vm ← get
    reply ←
        attempt
          (find_vm cloud (record (get_temp_search_filter vm.template) { search_in_dc = true }))
    template_there reply
    ds ← choose cloud vm.datastores
    put (record vm { datastore = ds })
    upload_template depth dc ds

  unfoldable pub convert_to_template : Method F (Unit {0})
  unfolding find_vm shut_down set_custom_field get_vm_search_filter
  convert_to_template = in_session cloud (do
    mo ← wrap "error getting the uploaded VM: " (find_own cloud)
    wrap "error halting the VM: " (shut_down cloud)
    wrap "error in setting custom field: "
        (set_custom_field cloud mo.self "template_type" "VirtualMachine" "visor")
    wrap "error converting the uploaded VM to a template: " (
        request (mark_as_template mo.self)
          (λ log. cloud.guest_reply log (mark_as_template mo.self))))
