-- ===== src/Vsphere/Provision/Named.antt =====
-- virtualmachine/vsphere: the templates are made ready without a change of the VM's name.
use libretto.Base.{◌≡◌, ℕ, String, Option, none, some, List, [], ◌∷◌, arith, if◌then◌else◌}
use libretto.Go.Error.{Error}
use libretto.Go.Result.{Reply, answer, failure}
use libretto.Go.Action.{◌>>=◌, attempt}
use libretto.Go.Stays.{
  stays_rules, Stays-get, Stays-pure, Stays-fail, Stays-if, Stays-bind, Stays-attempt,
}
use libretto.Vsphere.Types.{Vm, Template, get_temp_search_filter}
use libretto.Vsphere.Api.{Cloud, Method, MoVm, MoDatacenter}
use libretto.Vsphere.Session.{setup_session, find_datastore}
use libretto.Vsphere.Kept.{
  setup_session-Kept, find_first-Kept, find_vm-Kept, exists_vm-Kept, run_task-Kept, task_ended-Kept,
}
use libretto.Vsphere.Search.{find_vm}
use libretto.Vsphere.Templates.{
  renamed, ovf_of, imported, upload_from, removing, named_template, upload_template, delete_vm,
  missing_error, deleted, delete_loop, delete_template,
}
use libretto.Vsphere.Provision.{skipped, ready_template, ready_templates}
use libretto.Vsphere.Provision.Places.{HasName, Named, get_vm_location-Named}

module _ {F : Type 0} (cloud : Cloud F) (n : String) where
  find_datastore-Named :
      (dc : MoDatacenter) (name : String) → Named cloud n (find_datastore cloud dc name)
  unfolding find_datastore
  find_datastore-Named dc name =
      search (stays_rules, find_first-Kept cloud (HasName cloud n)) depth 10

  ovf_of-Named : (dir url : String) → Named cloud n (ovf_of cloud dir url)
  ovf_of-Named dir url = search stays_rules depth 14

  imported-Named : (e : Option Error) → Named cloud n (imported cloud e)
  imported-Named none = Stays-pure tt
  imported-Named (some e) = Stays-fail _

  upload_from-Named :
      (depth : ℕ) (dc : MoDatacenter) (selected template dir : String)
      → Named cloud n (upload_from cloud depth dc selected template dir)
  unfolding upload_from
  upload_from-Named depth dc selected template dir =
      search
        (
          stays_rules,
          ovf_of-Named,
          find_datastore-Named,
          get_vm_location-Named cloud n,
          imported-Named,
          find_vm-Kept cloud (HasName cloud n),
          run_task-Kept cloud (HasName cloud n),
        )
        depth 40

  removing-Named :
      (dir : String) (m : Method F (Unit {0}))
      → Named cloud n m
      → Named cloud n (removing cloud dir m)
  removing-Named dir m h = record { at = λ w e. h.at w e }

  named_template-name :
      (vm : Vm F) (ds : String) → vm.name ≡ n → (named_template cloud vm ds).name ≡ n
  named_template-name vm ds e = ground arith

  upload_template-Named :
      (depth : ℕ) (dc : MoDatacenter) (selected : String)
      → Named cloud n (upload_template cloud depth dc selected)
  unfolding upload_template
  upload_template-Named depth dc selected =
      search (stays_rules, named_template-name, removing-Named, upload_from-Named) depth 14

  delete_vm-Named : (mo : MoVm) → Named cloud n (delete_vm cloud mo)
  unfolding delete_vm
  delete_vm-Named mo = search (stays_rules, task_ended-Kept cloud (HasName cloud n)) depth 14

  missing_error-Named : (missing : List String) → Named cloud n (missing_error cloud missing)
  missing_error-Named [] = Stays-pure tt
  missing_error-Named (name ∷ names) = Stays-fail _

  deleted-Named :
      (template : Template) (ds : String) (r : Reply MoVm)
      → Named cloud n (deleted cloud template ds r)
  deleted-Named template ds (failure e) = Stays-pure _
  deleted-Named template ds (answer mo) = search (stays_rules, delete_vm-Named)

  delete_loop-Named :
      (template : Template) (dss missing : List String)
      → Named cloud n (delete_loop cloud template dss missing)
  unfolding delete_loop
  delete_loop-Named template [] missing = missing_error-Named missing
  delete_loop-Named template (ds ∷ dss) missing =
      Stays-bind (attempt (find_vm cloud (get_temp_search_filter (renamed template ds)))) _
        (Stays-attempt _
          (find_vm-Kept cloud (HasName cloud n) (get_temp_search_filter (renamed template ds))))
        λ reply.
          Stays-bind (deleted cloud template ds reply) _ (deleted-Named template ds reply)
            λ more. delete_loop-Named template dss _

  delete_found-Named :
      (template : Template)
      → Named cloud n (find_vm cloud (get_temp_search_filter template) >>= delete_vm cloud)
  delete_found-Named template =
      Stays-bind (find_vm cloud (get_temp_search_filter template)) (delete_vm cloud)
        (find_vm-Kept cloud (HasName cloud n) (get_temp_search_filter template)) delete_vm-Named

  delete_template-Named : Named cloud n (delete_template cloud)
  unfolding delete_template
  delete_template-Named =
      Stays-bind (setup_session cloud) _ (setup_session-Kept cloud (HasName cloud n)) λ _.
        Stays-get _ λ vm h.
          Stays-if vm.use_local_templates _ _ (delete_loop-Named vm.template vm.datastores [])
            (delete_found-Named vm.template)

  skipped-Named :
      (depth : ℕ) (dc : MoDatacenter) (ds : String) (vm : Vm F) (skip : Option ℕ)
      → Named cloud n (skipped cloud depth dc ds vm skip)
  skipped-Named depth dc ds vm none = Stays-fail _
  skipped-Named depth dc ds vm (some skip) =
      search (stays_rules, delete_template-Named, upload_template-Named) depth 14

  renamed-name :
      (vm : Vm F) (ds : String)
      → vm.name ≡ n
      → (if vm.use_local_templates
          then record vm { template = renamed vm.template ds }
          else vm).name
        ≡ n
  renamed-name vm ds e = ground arith

  ready_template-Named :
      (depth : ℕ) (dc : MoDatacenter) (ds : String)
      → Named cloud n (ready_template cloud depth dc ds)
  unfolding ready_template
  ready_template-Named depth dc ds =
      search (stays_rules, renamed-name, exists_vm-Kept cloud (HasName cloud n), skipped-Named)
        depth 16

  pub ready_templates-Named :
      (depth : ℕ) (dc : MoDatacenter) (dss : List String)
      → Named cloud n (ready_templates cloud depth dc dss)
  unfolding ready_templates
  ready_templates-Named depth dc [] = Stays-pure tt
  ready_templates-Named depth dc (ds ∷ dss) =
      Stays-bind (ready_template cloud depth dc ds) _ (ready_template-Named depth dc ds)
        λ _. ready_templates-Named depth dc dss
