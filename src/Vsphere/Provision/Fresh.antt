-- ===== src/Vsphere/Provision/Fresh.antt =====
-- Provision clones a template into a machine after it has found none of the VM's name.
use libretto.Base.{
  ◌≡◌, refl, ap, ◌∙◌, ℕ, String, Bool, true, false, List, [], ◌∷◌, Option, subst, arith,
}
use libretto.Go.Result.{ok}
use libretto.Go.Action.{World, on_error, resume-ok, on_error-ok}
use libretto.Go.Stays.{Stays, stays_rules, Stays-pure}
use libretto.Vsphere.Types.{Mor, Vm, Location, get_vm_search_filter, get_temp_search_filter}
use libretto.Vsphere.Api.{Cloud, Call, clone, CloneSpec, MoDatacenter, MoVm}
use libretto.Vsphere.Session.{setup_session, get_datacenter, find_datastore}
use libretto.Vsphere.Search.{find_vm, exists_vm}
use libretto.Vsphere.Hosts.{get_vm_location}
use libretto.Vsphere.Kept.{setup_session-Kept, get_datacenter-Kept, find_first-Kept, exists_vm-Kept}
use libretto.Vsphere.Provision.Places.{HasName}
use libretto.Vsphere.Provision.Named.{ready_templates-Named}
use libretto.Vsphere.Destroy.Off.{IsEnded, run_task-ok}
use libretto.Vsphere.Reconfigure.{choose}
use libretto.Vsphere.Clone.{
  clone_spec, finish_clone, clone_from_template, chosen_datastore, local_template,
}
use libretto.Vsphere.Provision.{one_datastore, ready_templates, cloned, provision_found, provision}

module _ {F : Type 0} (cloud : Cloud F) where
  abbrev W : Type 0
  W = World (Vm F) Call

  local_template-name : (vm : Vm F) (ds : String) → (local_template cloud vm ds).name ≡ vm.name
  local_template-name vm ds = ground arith

  choose-Named : (P : Vm F → Type 0) (from : List String) → Stays P (choose cloud from)
  unfolding choose
  choose-Named P from = search stays_rules

  chosen_datastore-Named :
      (P : Vm F → Type 0) (dc : MoDatacenter) (name : String)
      → Stays P (chosen_datastore cloud dc name)
  unfolding find_datastore
  chosen_datastore-Named P dc name = search (stays_rules, find_first-Kept cloud P) depth 14

  -- The steps of a clone from the world `c`, in which the template's name and the datastore are set: the
  -- template that is found, the place and the spec; then the server accepts and ends the task that
  -- clones this template into a machine of the struct's name, without an error.
  abbrev pub CloneRun : ℕ → MoDatacenter → Option Mor → W → Type 0
  CloneRun depth dc ds c =
      let found = find_vm cloud (get_temp_search_filter c.vm.template) c in
      let placed = get_vm_location cloud depth c.vm dc found.1 in
      (mo : MoVm) × (l : Location) × (spec : CloneSpec) × (found.0 ≡ ok mo)
      × (placed.0 ≡ ok l)
      × ((clone_spec cloud depth c.vm mo l ds placed.1).0 ≡ ok spec)
      × IsEnded cloud (clone mo.self dc.vm_folder c.vm.name spec)
          (clone_spec cloud depth c.vm mo l ds placed.1).1.log

  -- A clone into a machine of the name `own`, from the world `v`, with one of the datastores.
  abbrev pub IsCloned : ℕ → MoDatacenter → String → List String → W → Type 0
  IsCloned depth dc own usable v =
      (name : String) × (ds : Option Mor) × (c : W) × ((choose cloud usable v).0 ≡ ok name)
      × ((chosen_datastore cloud dc name (choose cloud usable v).1).0 ≡ ok ds)
      × (c.log ≡ (chosen_datastore cloud dc name (choose cloud usable v).1).1.log)
      × (c.vm ≡ local_template cloud v.vm name)
      × (c.vm.name ≡ own)
      × CloneRun depth dc ds c

  clone_from_template-IsCloned :
      (depth : ℕ) (dc : MoDatacenter) (own : String) (usable : List String) (v : W)
      → v.vm.name ≡ own
      → (clone_from_template cloud depth dc usable v).0 ≡ ok tt
      → IsCloned depth dc own usable v
  unfolding clone_from_template
  clone_from_template-IsCloned depth dc own usable v named h =
      let (name, a, h1) = resume-ok (choose cloud usable v).0 _ (choose cloud usable v).1 h in
      let at = chosen_datastore cloud dc name (choose cloud usable v).1 in
      let (ds, b, h2) = resume-ok at.0 _ at.1 h1 in
      let c : W = record at.1 { vm = local_template cloud at.1.vm name } in
      let found = find_vm cloud (get_temp_search_filter c.vm.template) c in
      let (mo, e, h3) = resume-ok (on_error _ found.0) _ found.1 h2 in
      let placed = get_vm_location cloud depth c.vm dc found.1 in
      let (l, g, h4) = resume-ok placed.0 _ placed.1 h3 in
      let made = clone_spec cloud depth c.vm mo l ds placed.1 in
      let (spec, m, h5) = resume-ok made.0 _ made.1 h4 in
      let (t, r, h6) = resume-ok _ (λ _. finish_clone cloud) _ h5 in
      let same : at.1.vm ≡ v.vm =
        (chosen_datastore-Named (λ x. x ≡ v.vm) dc name).at (choose cloud usable v).1
          ((choose-Named (λ x. x ≡ v.vm) usable).at v refl) in
      (
        name,
        ds,
        c,
        a,
        b,
        refl,
        ap (λ x. local_template cloud x name) same,
        local_template-name at.1.vm name ∙ ap (λ x. x.name) same ∙ named,
        (
          mo,
          l,
          spec,
          on_error-ok _ _ e,
          g,
          m,
          (run_task-ok cloud (clone mo.self dc.vm_folder c.vm.name spec) _ _ _ made.1 r).0,
        ),
      )

  cloned-IsCloned :
      (depth : ℕ) (dc : MoDatacenter) (own : String) (usable : List String) (there : Bool) (v : W)
      → v.vm.name ≡ own
      → (cloned cloud depth dc usable there v).0 ≡ ok tt
      → (there ≡ false) × IsCloned depth dc own usable v
  cloned-IsCloned depth dc own usable true v named h = absurd (cc)
  cloned-IsCloned depth dc own usable false v named h =
      (refl, clone_from_template-IsCloned depth dc own usable v named (on_error-ok _ _ h))

  -- The steps of Provision for this VM, from the world `v` in which the datacenter is known: the
  -- datastores and their templates are ready, Exists then says that no machine of the VM's name is there,
  -- and from the world that this leaves a template is cloned into a machine of that name.
  abbrev pub IsFresh : ℕ → Vm F → MoDatacenter → W → Type 0
  IsFresh depth vm dc v =
      let stores_at = one_datastore cloud vm vm.datastores v in
      (stores : List String) × (stores_at.0 ≡ ok stores)
      × (let ready = ready_templates cloud depth dc stores stores_at.1 in
          let there = exists_vm cloud (get_vm_search_filter vm.name) ready.1 in
          (ready.0 ≡ ok tt) × (there.0 ≡ ok false) × IsCloned depth dc vm.name stores there.1)

  one_datastore-Named :
      (P : Vm F → Type 0) (vm : Vm F) (dss : List String) → Stays P (one_datastore cloud vm dss)
  one_datastore-Named P vm [] = Stays-pure []
  one_datastore-Named P vm (ds ∷ dss) = search (stays_rules, choose-Named)

  provision_found-IsFresh :
      (depth : ℕ) (dc : MoDatacenter) (v : W)
      → (provision_found cloud depth dc v).0 ≡ ok tt
      → IsFresh depth v.vm dc v
  unfolding provision_found
  provision_found-IsFresh depth dc v h =
      let stores_at = one_datastore cloud v.vm v.vm.datastores v in
      let (stores, a, h1) = resume-ok stores_at.0 _ stores_at.1 h in
      let ready = ready_templates cloud depth dc stores stores_at.1 in
      let (t, b, h2) = resume-ok ready.0 _ ready.1 h1 in
      let there = exists_vm cloud (get_vm_search_filter v.vm.name) ready.1 in
      let (found, c, h3) = resume-ok (on_error _ there.0) _ there.1 h2 in
      let own = v.vm.name in
      let named : there.1.vm.name ≡ own =
        (exists_vm-Kept cloud (HasName cloud own) (get_vm_search_filter own)).at ready.1 (
          (ready_templates-Named cloud own depth dc stores).at stores_at.1
            ((one_datastore-Named (HasName cloud own) v.vm v.vm.datastores).at v refl)) in
      let (absent, copy) = cloned-IsCloned depth dc own stores found there.1 named h3 in
      (stores, a, (b, on_error-ok _ _ c ∙ ap ok absent, copy))

  -- Where Provision returns no error, it has found the datacenter, and the templates of its datastores
  -- were ready; then Exists, asked for the VM's name, has said that no such machine was there; and in the
  -- world that this left, one of the datastores was drawn and the template found, and the server has
  -- accepted and ended its clone into a machine of the VM's name, without an error.
  pub provision-cloned :
      (depth : ℕ) (w : W)
      → (provision cloud depth w).0 ≡ ok tt
      → (dc : MoDatacenter) × ((get_datacenter cloud (setup_session cloud w).1).0 ≡ ok dc)
        × IsFresh depth w.vm dc (get_datacenter cloud (setup_session cloud w).1).1
  unfolding provision
  provision-cloned depth w h =
      let v = (setup_session cloud w).1 in
      let (t, a, h1) = resume-ok (on_error _ (setup_session cloud w).0) _ v h in
      let at = get_datacenter cloud v in
      let (dc, b, h2) =
        resume-ok (on_error _ at.0) (λ dc. provision_found cloud depth dc) at.1 h1 in
      let same : at.1.vm ≡ w.vm =
        (get_datacenter-Kept cloud (λ x. x ≡ w.vm)).at v
          ((setup_session-Kept cloud (λ x. x ≡ w.vm)).at w refl) in
      (
        dc,
        on_error-ok _ _ b,
        subst (λ x. IsFresh depth x dc at.1) same (provision_found-IsFresh depth dc at.1 h2),
      )
