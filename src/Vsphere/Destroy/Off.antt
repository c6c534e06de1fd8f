-- ===== src/Vsphere/Destroy/Off.antt =====
-- Destroy removes the machine of the VM's name, once the machine is off.
use libretto.Base.{
  ◌≡◌, refl, sym, ap, ◌∙◌, ℕ, zero, suc, String, Bool, true, false, Option, none, some, List, ◌∷◌,
  ◌==◌, Bool-cases, inl, inr, eq_iff, subst,
}
use libretto.Go.Error.{Error}
use libretto.Go.Result.{Result, ok, answer, of_reply}
use libretto.Go.Action.{
  World, pure, ◌>>=◌, ◌>>◌, note, on_error, resume-ok, resume-run, on_error-ok, of_reply-ok,
}
use libretto.Vsphere.Types.{Vm, get_vm_search_filter}
use libretto.Vsphere.Api.{Cloud, Call, Task, MoVm, destroy, cancel, start_task, wait_task, sleep}
use libretto.Vsphere.Search.{find_vm, exists_vm}
use libretto.Vsphere.Session.{setup_session}
use libretto.Vsphere.Kept.{
  setup_session-Kept, exists_vm-Kept, find_vm-Kept, get_power_state-Kept, turn_off-Kept,
}
use libretto.Vsphere.Power.{get_power_state, run_task, task_ended}
use libretto.Vsphere.Destroy.{
  Fate, destroyed, turn_off, off_loop, removed, destroy_found, destroy_if, destroy_vm,
}

module _ {F : Type 0} (cloud : Cloud F) where
  abbrev W : Type 0
  W = World (Vm F) Call

  -- With these calls before it, the server has accepted the task, and ended it without an error.
  abbrev pub IsEnded : Task → List Call → Type 0
  IsEnded task log =
      (cloud.start_reply log task ≡ answer tt)
      × (cloud.wait_reply (start_task task ∷ log) task ≡ answer none)

  task_ended-none :
      (failed : Error → Error) (info : Option Error) (v : W)
      → (task_ended cloud failed info v).0 ≡ ok tt
      → info ≡ none
  task_ended-none failed none v h = refl
  task_ended-none failed (some e) v h = absurd (cc)

  task_ended-log :
      (failed : Error → Error) (info : Option Error) (v : W)
      → (task_ended cloud failed info v).1 ≡ v
  task_ended-log failed none v = refl
  task_ended-log failed (some e) v = refl

  pub run_task-ok :
      (task : Task) (creating waiting : String) (failed : Error → Error) (v : W)
      → (run_task cloud task creating waiting failed v).0 ≡ ok tt
      → IsEnded task v.log
        × ((run_task cloud task creating waiting failed v).1
            ≡ record v { log = wait_task task ∷ start_task task ∷ v.log })
  unfolding run_task
  run_task-ok task creating waiting failed v h =
      let v1 : W = record v { log = start_task task ∷ v.log } in
      let v2 : W = record v1 { log = wait_task task ∷ v1.log } in
      let (t, a, h1) = resume-ok (on_error _ (of_reply (cloud.start_reply v.log task))) _ v1 h in
      let (info, b, h2) =
        resume-ok (on_error _ (of_reply (cloud.wait_reply v1.log task))) _ v2 h1 in
      let e = task_ended-none failed info v2 h2 in
      (
        (of_reply-ok _ (on_error-ok _ _ a), of_reply-ok _ (on_error-ok _ _ b) ∙ ap answer e),
        ap (λ x. x.1) (resume-run _ _ v1 a ∙ resume-run _ _ v2 b) ∙ task_ended-log failed info v2,
      )

  -- A query of this VM that has given the state, and left the world so.
  abbrev IsRead : Vm F → String → W → Type 0
  IsRead vm state v =
      (u : W) × (u.vm ≡ vm)
      × ((get_power_state cloud u).0 ≡ ok state)
      × (v ≡ (get_power_state cloud u).1)

  off_again :
      (n : ℕ) (mo : MoVm) (state : String) (v : W)
      → state == "poweredOff" ≡ false
      → off_loop cloud (suc n) mo state v
        ≡ (turn_off cloud mo
              >> (note (sleep 1) >> (get_power_state cloud >>= λ s. off_loop cloud n mo s)))
            v
  unfolding off_loop
  off_again n mo state v f = rw f refl

  off_now :
      (n : ℕ) (mo : MoVm) (state : String) (v : W)
      → state == "poweredOff" ≡ true
      → (off_loop cloud (suc n) mo state v).1 ≡ v
  unfolding off_loop
  off_now n mo state v t = rw t refl

  never_off : (mo : MoVm) (state : String) (v : W) → ¬ ((off_loop cloud 0 mo state v).0 ≡ ok true)
  unfolding off_loop
  never_off mo state v h = cc

  off_loop-IsRead :
      (n : ℕ) (mo : MoVm) (state : String) (vm : Vm F) (v : W)
      → IsRead vm state v
      → (off_loop cloud n mo state v).0 ≡ ok true
      → IsRead vm "poweredOff" (off_loop cloud n mo state v).1
  off_loop-IsRead zero mo state vm v r h = absurd (never_off mo state v h)
  off_loop-IsRead (suc n) mo state vm v (u, same, g, at) h =
      elim (Bool-cases (state == "poweredOff")) [
        | inl t ↦
            (u, same, g ∙ ap ok ((eq_iff state "poweredOff").0 t), off_now n mo state v t ∙ at)
        | inr f ↦
            let again = off_again n mo state v f in
            let v1 = (turn_off cloud mo v).1 in
            let v2 : W = record v1 { log = sleep 1 ∷ v1.log } in
            let v3 = (get_power_state cloud v2).1 in
            let kept : v.vm ≡ vm =
              ap (λ x. x.vm) at ∙ (get_power_state-Kept cloud (λ x. x ≡ vm)).at u same in
            let (t, a, h1) =
              resume-ok (turn_off cloud mo v).0 _ v1 (ap (λ x. x.0) (sym again) ∙ h) in
            let (s, b, h2) =
              resume-ok (get_power_state cloud v2).0 (λ s. off_loop cloud n mo s) v3 h1 in
            subst (IsRead vm "poweredOff")
              (sym (ap (λ x. x.1) (again ∙ resume-run _ _ v1 a ∙ resume-run _ _ v3 b)))
              (off_loop-IsRead n mo s vm v3
                (v2, (turn_off-Kept cloud (λ x. x ≡ vm) mo).at v kept, b, refl) h2)
      ]

  -- From a world in which this VM is there: the machine of its name that is found next, and a query of
  -- the VM that finds it off, right after which the server destroys this machine; and these are the
  -- last calls of the run.
  abbrev pub Gone : Vm F → W → List Call → Type 0
  Gone vm v log =
      (mo : MoVm) × ((find_vm cloud (get_vm_search_filter vm.name) v).0 ≡ ok mo)
      × ((u : W) × (u.vm ≡ vm)
          × ((get_power_state cloud u).0 ≡ ok "poweredOff")
          × IsEnded (destroy mo.self) (get_power_state cloud u).1.log
          × (log
              ≡ wait_task (destroy mo.self)
                ∷ start_task (destroy mo.self)
                ∷ (get_power_state cloud u).1.log))

  removed-off :
      (vm : Vm F) (mo : MoVm) (off : Bool) (v : W)
      → (off ≡ true → IsRead vm "poweredOff" v)
      → (removed cloud mo off v).0 ≡ ok destroyed
      → (u : W) × (u.vm ≡ vm)
        × ((get_power_state cloud u).0 ≡ ok "poweredOff")
        × IsEnded (destroy mo.self) (get_power_state cloud u).1.log
        × ((removed cloud mo off v).1.log
            ≡ wait_task (destroy mo.self)
              ∷ start_task (destroy mo.self)
              ∷ (get_power_state cloud u).1.log)
  removed-off vm mo false v at h = absurd (cc)
  removed-off vm mo true v at h =
      let (u, same, g, e) = at refl in
      let (t, a, h1) =
        resume-ok (run_task cloud (destroy mo.self) _ _ _ v).0 (λ _. pure destroyed)
          (run_task cloud (destroy mo.self) _ _ _ v).1 h in
      let (ended, logged) = run_task-ok (destroy mo.self) _ _ _ v a in
      (
        u,
        same,
        g,
        subst (λ x. IsEnded (destroy mo.self) x.log) e ended,
        ap (λ (x : Result Fate × W). x.1.log) (resume-run _ (λ _. pure destroyed) _ a)
            ∙ ap (λ x. x.log) logged
            ∙ ap (λ x. wait_task (destroy mo.self) ∷ start_task (destroy mo.self) ∷ x.log) e,
      )

  destroy_found-Gone :
      (rounds : ℕ) (v : W)
      → (destroy_found cloud rounds v).0 ≡ ok destroyed
      → Gone v.vm v (destroy_found cloud rounds v).1.log
  unfolding destroy_found
  destroy_found-Gone rounds v h =
      let found = find_vm cloud (get_vm_search_filter v.vm.name) v in
      let (mo, e, h1) = resume-ok found.0 _ found.1 h in
      let read = get_power_state cloud found.1 in
      let (state, g, h2) =
        resume-ok read.0 (λ s. off_loop cloud rounds mo s >>= λ off. removed cloud mo off) read.1
          h1 in
      let loop = off_loop cloud rounds mo state read.1 in
      let (off, l, h3) = resume-ok loop.0 (λ off. removed cloud mo off) loop.1 h2 in
      let kept = (find_vm-Kept cloud (λ x. x ≡ v.vm) (get_vm_search_filter v.vm.name)).at v refl in
      let (u, same, p, ended, logged) =
        removed-off v.vm mo off loop.1
          (λ t. off_loop-IsRead rounds mo state v.vm read.1 (found.1, kept, g, refl) (l ∙ ap ok t))
          h3 in
      (
        mo,
        e,
        (
          u,
          same,
          p,
          ended,
          ap (λ (x : Result Fate × W). x.1.log)
                (resume-run _ _ found.1 e
                  ∙ resume-run _ (λ s. off_loop cloud rounds mo s >>= λ off. removed cloud mo off)
                      read.1 g
                  ∙ resume-run _ (λ off. removed cloud mo off) loop.1 l)
              ∙ logged,
        ),
      )

  destroy_if-Gone :
      (rounds : ℕ) (there : Bool) (v : W)
      → (destroy_if cloud rounds there v).0 ≡ ok destroyed
      → Gone v.vm v (destroy_if cloud rounds there v).1.log
  destroy_if-Gone rounds false v h = absurd (cc)
  destroy_if-Gone rounds true v h = destroy_found-Gone rounds v h

  module _ (w : W) where
    -- The world in which Exists has been asked for the VM.
    abbrev pub asked : W
    asked = (exists_vm cloud (get_vm_search_filter w.vm.name) (setup_session cloud w).1).1

    -- Where Destroy returns no error and has destroyed a machine, this is the machine of the VM's name that
    -- it has found after Exists; a query of the VM has found it off, and right after this the server
    -- has accepted and ended the task that destroys this machine, without an error. These are the last
    -- calls of the run before the session is cancelled.
    pub destroy_vm-off :
        (rounds : ℕ)
        → (destroy_vm cloud rounds w).0 ≡ ok destroyed
        → (log : List Call) × ((destroy_vm cloud rounds w).1.log ≡ cancel ∷ log)
          × Gone w.vm asked log
    unfolding destroy_vm
    destroy_vm-off rounds h =
        let v = (setup_session cloud w).1 in
        let kept : v.vm ≡ w.vm = (setup_session-Kept cloud (λ x. x ≡ w.vm)).at w refl in
        let there = exists_vm cloud (get_vm_search_filter v.vm.name) v in
        let (t, a, h1) =
          resume-ok (setup_session cloud w).0
            (λ _ u.
              let r =
                (exists_vm cloud (get_vm_search_filter u.vm.name) >>= λ there.
                destroy_if cloud rounds there)
                  u in
              (r.0, record r.1 { log = cancel ∷ r.1.log }))
            v h in
        let (b, c, h2) = resume-ok there.0 (λ there. destroy_if cloud rounds there) there.1 h1 in
        let same =
          (exists_vm-Kept cloud (λ x. x ≡ v.vm) (get_vm_search_filter v.vm.name)).at v refl in
        let gone = destroy_if-Gone rounds b there.1 h2 in
        (
          (destroy_if cloud rounds b there.1).1.log,
          ap (λ (x : Result Fate × W). x.1.log) (resume-run _ _ v a)
              ∙ ap (λ (x : Result Fate × W). cancel ∷ x.1.log)
                  (resume-run _ (λ there. destroy_if cloud rounds there) there.1 c),
          subst
              (λ x.
                Gone x (exists_vm cloud (get_vm_search_filter x.name) v).1
                  (destroy_if cloud rounds b there.1).1.log)
              kept
              (subst (λ x. Gone x there.1 (destroy_if cloud rounds b there.1).1.log) same gone),
        )
