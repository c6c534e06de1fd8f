-- ===== src/Vsphere/Power/ShutDown.antt =====
-- shutDown returns when a query of this run finds that the guest is not running.
use libretto.Base.{
  ◌≡◌, refl, sym, ◌∙◌, ap, ◌∷◌, ℕ, zero, suc, ◌<◌, String, false, ◌==◌, Bool-cases, inl, inr,
  eq_iff, ◌⊎◌, arith,
}
use libretto.Go.Result.{Result, ok, err, panic, Reply, answer, failure, of_reply}
use libretto.Go.Action.{
  World, resume, outcome, note, ◌>>◌, on_error, resume-ok, on_error-ok, of_reply-ok,
}
use libretto.Vsphere.Types.{Vm, retry_count, get_vm_search_filter}
use libretto.Vsphere.Api.{Cloud, Call, MoVm, shutdown_guest, sleep}
use libretto.Vsphere.Search.{find_vm}
use libretto.Vsphere.Kept.{find_vm-Kept, get_guest_state-Kept}
use libretto.Vsphere.Power.{get_guest_state, state_or_empty, shut_down_loop, timed_out, shut_down}

module _ {F : Type 0} (cloud : Cloud F) where
  -- The world after a query of the loop and its pause, and after `k` of them.
  abbrev paused : World (Vm F) Call → World (Vm F) Call
  paused v = let u = (get_guest_state cloud v).1 in record u { log = sleep 5 ∷ u.log }

  abbrev pub rounds_on : ℕ → World (Vm F) Call → World (Vm F) Call
  rounds_on zero v = v
  rounds_on (suc k) v = rounds_on k (paused v)

  -- This query says that the guest is not running.
  abbrev pub IsNotRunning : World (Vm F) Call → Type 0
  IsNotRunning u = (get_guest_state cloud u).0 ≡ ok "notRunning"

  read :
      (r : Result String) {x : Reply String}
      → outcome r ≡ ok x
      → state_or_empty cloud x ≡ "notRunning"
      → r ≡ ok "notRunning"
  read (ok s) {x = answer t} h e = cc
  read (ok s) {x = failure z} h e = absurd (cc)
  read (err z) {x = answer t} h e = absurd (cc)
  read (err z) {x = failure z'} h e = absurd (cc)
  read panic h e = absurd (cc)

  loop_again :
      (n : ℕ) (state : String) (v : World (Vm F) Call)
      → state == "notRunning" ≡ false
      → shut_down_loop cloud (suc n) state v
        ≡ resume
            (outcome (get_guest_state cloud v).0)
            (λ reply. note (sleep 5) >> shut_down_loop cloud n (state_or_empty cloud reply))
            (get_guest_state cloud v).1
  unfolding shut_down_loop
  loop_again n state v f = rw f refl

  stopped_at_zero :
      (state : String) (v : World (Vm F) Call) {m : ℕ}
      → ¬ ((shut_down_loop cloud 0 state v).0 ≡ ok (suc m))
  unfolding shut_down_loop
  stopped_at_zero state v h = cc

  -- A loop that ends before its last round has read this state, at its start or in a query.
  shut_down_loop-IsNotRunning :
      (n : ℕ) (state : String) (v : World (Vm F) Call) {m : ℕ}
      → (shut_down_loop cloud n state v).0 ≡ ok (suc m)
      → (state ≡ "notRunning") ⊎ ((k : ℕ) × (k < n) × IsNotRunning (rounds_on k v))
  shut_down_loop-IsNotRunning zero state v h = absurd (stopped_at_zero state v h)
  shut_down_loop-IsNotRunning (suc n) state v h = elim (Bool-cases (state == "notRunning")) [
    | inl t ↦ inl ((eq_iff state "notRunning").0 t)
    | inr f ↦
        let (reply, e, more) =
          resume-ok (outcome (get_guest_state cloud v).0) _ (get_guest_state cloud v).1
            (ap (λ r. r.0) (sym (loop_again n state v f)) ∙ h) in
        elim (shut_down_loop-IsNotRunning n (state_or_empty cloud reply) (paused v) more) [
          | inl s ↦ inr (0, omega arith, read (get_guest_state cloud v).0 e s)
          | inr (k, less, s) ↦ inr (suc k, omega (arith, less), s)
        ]
  ]

  timed_out-suc :
      (name : String) (n : ℕ) (v : World (Vm F) Call)
      → (timed_out cloud name n v).0 ≡ ok tt
      → (m : ℕ) × (n ≡ suc m)
  timed_out-suc name zero v h = absurd (cc)
  timed_out-suc name (suc m) v h = (m, refl)

  rounds_on-vm : (k : ℕ) (v : World (Vm F) Call) (vm : Vm F) → v.vm ≡ vm → (rounds_on k v).vm ≡ vm
  rounds_on-vm zero v vm e = e
  rounds_on-vm (suc k) v vm e =
      rounds_on-vm k (paused v) vm ((get_guest_state-Kept cloud (λ x. x ≡ vm)).at v e)

  module _ (w : World (Vm F) Call) where
    -- The machine of this name, and the world in which it is found.
    abbrev pub searched : Result MoVm × World (Vm F) Call
    searched = find_vm cloud (get_vm_search_filter w.vm.name) w

    -- The world after the request that shuts the guest down.
    abbrev pub requested : MoVm → World (Vm F) Call
    requested mo = record searched.1 { log = shutdown_guest mo.self ∷ searched.1.log }

    -- The worlds in which the run asks for the state after the request: at once, and in the loop.
    abbrev pub IsQuery : MoVm → World (Vm F) Call → Type 0
    IsQuery mo u =
        (u ≡ requested mo)
        ⊎ ((k : ℕ) × (k < retry_count) × (u ≡ rounds_on k (get_guest_state cloud (requested mo)).1))

    query :
        (mo : MoVm) (state : String)
        → (get_guest_state cloud (requested mo)).0 ≡ ok state
        → (state ≡ "notRunning")
          ⊎ ((k : ℕ) × (k < retry_count)
              × IsNotRunning (rounds_on k (get_guest_state cloud (requested mo)).1))
        → (u : World (Vm F) Call) × IsQuery mo u × (u.vm ≡ w.vm) × IsNotRunning u
    query mo state g (inl s) =
        (requested mo, inl refl, (find_vm-Kept cloud (λ x. x ≡ w.vm) _).at w refl, g ∙ ap ok s)
    query mo state g (inr (k, less, s)) = (
      rounds_on k (get_guest_state cloud (requested mo)).1,
      inr (k, less, refl),
      rounds_on-vm k (get_guest_state cloud (requested mo)).1 w.vm (
          (get_guest_state-Kept cloud (λ x. x ≡ w.vm)).at (requested mo)
            ((find_vm-Kept cloud (λ x. x ≡ w.vm) _).at w refl)),
      s,
    )

    -- Where shutDown returns no error, it has found the machine of the VM's name, the server has accepted
    -- the request to shut down the guest of this machine, and one of the queries of this VM after the
    -- request, at once or in the rounds of the loop, has found the guest not running.
    pub shut_down-stopped :
        (shut_down cloud w).0 ≡ ok tt
        → (mo : MoVm) × (searched.0 ≡ ok mo)
          × (cloud.guest_reply searched.1.log (shutdown_guest mo.self) ≡ answer tt)
          × ((u : World (Vm F) Call) × IsQuery mo u × (u.vm ≡ w.vm) × IsNotRunning u)
    unfolding shut_down
    shut_down-stopped h =
        let (mo, e, h1) = resume-ok searched.0 _ searched.1 h in
        let (t, a, h2) =
          resume-ok
            (on_error _ (of_reply (cloud.guest_reply searched.1.log (shutdown_guest mo.self)))) _
            (requested mo) h1 in
        let (state, g, h3) =
          resume-ok (on_error _ (get_guest_state cloud (requested mo)).0) _
            (get_guest_state cloud (requested mo)).1 h2 in
        let (n, l, h4) =
          resume-ok
            (shut_down_loop cloud retry_count state (get_guest_state cloud (requested mo)).1).0 _
            (shut_down_loop cloud retry_count state (get_guest_state cloud (requested mo)).1).1
            h3 in
        let (m, s) =
          timed_out-suc w.vm.name n
            (shut_down_loop cloud retry_count state (get_guest_state cloud (requested mo)).1).1
            h4 in
        (
          mo,
          e,
          of_reply-ok _ (on_error-ok _ _ a),
          query mo state (on_error-ok _ _ g) (
              shut_down_loop-IsNotRunning retry_count state (get_guest_state cloud (requested mo)).1
                (l ∙ ap ok s)),
        )
