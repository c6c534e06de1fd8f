-- ===== src/Virtualbox/Nics/Commands.antt =====
-- What configure of virtualmachine/virtualbox/util.go has done to the network cards when it succeeds.
use libretto.Base.{
  String, Bool, true, false, Option, none, some, List, [], ◌∷◌, ◌++◌, ◌≡◌, refl, sym, ap, ◌∙◌,
  append_assoc, append-nil, if◌then◌else◌, arith,
}
use libretto.Go.Result
use libretto.Go.Result.{Result, ok, err, panic, bind-ok}
use libretto.Machine.{err_failed_to_get_nics}
use libretto.Go.Action.{World, resume, recover, fail, resume-ok, resume-lift, ◌>>◌}
use libretto.Go.Strings.{lines}
use libretto.Virtualbox.Types.{Vm, Nic, Host, Nothing, Method, combined}
use libretto.Virtualbox.Readings.{read_nics}
use libretto.Virtualbox.Machines.{run, run_stdout, run_combined_error, get_interfaces}
use libretto.Virtualbox.Nics.{
  is_disabled, nic_flag, run_command, delete_nic, add_args, add_nic, delete_each, delete_nics,
  add_each, configure,
}

module _ (host : Host) where
  -- The runs, the last one first, that turn the cards off and that set them up.
  abbrev pub turning_off : String → List Nic → List (List String)
  turning_off name [] = []
  turning_off name (nic ∷ nics) =
      turning_off name nics
      ++ (if is_disabled nic.backing
          then []
          else ("modifyvm" ∷ name ∷ nic_flag host nic.idx ∷ "null" ∷ []) ∷ [])

  abbrev pub of_args : Option (List String) → List (List String)
  of_args none = []
  of_args (some args) = args ∷ []

  abbrev pub setting_up : String → List Nic → List (List String)
  setting_up name [] = []
  setting_up name (nic ∷ nics) =
      setting_up name nics ++ of_args (add_args host name nic nic.backing)

  abbrev W : Type 0
  W = World Vm (List String)

  -- The world after more runs.
  abbrev pub logged : List (List String) → W → W
  logged runs w = record { vm = w.vm; log = runs ++ w.log }

  logged-append :
      (xs ys : List (List String)) (w : W) → logged xs (logged ys w) ≡ logged (xs ++ ys) w
  logged-append xs ys w = ap (λ l. record { vm = w.vm; log = l }) (sym (append_assoc xs ys w.log))

  run_command-logged :
      (args : List String) (w : W) → (run_command host args w).1 ≡ logged (args ∷ []) w
  unfolding run_command run_stdout run
  run_command-logged args w = ground (arith)

  delete_nic-ok :
      (nic : Nic) (w : W)
      → is_disabled nic.backing ≡ false
      → (delete_nic host nic w).1
        ≡ logged (("modifyvm" ∷ w.vm.name ∷ nic_flag host nic.idx ∷ "null" ∷ []) ∷ []) w
  unfolding delete_nic
  delete_nic-ok nic w on =
      rw on (run_command-logged ("modifyvm" ∷ w.vm.name ∷ nic_flag host nic.idx ∷ "null" ∷ []) w)

  add_args-logged :
      (o : Option (List String)) (w : W)
      → ((elim o as (λ x. W → Result Nothing × W) [
        | some args ↦ run_command host args
        | none ↦ λ u. (ok tt, u)
      ])
          w).1
        ≡ logged (of_args o) w
  add_args-logged none w = refl
  add_args-logged (some args) w = run_command-logged args w

  add_nic-logged :
      (nic : Nic) (w : W)
      → (add_nic host nic w).1 ≡ logged (of_args (add_args host w.vm.name nic nic.backing)) w
  unfolding add_nic
  add_nic-logged nic w = add_args-logged (add_args host w.vm.name nic nic.backing) w

  -- Two steps in turn, where the first one logs its runs and the second one does if it succeeds.
  then-ok :
      (m n : Method Nothing) (w : W) (xs ys : List (List String))
      → (m w).1 ≡ logged xs w
      → ((n (logged xs w)).0 ≡ ok tt → (n (logged xs w)).1 ≡ logged ys (logged xs w))
      → ((m >> n) w).0 ≡ ok tt
      → ((m >> n) w).1 ≡ logged (ys ++ xs) w
  then-ok m n w xs ys p next h =
      let (a, e, h') = resume-ok (m w).0 (λ _. n) (m w).1 h in
      rw e (ap (λ u. (n u).1) p ∙ next (ap (λ u. (n u).0) (sym p) ∙ h') ∙ logged-append ys xs w)

  delete_one-ok :
      (nic : Nic) (nics : List Nic) (w : W) (b : Bool)
      → is_disabled nic.backing ≡ b
      → ((u : W)
          → (delete_each host nics u).0 ≡ ok tt
          → (delete_each host nics u).1 ≡ logged (turning_off u.vm.name nics) u)
      → ((if b then delete_each host nics else delete_nic host nic >> delete_each host nics) w).0
        ≡ ok tt
      → ((if b then delete_each host nics else delete_nic host nic >> delete_each host nics) w).1
        ≡ logged
            (turning_off w.vm.name nics
              ++ (if b
                  then []
                  else ("modifyvm" ∷ w.vm.name ∷ nic_flag host nic.idx ∷ "null" ∷ []) ∷ []))
            w
  delete_one-ok nic nics w true off rest h = rw (append-nil (turning_off w.vm.name nics)) (rest w h)
  delete_one-ok nic nics w false on rest h =
      then-ok (delete_nic host nic) (delete_each host nics) w
        (("modifyvm" ∷ w.vm.name ∷ nic_flag host nic.idx ∷ "null" ∷ []) ∷ [])
        (turning_off w.vm.name nics) (delete_nic-ok nic w on) (rest _) h

  delete_each-ok :
      (nics : List Nic) (w : W)
      → (delete_each host nics w).0 ≡ ok tt
      → (delete_each host nics w).1 ≡ logged (turning_off w.vm.name nics) w
  unfolding delete_each
  delete_each-ok [] w h = refl
  delete_each-ok (nic ∷ nics) w h =
      delete_one-ok nic nics w (is_disabled nic.backing) refl (delete_each-ok nics) h

  add_each-ok :
      (nics : List Nic) (w : W)
      → (add_each host nics w).0 ≡ ok tt
      → (add_each host nics w).1 ≡ logged (setting_up w.vm.name nics) w
  unfolding add_each
  add_each-ok [] w h = refl
  add_each-ok (nic ∷ nics) w h =
      then-ok (add_nic host nic) (add_each host nics) w
        (of_args (add_args host w.vm.name nic nic.backing)) (setting_up w.vm.name nics)
        (add_nic-logged nic w) (add_each-ok nics _) h

  -- The cards that showvminfo reports.
  abbrev pub Reported : List Nic → W → Type 0
  Reported nics w =
      let args = "showvminfo" ∷ w.vm.name ∷ [] in
      (stdout : String) × (combined (host.run w.log args) ≡ ok stdout)
      × (read_nics (lines stdout) ≡ ok nics)

  abbrev reading : W → Result (List Nic)
  reading w =
      Result.◌>>=◌ (combined (host.run w.log ("showvminfo" ∷ w.vm.name ∷ [])))
        (λ stdout. read_nics (lines stdout))

  get_interfaces-logged :
      (w : W) → get_interfaces host w ≡ (reading w, logged (("showvminfo" ∷ w.vm.name ∷ []) ∷ []) w)
  unfolding get_interfaces run_combined_error run
  get_interfaces-logged w =
      resume-lift (combined (host.run w.log ("showvminfo" ∷ w.vm.name ∷ [])))
        (λ stdout. read_nics (lines stdout)) _

  deleted :
      (r : Result (List Nic)) (u : W)
      → let t = recover r (λ e. fail err_failed_to_get_nics) u in
        (resume t.0 (delete_each host) t.1).0 ≡ ok tt
        → (nics : List Nic) × (r ≡ ok nics)
          × ((resume t.0 (delete_each host) t.1).1 ≡ logged (turning_off u.vm.name nics) u)
  deleted (ok nics) u h = (nics, refl, delete_each-ok nics u h)
  deleted (err e) u h = absurd (cc)
  deleted panic u h = absurd (cc)

  delete_nics-ok :
      (w : W)
      → (delete_nics host w).0 ≡ ok tt
      → (nics : List Nic) × Reported nics w
        × ((delete_nics host w).1
            ≡ logged (turning_off w.vm.name nics ++ (("showvminfo" ∷ w.vm.name ∷ []) ∷ [])) w)
  unfolding delete_nics
  delete_nics-ok w h =
      let runs = ("showvminfo" ∷ w.vm.name ∷ []) ∷ [] in
      let (nics, r, e) = deleted (reading w) (logged runs w) (rw (get_interfaces-logged w) at h) in
      (
        nics,
        bind-ok _ _ r,
        rw (get_interfaces-logged w) (e ∙ logged-append (turning_off w.vm.name nics) runs w),
      )

  -- When configure succeeds, it has run showvminfo, then one command for each card reported there that
  -- is not disabled, to turn it off, then one command for each card of the config that is NAT or
  -- bridged, in the config's order; it has run nothing else, and the VM is as before.
  pub configure-ok :
      (w : W)
      → (configure host w).0 ≡ ok tt
      → (nics : List Nic) × Reported nics w
        × ((configure host w).1
            ≡ logged
                (setting_up w.vm.name w.vm.config.nics
                  ++ (turning_off w.vm.name nics ++ (("showvminfo" ∷ w.vm.name ∷ []) ∷ [])))
                w)
  unfolding configure
  configure-ok w h =
      let (a, p, q) = resume-ok (delete_nics host w).0 _ (delete_nics host w).1 h in
      let (nics, seen, e) = delete_nics-ok w p in
      let each = λ (u : W). add_each host u.vm.config.nics u in
      (
        nics,
        seen,
        rw p (
            ap (λ u. (each u).1) e
            ∙ add_each-ok w.vm.config.nics _ (ap (λ u. (each u).0) (sym e) ∙ q)
            ∙ logged-append (setting_up w.vm.name w.vm.config.nics) _ w),
      )
