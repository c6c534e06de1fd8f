-- ===== src/Openstack/Servers/Halting.antt =====
-- Halt of virtualmachine/openstack/vm.go on a server that is not active.
use libretto.Base.{
  ◌≡◌, refl, String, Bool, true, false, Option, none, some, ◌∷◌, ◌==◌, ◌≢◌, arith, eq_iff,
  if◌then◌else◌,
}
use libretto.Go.Error.{Error}
use libretto.Go.Result
use libretto.Go.Result.{Result, ok, err, panic}
use libretto.Go.Action.{World, resume-lift}
use libretto.Openstack.Types.{Vm}
use libretto.Openstack.Api.{Cloud, Call, get_server}
use libretto.Openstack.Clients.{get_compute_client}
use libretto.Openstack.Servers.{extract, state_of, the_server, get_state, halt}

-- What a query returns of a server that is active.
abbrev pub active : Option String × Option Error
active = (some "ACTIVE", none)

not_active :
    (s : String)
    → ¬ (◌≡◌ {A = Option String × Option Error} (some s, none) active)
    → (s == "ACTIVE") ≡ false
not_active s h = ground (arith, eq_iff s "ACTIVE")

abbrev state_for : Option String × Option Error → Result String
unfolding extract state_of
state_for r = Result.◌>>=◌ (extract r) state_of

ok_differ : (s t : String) → (s == t) ≡ false → ¬ (◌≡◌ {A = Result String} (ok s) (ok t))
ok_differ s t h q = ground (arith, eq_iff s t)

state_differs :
    (b d : Bool)
    → ¬ (
        ◌≡◌ {A = Result String}
          (if b then ok "halted" else if d then ok "error" else ok "unknown")
          (ok "running"))
state_differs true d = ok_differ "halted" "running" refl
state_differs false true = ok_differ "error" "running" refl
state_differs false false = ok_differ "unknown" "running" refl

inactive-running : (r : Option String × Option Error) → r ≢ active → ¬ (state_for r ≡ ok "running")
unfolding state_for extract state_of
inactive-running (none, e) h q = absurd (cc)
inactive-running (some s, some e) h q = absurd (cc)
inactive-running (some s, none) h q =
    state_differs (s == "SHUTOFF") (s == "ERROR") (rw (not_active s h) at q)

not_running : (s : String) → ¬ (ok s ≡ ok "running") → (s == "running") ≡ false
not_running s h = ground (arith, eq_iff s "running")

module _ (svc : Cloud) (w : World Vm Call) (c : w.vm.compute_client ≡ true)
    (n : (w.vm.instance_id == "") ≡ false) where
  abbrev pub queried : World Vm Call
  queried = record w { log = get_server w.vm.instance_id ∷ w.log }

  get_state_lem : get_state svc w ≡ (state_for (svc.server w.log w.vm.instance_id), queried)
  unfolding get_state the_server get_compute_client
  get_state_lem =
      ground (arith, resume-lift (extract (svc.server w.log w.vm.instance_id)) state_of queried)

  refused_by :
      (state : Result String)
      → get_state svc w ≡ (state, queried)
      → ¬ (state ≡ ok "running")
      → ((halt svc w).1 ≡ queried) × ¬ ((halt svc w).0 ≡ ok tt)
  unfolding halt get_compute_client
  refused_by (ok s) h inactive =
      let other = not_running s inactive in (ground arith, λ q. ground arith)
  refused_by (err e) h inactive = (ground arith, λ q. ground arith)
  refused_by panic h inactive = (ground arith, λ q. ground arith)

  -- For a VM with an id and a client, Halt on a server whose query does not show it active does not
  -- return nil, and sends that query only: no call to stop the server.
  pub halt_unless_active :
      svc.server w.log w.vm.instance_id ≢ active
      → ((halt svc w).1 ≡ queried) × ((halt svc w).0 ≢ ok tt)
  halt_unless_active h =
      refused_by (state_for (svc.server w.log w.vm.instance_id)) get_state_lem
        (inactive-running (svc.server w.log w.vm.instance_id) h)
