-- ===== src/Openstack/Servers/Deletion.antt =====
-- When deleteVM of virtualmachine/openstack/util.go returns nil.
use libretto.Base.{
  ℕ, ◌<◌, ◌≡◌, refl, String, true, false, Option, none, some, List, ◌∷◌, ◌==◌, ◌↔◌, arith,
}
use libretto.Go.Error.{Error}
use libretto.Go.Result.{Result, ok, err, panic, answer}
use libretto.Go.Result
use libretto.Go.Action.{World, resume, fail}
use libretto.Go.Retry.{Verdict, again, stop, retry, retry-same}
use libretto.Go.Poll.{Ends, poll-Ends, polled, Ends-ok, Ends-returned}
use libretto.Openstack.Types.{Vm, action_timeout, err_action_timeout}
use libretto.Openstack.Api.{Cloud, Call, Method, get_server, delete_server}
use libretto.Openstack.Clients.{get_compute_client, pause, paused, pause_lem}
use libretto.Openstack.Servers.{extract, gone_test, the_server, gone_round, delete_vm}

-- What a query returns, and what the loop makes of it.
abbrev pub ServerReply : Type 0
ServerReply = Option String × Option Error

unfoldable pub verdict : ServerReply → Result (Verdict (Unit {0}) (Unit {0}))
unfolding extract
verdict r = Result.◌>>=◌ (extract r) gone_test

-- The server is there, and not in error.
abbrev pub IsThere : ServerReply → Type 0
IsThere r = (s : String) × (r ≡ (some s, none)) × ((s == "ERROR") ≡ false)

verdict-stop : (r : ServerReply) → verdict r ≡ ok (stop tt) → r.0 ≡ none
unfolding gone_test verdict
verdict-stop (none, e) h = refl
verdict-stop (some s, none) h = absurd (ground arith)
verdict-stop (some s, some e) h = absurd (cc)

verdict-none : (r : ServerReply) → r.0 ≡ none → verdict r ≡ ok (stop tt)
unfolding gone_test verdict
verdict-none (none, e) h = refl
verdict-none (some s, e) h = absurd (cc)

verdict-again : (r : ServerReply) {l : Unit {0}} → verdict r ≡ ok (again l) → IsThere r
unfolding gone_test verdict
verdict-again (none, e) h = absurd (cc)
verdict-again (some s, none) h = (s, refl, ground arith)
verdict-again (some s, some e) h = absurd (cc)

verdict-IsThere : (r : ServerReply) → IsThere r → verdict r ≡ ok (again tt)
unfolding gone_test verdict
verdict-IsThere r (s, e, n) = rw e (rw (gone_test, n))

resume-pause :
    {A L B : Type 0} (r : Result A) (g : A → Result (Verdict L B)) (s : World Vm Call)
    → resume r (λ a. pause (g a)) s ≡ pause (Result.◌>>=◌ r g) s
resume-pause (ok a) g s = refl
resume-pause (err e) g s = refl
resume-pause panic g s = refl

module _ (svc : Cloud) (id : String) where
  abbrev pub gone_verdict : List Call → Result (Verdict (Unit {0}) (Unit {0}))
  gone_verdict log = verdict (svc.server log id)

  -- The calls of a round: the query, and a pause if the loop goes on.
  abbrev pub gone_calls : ℕ → List Call → List Call
  gone_calls k log = paused (gone_verdict log) (get_server id ∷ log)

  -- A round where the client is at hand.
  abbrev ready_round : ℕ → Unit {0} → Method (Verdict (Unit {0}) (Unit {0}))
  ready_round k l w = pause (gone_verdict w.log) (record w { log = get_server id ∷ w.log })

  abbrev IsReady : World Vm Call → Type 0
  IsReady w = (w.vm.compute_client ≡ true) × (w.vm.instance_id ≡ id) × ((id == "") ≡ false)

  gone_round-ready :
      (k : ℕ) (l : Unit {0}) (w : World Vm Call)
      → IsReady w
      → gone_round svc k l w ≡ ready_round k l w
  unfolding gone_round the_server get_compute_client verdict
  gone_round-ready k l w (c, i, n) = ground (
    arith,
    resume-pause (extract (svc.server w.log id)) gone_test
        (record w { log = get_server id ∷ w.log }),
  )

  ready_round-IsReady :
      (k : ℕ) (l : Unit {0}) (w : World Vm Call) → IsReady w → IsReady (ready_round k l w).1
  ready_round-IsReady k l w p =
      rw (pause_lem (gone_verdict w.log) (record w { log = get_server id ∷ w.log })) p

  gone-Ends :
      (w : World Vm Call)
      → IsReady w
      → let end = retry (gone_round svc) (λ l. fail err_action_timeout) action_timeout 0 tt w in
        Ends gone_calls
          (λ k log. gone_verdict log)
          (λ l. fail err_action_timeout)
          action_timeout
          w
          end.0
          end.1
  gone-Ends w p =
      rw
        (retry-same (gone_round svc) ready_round (λ l. fail err_action_timeout) IsReady
          gone_round-ready ready_round-IsReady 900 0 tt w p)
        (poll-Ends _ _ ready_round _
          (λ k l u. pause_lem (gone_verdict u.log) (record u { log = get_server id ∷ u.log })) 899 w
          tt)

module _ (svc : Cloud) (w : World Vm Call) where
  -- The world after the call to delete the server.
  abbrev pub deleting : World Vm Call
  deleting = record w { log = delete_server w.vm.instance_id ∷ w.log }

  -- What the query of round k returns.
  abbrev pub server_query : ℕ → ServerReply
  server_query k =
      svc.server (polled (gone_calls svc w.vm.instance_id) k deleting.log) w.vm.instance_id

  delete_vm-asked :
      (delete_vm svc w).0 ≡ ok tt → svc.remove_server w.log w.vm.instance_id ≡ answer tt
  unfolding delete_vm
  delete_vm-asked h = ground arith

  delete_vm-loop :
      svc.remove_server w.log w.vm.instance_id ≡ answer tt
      → delete_vm svc w
        ≡ retry (gone_round svc) (λ l. fail err_action_timeout) action_timeout 0 tt deleting
  unfolding delete_vm
  delete_vm-loop h = rw h

  -- For a VM with an id and a client, deleteVM returns nil if and only if OpenStack accepts the call
  -- to delete the server, some query k of the 900 after it returns no server, with an error or not,
  -- and every query before it finds the server in a state other than ERROR.
  pub delete_vm-ok_iff :
      w.vm.compute_client ≡ true
      → (w.vm.instance_id == "") ≡ false
      → ((delete_vm svc w).0 ≡ ok tt) ↔ (
          (svc.remove_server w.log w.vm.instance_id ≡ answer tt)
          × ((k : ℕ) × (k < action_timeout)
              × ((server_query k).0 ≡ none)
              × ((j : ℕ) → j < k → IsThere (server_query j))))
  delete_vm-ok_iff c n = (
    (λ h.
        let asked = delete_vm-asked h in
        let loop = rw (delete_vm-loop asked) at h in
        let (k, lt, before, v, t) = Ends-ok _ _ _ _ deleting ends (λ l u e. cc e) loop in
        (
          asked,
          (
            k,
            lt,
            verdict-stop (server_query k) v,
            λ j lt'. verdict-again (server_query j) (before j lt').1,
          ),
        )),
    (λ h.
        rw (delete_vm-loop h.0)
          (Ends-returned _ _ _ _ deleting h.1.0 tt ends h.1.1
            (λ j lt. (tt, verdict-IsThere (server_query j) (h.1.3 j lt)))
            (verdict-none (server_query h.1.0) h.1.2)).0),
  )
    where
      ends :
          let loop =
            retry (gone_round svc) (λ l. fail err_action_timeout) action_timeout 0 tt deleting in
          Ends
            (gone_calls svc w.vm.instance_id)
            (λ k log. gone_verdict svc w.vm.instance_id log)
            (λ l. fail err_action_timeout)
            action_timeout
            deleting
            loop.0
            loop.1
      ends = gone-Ends svc w.vm.instance_id deleting (c, refl, n)
