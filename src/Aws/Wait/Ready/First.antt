-- ===== src/Aws/Wait/Ready/First.antt =====
-- waitUntilReady returns nil exactly when one of its polls finds the instance running, and none
-- before it finds the instance on its way down.
use libretto.Base.{
  ℕ, ◌<◌, ◌≡◌, refl, String, false, Option, none, some, List, [], ◌∷◌, ◌==◌, ◌⊎◌, ◌↔◌, ap, inl, inr,
  All, arith, eq_iff,
}
use libretto.Go.Error.{Error}
use libretto.Go.Result.{ok}
use libretto.Go.Action.{World}
use libretto.Go.Retry.{again, stop}
use libretto.Go.Poll.{polled, Ends-ok, Ends-returned}
use libretto.Aws.Types.{Vm}
use libretto.Aws.Api.{Ec2, Call}
use libretto.Aws.Wait.Ready.{
  Locals, first_state, ready_switch, state_test, ready_test, wait_until_ready,
  wait_until_ready-Ends, ready_calls, described, max_retries,
}

-- The answer of one poll: it shows the instance running; or the loop goes on, since it is an
-- error, shows no state, or shows a state that is neither running nor on the way down.
abbrev pub IsRunning : Locals → Type 0
IsRunning l = (l.1 ≡ none) × (first_state l.0 ≡ some "running")

abbrev pub down_states : List String
down_states = "terminated" ∷ "shutting-down" ∷ "stopping" ∷ "stopped" ∷ []

-- A state that neither ends the wait nor fails it.
abbrev pub Quiet : String → Type 0
Quiet s = ((s == "running") ≡ false) × All (λ d. (s == d) ≡ false) down_states

abbrev pub IsPending : Locals → Type 0
IsPending l =
    ((e : Error) × (l.1 ≡ some e))
    ⊎ (first_state l.0 ≡ none)
    ⊎ ((s : String) × (first_state l.0 ≡ some s) × Quiet s)

ready_switch-ok : (l : Locals) (s : String) → ready_switch l s ≡ ok (stop tt) → s ≡ "running"
unfolding ready_switch
ready_switch-ok l s h = ground (arith, eq_iff s "running")

ready_switch-again : (l m : Locals) (s : String) → ready_switch l s ≡ ok (again m) → Quiet s
unfolding ready_switch
ready_switch-again l m s h = ground arith

ready_switch-Quiet : (l : Locals) (s : String) → Quiet s → ready_switch l s ≡ ok (again l)
unfolding ready_switch
ready_switch-Quiet l s q = ground arith

state_test-ok :
    (l : Locals) (o : Option String) → state_test l o ≡ ok (stop tt) → o ≡ some "running"
unfolding state_test
state_test-ok l none h = absurd (cc)
state_test-ok l (some s) h = ap some (ready_switch-ok l s h)

state_test-again :
    (l m : Locals) (o : Option String)
    → state_test l o ≡ ok (again m)
    → (o ≡ none) ⊎ ((s : String) × (o ≡ some s) × Quiet s)
unfolding state_test
state_test-again l m none h = inl refl
state_test-again l m (some s) h = inr (s, refl, ready_switch-again l m s h)

pub ready_test-ok : (l : Locals) → ready_test l ≡ ok (stop tt) → IsRunning l
unfolding ready_test
ready_test-ok (resp, some e) h = absurd (cc)
ready_test-ok (resp, none) h = (refl, state_test-ok (resp, none) (first_state resp) h)

pub ready_test-again : (l m : Locals) → ready_test l ≡ ok (again m) → IsPending l
unfolding ready_test
ready_test-again (resp, some e) m h = inl (e, refl)
ready_test-again (resp, none) m h = inr (state_test-again (resp, none) m (first_state resp) h)

pub ready_test-IsPending : (l : Locals) → IsPending l → ready_test l ≡ ok (again l)
unfolding ready_test
ready_test-IsPending (resp, some e) p = refl
ready_test-IsPending (resp, none) (inl (e, q)) = absurd (cc)
ready_test-IsPending (resp, none) (inr (inl q)) = rw (q, ready_test, state_test)
ready_test-IsPending (resp, none) (inr (inr (s, q, quiet))) =
    rw (q, ready_test, state_test) (ready_switch-Quiet (resp, none) s quiet)

pub ready_test-IsRunning : (l : Locals) → IsRunning l → ready_test l ≡ ok (stop tt)
unfolding ready_test
ready_test-IsRunning (resp, some e) p = absurd (cc p.0)
ready_test-IsRunning (resp, none) p = rw (p.1, ready_test, state_test, ready_switch)

module _ (svc : Ec2) (id : String) (w : World Vm Call) where
  -- What the poll of round k returns.
  abbrev pub ready_poll : ℕ → Locals
  ready_poll k = described svc id k (polled (ready_calls id) k w.log)

  -- waitUntilReady returns nil if and only if some poll k of its ten shows the instance running and
  -- every poll before it is an error, shows no state, or shows a state that is neither running,
  -- terminated, shutting-down, stopping nor stopped.
  pub wait_until_ready-ok_iff : ((wait_until_ready svc id w).0 ≡ ok tt) ↔ (
      (k : ℕ) × (k < max_retries)
      × IsRunning (ready_poll k)
      × ((j : ℕ) → j < k → IsPending (ready_poll j)))
  wait_until_ready-ok_iff = (
    (λ h.
        let (k, lt, before, v, t) =
          Ends-ok _ _ _ _ w (wait_until_ready-Ends svc id w) (λ l u e. cc e) h in
        (
          k,
          lt,
          ready_test-ok (ready_poll k) v,
          λ j lt'. ready_test-again (ready_poll j) (before j lt').0 (before j lt').1,
        )),
    (λ h.
        (Ends-returned _ _ _ _ w h.0 tt (wait_until_ready-Ends svc id w) h.1
          (λ j lt. (ready_poll j, ready_test-IsPending (ready_poll j) (h.3 j lt)))
          (ready_test-IsRunning (ready_poll h.0) h.2)).0),
  )
