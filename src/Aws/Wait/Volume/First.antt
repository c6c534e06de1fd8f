-- ===== src/Aws/Wait/Volume/First.antt =====
-- waitUntilVolumeState returns nil exactly when one of its queries finds the volume in the state
-- waited for, and none before it finds the volume in the error state.
use libretto.Base.{
  ℕ, ◌<◌, ◌≡◌, refl, String, false, Option, none, some, ◌==◌, ◌⊎◌, ◌↔◌, inl, inr, arith, eq_iff,
}
use libretto.Go.Error.{Error}
use libretto.Go.Result.{ok}
use libretto.Go.Action.{World}
use libretto.Go.Retry.{again, stop}
use libretto.Go.Poll.{polled, Ends-ok, Ends-returned}
use libretto.Aws.Types.{Vm}
use libretto.Aws.Api.{Ec2, Call}
use libretto.Aws.Wait.Volume.{
  VolumeReply, Locals, state_switch, state_test, first_volume_state, volume_test, volume_timeout,
  volume_calls, volume_at, max_retries, wait_until_volume_state, wait_until_volume_state-Ends,
}

-- A query that succeeded and found this state.
abbrev pub Finds : String → VolumeReply → Type 0
Finds state r = (r.1 ≡ none) × (first_volume_state r.0 ≡ some state)

-- A query after which the loop goes on.
abbrev pub IsPending : String → VolumeReply → Type 0
IsPending wanted r =
    ((e : Error) × (r.1 ≡ some e))
    ⊎ (first_volume_state r.0 ≡ none)
    ⊎ ((s : String) × (first_volume_state r.0 ≡ some s)
        × ((s == "error") ≡ false)
        × ((s == wanted) ≡ false))

state_test-ok :
    (wanted : String) (o : Option String)
    → state_test wanted o ≡ ok (stop tt)
    → (o ≡ some wanted) × ((wanted == "error") ≡ false)
unfolding state_test
state_test-ok wanted none h = absurd (cc)
state_test-ok wanted (some s) h = ground (arith, eq_iff s wanted)

state_test-again :
    (wanted : String) (o : Option String) {l : Locals}
    → state_test wanted o ≡ ok (again l)
    → (o ≡ none)
      ⊎ ((s : String) × (o ≡ some s) × ((s == "error") ≡ false) × ((s == wanted) ≡ false))
unfolding state_test
state_test-again wanted none h = inl refl
state_test-again wanted (some s) h = inr (s, refl, ground arith, ground arith)

volume_test-ok :
    (wanted : String) (r : VolumeReply)
    → volume_test wanted r ≡ ok (stop tt)
    → Finds wanted r × ((wanted == "error") ≡ false)
unfolding volume_test
volume_test-ok wanted (vols, some e) h = absurd (cc)
volume_test-ok wanted (vols, none) h =
    let (a, b) = state_test-ok wanted (first_volume_state vols) h in ((refl, a), b)

volume_test-again :
    (wanted : String) (r : VolumeReply) {l : Locals}
    → volume_test wanted r ≡ ok (again l)
    → IsPending wanted r
unfolding volume_test
volume_test-again wanted (vols, some e) h = inl (e, refl)
volume_test-again wanted (vols, none) h = inr (state_test-again wanted (first_volume_state vols) h)

volume_test-IsPending :
    (wanted : String) (r : VolumeReply) → IsPending wanted r → volume_test wanted r ≡ ok (again r.1)
unfolding volume_test
volume_test-IsPending wanted (vols, some e) p = refl
volume_test-IsPending wanted (vols, none) (inl (e, q)) = absurd (cc)
volume_test-IsPending wanted (vols, none) (inr (inl q)) = rw (q, volume_test, state_test)
volume_test-IsPending wanted (vols, none) (inr (inr (s, q, a, b))) =
    rw (q, volume_test, state_test) (rw (a, state_switch) (rw b))

volume_test-Finds :
    (wanted : String) (r : VolumeReply)
    → (wanted == "error") ≡ false
    → Finds wanted r
    → volume_test wanted r ≡ ok (stop tt)
unfolding volume_test
volume_test-Finds wanted (vols, some e) n p = absurd (cc p.0)
volume_test-Finds wanted (vols, none) n p =
    rw (p.1, volume_test, state_test) (rw (n, state_switch) (rw ((eq_iff wanted wanted).1 refl)))

module _ (svc : Ec2) (id wanted : String) (w : World Vm Call) where
  -- What the query of round k returns.
  abbrev pub volume_poll : ℕ → VolumeReply
  volume_poll k = volume_at svc id k (polled (volume_calls id) k w.log)

  -- Waiting for a state other than "error", waitUntilVolumeState returns nil if and only if some
  -- query k of its 120 finds the volume in that state, and every query before it is an error, shows
  -- no state, or shows a state that is neither that one nor "error".
  pub wait_until_volume_state-ok_iff :
      (wanted == "error") ≡ false
      → ((wait_until_volume_state svc id wanted w).0 ≡ ok tt) ↔ (
          (k : ℕ) × (k < max_retries)
          × Finds wanted (volume_poll k)
          × ((j : ℕ) → j < k → IsPending wanted (volume_poll j)))
  unfolding volume_timeout
  wait_until_volume_state-ok_iff n = (
    (λ h.
        let (k, lt, before, v, t) =
          Ends-ok _ _ _ _ w (wait_until_volume_state-Ends svc id wanted w) timeout_fails h in
        (
          k,
          lt,
          (volume_test-ok wanted (volume_poll k) v).0,
          λ j lt'. volume_test-again wanted (volume_poll j) (before j lt').1,
        )),
    (λ h.
        (Ends-returned _ _ _ _ w h.0 tt (wait_until_volume_state-Ends svc id wanted w) h.1
          (λ j lt. ((volume_poll j).1, volume_test-IsPending wanted (volume_poll j) (h.3 j lt)))
          (volume_test-Finds wanted (volume_poll h.0) n h.2)).0),
  )
    where
      timeout_fails : (l : Locals) (u : World Vm Call) → ¬ ((volume_timeout wanted l u).0 ≡ ok tt)
      timeout_fails none u e = cc
      timeout_fails (some x) u e = cc
