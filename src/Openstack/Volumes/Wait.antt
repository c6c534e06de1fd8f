-- ===== src/Openstack/Volumes/Wait.antt =====
-- When waitUntilVolume of virtualmachine/openstack/util.go returns nil.
use libretto.Base.{
  ℕ, ◌<◌, ◌≡◌, refl, ap, String, false, none, some, ◌==◌, ◌⊎◌, ◌↔◌, inl, inr, arith, eq_iff,
}
use libretto.Go.Result.{ok}
use libretto.Go.Action.{World}
use libretto.Go.Retry.{again, stop}
use libretto.Go.Poll.{polled, Ends-ok, Ends-returned, Ends-log}
use libretto.Openstack.Types.{Vm, volume_action_timeout}
use libretto.Openstack.Api.{Cloud, Call}
use libretto.Openstack.Volumes.{
  VolumeReply, status_switch, volume_test, volume_calls, wait_until_volume, wait_until_volume-Ends,
}

-- A query that ends the wait well: no volume, where the state waited for is "nil", or the volume in
-- that state.
abbrev pub Reached : String → VolumeReply → Type 0
Reached state r = ((r.0 ≡ none) × (state ≡ "nil")) ⊎ ((r.0 ≡ some state) × (r.1 ≡ none))

-- A query after which the loop goes on.
abbrev pub IsPending : String → VolumeReply → Type 0
IsPending state r =
    (s : String) × (r ≡ (some s, none))
    × ((s == state) ≡ false)
    × ((s == "error") ≡ false)
    × ((s == "error_deleting") ≡ false)

status_switch-ok : (state s : String) → status_switch state s ≡ ok (stop tt) → s ≡ state
unfolding status_switch
status_switch-ok state s h = ground (arith, eq_iff s state)

status_switch-again :
    (state s : String) {l : Unit {0}}
    → status_switch state s ≡ ok (again l)
    → ((s == state) ≡ false) × ((s == "error") ≡ false) × ((s == "error_deleting") ≡ false)
unfolding status_switch
status_switch-again state s h = ground arith

volume_test-ok :
    (state : String) (r : VolumeReply) → volume_test state r ≡ ok (stop tt) → Reached state r
unfolding volume_test
volume_test-ok state (none, e) h = inl (refl, ground (arith, eq_iff state "nil"))
volume_test-ok state (some s, some e) h = absurd (cc)
volume_test-ok state (some s, none) h = inr (ap some (status_switch-ok state s h), refl)

volume_test-Reached :
    (state : String) (r : VolumeReply) → Reached state r → volume_test state r ≡ ok (stop tt)
unfolding volume_test status_switch
volume_test-Reached state (none, e) (inl (p, q)) = ground (arith, eq_iff state "nil")
volume_test-Reached state (none, e) (inr (p, q)) = absurd (cc)
volume_test-Reached state (some s, e) (inl (p, q)) = absurd (cc)
volume_test-Reached state (some s, some e) (inr (p, q)) = absurd (cc)
volume_test-Reached state (some s, none) (inr (p, q)) =
    let same : s ≡ state = cc in rw (status_switch, (eq_iff s state).1 same)

volume_test-again :
    (state : String) (r : VolumeReply) {l : Unit {0}}
    → volume_test state r ≡ ok (again l)
    → IsPending state r
unfolding volume_test
volume_test-again state (none, e) h = absurd (ground arith)
volume_test-again state (some s, some e) h = absurd (cc)
volume_test-again state (some s, none) h =
    let (a, b, c) = status_switch-again state s h in (s, refl, a, b, c)

volume_test-IsPending :
    (state : String) (r : VolumeReply) → IsPending state r → volume_test state r ≡ ok (again tt)
unfolding volume_test status_switch
volume_test-IsPending state r (s, e, a, b, c) = rw e (rw (status_switch, a) (rw b (rw c)))

module _ (svc : Cloud) (id state : String) (w : World Vm Call) where
  -- What the query of round k returns.
  abbrev pub volume_query : ℕ → VolumeReply
  volume_query k = svc.volume (polled (volume_calls svc id state) k w.log) id

  -- waitUntilVolume returns nil if and only if some query k of its 900 finds the volume in the state
  -- waited for, or returns no volume where that state is "nil", and every query before it finds the
  -- volume in a state other than that one, "error" and "error_deleting".
  pub wait_until_volume-ok_iff : ((wait_until_volume svc id state w).0 ≡ ok tt) ↔ (
      (k : ℕ) × (k < volume_action_timeout)
      × Reached state (volume_query k)
      × ((j : ℕ) → j < k → IsPending state (volume_query j)))
  wait_until_volume-ok_iff = (
    (λ h.
        let (k, lt, before, v, t) =
          Ends-ok _ _ _ _ w (wait_until_volume-Ends svc id state w) (λ l u e. cc e) h in
        (
          k,
          lt,
          volume_test-ok state (volume_query k) v,
          λ j lt'. volume_test-again state (volume_query j) (before j lt').1,
        )),
    (λ h.
        (Ends-returned _ _ _ _ w h.0 tt (wait_until_volume-Ends svc id state w) h.1
          (λ j lt. (tt, volume_test-IsPending state (volume_query j) (h.3 j lt)))
          (volume_test-Reached state (volume_query h.0) h.2)).0),
  )

  pub wait_until_volume-vm : (wait_until_volume svc id state w).1.vm ≡ w.vm
  wait_until_volume-vm =
      let (k, le, t) = Ends-log _ _ _ _ w (wait_until_volume-Ends svc id state w) (λ l u. refl) in
      ap (λ (u : World Vm Call). u.vm) t
