-- ===== src/Aws/Wait/Bounds.antt =====
-- How long the waits of virtualmachine/aws/wait.go may take: the seconds that they sleep.
use libretto.Base.{
  ℕ, zero, suc, ◌+◌, ◌*◌, ◌^◌, ◌≤◌, ◌≡◌, refl, false, String, List, [], ◌∷◌, ◌==◌, arith,
}
use native.Mathlib.Nat.{pow-suc, pow-le-pow_right}
use libretto.Go.Action.{World}
use libretto.Go.Poll.{polled, Ends-log}
use libretto.Aws.Types.{Vm}
use libretto.Aws.Api.{Ec2, Call, sleep}
use libretto.Aws.Wait.Ready.{ready_calls, wait_until_ready, wait_until_ready-Ends}
use libretto.Aws.Wait.State.{
  BreakStates, match_state, status_calls, wait_timeout-quiet, wait_until_state,
  wait_until_state-Ends,
}
use libretto.Aws.Wait.Volume.{
  volume_calls, volume_timeout-quiet, wait_until_volume_state, wait_until_volume_state-Ends,
}

-- The seconds slept in a sequence of calls.
unfoldable pub slept : List Call → ℕ
slept [] = 0
slept (sleep s ∷ log) = s + slept log
slept (c ∷ log) = slept log

slept-ready :
    (id : String) (k : ℕ) (log : List Call)
    → slept (polled (ready_calls id) k log) + 1 ≡ slept log + 2 ^ k
unfolding slept polled
slept-ready id zero log = refl
slept-ready id (suc k) log = omega (arith, slept-ready id k log, pow-suc 2 k)

slept-status :
    (id : String) (k : ℕ) (log : List Call)
    → slept (polled (status_calls id) k log) ≡ slept log + 15 * k
unfolding slept polled
slept-status id zero log = omega arith
slept-status id (suc k) log = omega (arith, slept-status id k log)

slept-volume :
    (id : String) (k : ℕ) (log : List Call)
    → slept (polled (volume_calls id) k log) ≡ slept log + 5 * k
unfolding slept polled
slept-volume id zero log = omega arith
slept-volume id (suc k) log = omega (arith, slept-volume id k log)

power_bound : (k : ℕ) → k ≤ 10 → 2 ^ k ≤ 1024
power_bound k h = pow-le-pow_right (omega arith) h

-- Whatever EC2 answers, waitUntilReady sleeps at most 1023 seconds (about 17 minutes),
-- waitUntilState with a state to wait for at most 900, and waitUntilVolumeState at most 600; none
-- of them changes the VM's struct.
pub wait_bounds :
    (svc : Ec2) (id wanted : String) (m : BreakStates) (w : World Vm Call)
    → (match_state m == "") ≡ false
    → let ready = (wait_until_ready svc id w).1 in
      let state = (wait_until_state svc id m w).1 in
      let volume = (wait_until_volume_state svc id wanted w).1 in
      ((slept ready.log ≤ slept w.log + 1023) × (ready.vm ≡ w.vm))
      × ((slept state.log ≤ slept w.log + 900) × (state.vm ≡ w.vm))
      × ((slept volume.log ≤ slept w.log + 600) × (volume.vm ≡ w.vm))
wait_bounds svc id wanted m w target = (ready, state, volume)
  where
    ready :
        (slept (wait_until_ready svc id w).1.log ≤ slept w.log + 1023)
        × ((wait_until_ready svc id w).1.vm ≡ w.vm)
    ready =
        let (k, le, t) = Ends-log _ _ _ _ w (wait_until_ready-Ends svc id w) (λ l u. refl) in
        rw t (omega (arith, slept-ready id k w.log, power_bound k le), refl)

    state :
        (slept (wait_until_state svc id m w).1.log ≤ slept w.log + 900)
        × ((wait_until_state svc id m w).1.vm ≡ w.vm)
    state =
        let (k, le, t) =
          Ends-log _ _ _ _ w (wait_until_state-Ends svc id m w target) (wait_timeout-quiet m) in
        rw t (omega (arith, slept-status id k w.log), refl)

    volume :
        (slept (wait_until_volume_state svc id wanted w).1.log ≤ slept w.log + 600)
        × ((wait_until_volume_state svc id wanted w).1.vm ≡ w.vm)
    volume =
        let (k, le, t) =
          Ends-log _ _ _ _ w (wait_until_volume_state-Ends svc id wanted w)
            (volume_timeout-quiet wanted) in
        rw t (omega (arith, slept-volume id k w.log), refl)
