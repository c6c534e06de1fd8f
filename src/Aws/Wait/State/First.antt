-- ===== src/Aws/Wait/State/First.antt =====
-- waitUntilState returns nil exactly when one of its queries finds the state waited for, and none
-- before it finds a state of the table; it fails on a state marked false.
use libretto.Base.{
  ℕ, suc, ◌<◌, ◌≡◌, refl, ap, String, Bool, true, false, Option, none, some, ◌==◌, ◌<>◌, ◌⊎◌, ◌↔◌,
  inl, inr, lookup,
}
use libretto.Go.Error.{Error, new}
use libretto.Go.Result
use libretto.Go.Result.{Result, ok, err, panic, Reply, answer, failure}
use libretto.Go.Action.{World}
use libretto.Go.Retry.{again, stop}
use libretto.Go.Poll.{polled, GoesOnBefore, Ends-ok, Ends-returned, Ends-failed}
use libretto.Aws.Types.{Vm, InstanceStatus}
use libretto.Aws.Api.{Ec2, Call}
use libretto.Aws.Wait.State.{
  BreakStates, match_state, break_test, verdict_of, status_calls, status_at, status_verdict,
  max_retries, wait_until_state, wait_until_state-Ends, wait_timeout,
}

-- A query that found an instance whose state has this mark in the table.
abbrev pub Finds : BreakStates → Bool → String → Result (Reply InstanceStatus) → Type 0
Finds m b name r =
    (s : InstanceStatus) × (r ≡ ok (answer s)) × (s.state ≡ name) × (lookup s.state m ≡ some b)

-- A query after which the loop goes on: an error, or a state that is not in the table.
abbrev pub IsPending : BreakStates → Result (Reply InstanceStatus) → Type 0
IsPending m r =
    ((e : Error) × (r ≡ ok (failure e)))
    ⊎ ((s : InstanceStatus) × (r ≡ ok (answer s)) × (lookup s.state m ≡ none))

module _ (svc : Ec2) (id : String) (m : BreakStates) (w : World Vm Call) where
  -- What the query of round k returns.
  abbrev pub status_poll : ℕ → Result (Reply InstanceStatus)
  status_poll k = status_at svc id k (polled (status_calls id) k w.log)

verdict_of-ok : (name : String) (o : Option Bool) → verdict_of name o ≡ ok (stop tt) → o ≡ some true
verdict_of-ok name none h = absurd (cc)
verdict_of-ok name (some true) h = refl
verdict_of-ok name (some false) h = absurd (cc)

verdict_of-again :
    (name : String) (o : Option Bool) {l : Unit {0}} → verdict_of name o ≡ ok (again l) → o ≡ none
verdict_of-again name none h = refl
verdict_of-again name (some true) h = absurd (cc)
verdict_of-again name (some false) h = absurd (cc)

verdict-ok :
    (m : BreakStates) (r : Result (Reply InstanceStatus))
    → Result.◌>>=◌ r (break_test m) ≡ ok (stop tt)
    → (name : String) × Finds m true name r
unfolding break_test
verdict-ok m (ok (answer s)) h =
    (s.state, (s, refl, refl, verdict_of-ok s.state (lookup s.state m) h))
verdict-ok m (ok (failure e)) h = absurd (cc)
verdict-ok m (err e) h = absurd (cc)
verdict-ok m panic h = absurd (cc)

verdict-again :
    (m : BreakStates) (r : Result (Reply InstanceStatus)) {l : Unit {0}}
    → Result.◌>>=◌ r (break_test m) ≡ ok (again l)
    → IsPending m r
unfolding break_test
verdict-again m (ok (answer s)) h = inr (s, refl, verdict_of-again s.state (lookup s.state m) h)
verdict-again m (ok (failure e)) h = inl (e, refl)
verdict-again m (err e) h = absurd (cc)
verdict-again m panic h = absurd (cc)

verdict-IsPending :
    (m : BreakStates) (r : Result (Reply InstanceStatus))
    → IsPending m r
    → Result.◌>>=◌ r (break_test m) ≡ ok (again tt)
unfolding break_test
verdict-IsPending m r (inl (e, h)) = rw h
verdict-IsPending m r (inr (s, h, l)) = rw h (rw l)

verdict-Finds :
    (m : BreakStates) (r : Result (Reply InstanceStatus)) (name : String)
    → Finds m true name r
    → Result.◌>>=◌ r (break_test m) ≡ ok (stop tt)
unfolding break_test
verdict-Finds m r name (s, h, n, l) = rw h (rw l)

verdict-Finds-false :
    (m : BreakStates) (r : Result (Reply InstanceStatus)) (name : String)
    → Finds m false name r
    → Result.◌>>=◌ r (break_test m) ≡ err (new ("Instance unexpectedly " <> name))
unfolding break_test
verdict-Finds-false m r name (s, h, n, l) = rw h (rw l (rw n))

module _ (svc : Ec2) (id : String) (m : BreakStates) (w : World Vm Call)
    (target : (match_state m == "") ≡ false) where
  goes_on :
      (k : ℕ)
      → ((j : ℕ) → j < k → IsPending m (status_poll svc id m w j))
      → GoesOnBefore (status_calls id) (status_verdict svc id m) w.log k
  goes_on k h j lt = (tt, verdict-IsPending m (status_poll svc id m w j) (h j lt))

  -- With a state to wait for, waitUntilState returns nil if and only if some query k of its sixty
  -- finds the instance in a state marked true, and every query before it is an error or finds a
  -- state that is not in the table.
  pub wait_until_state-ok_iff : ((wait_until_state svc id m w).0 ≡ ok tt) ↔ (
      (k : ℕ) × (k < max_retries)
      × ((name : String) × Finds m true name (status_poll svc id m w k))
      × ((j : ℕ) → j < k → IsPending m (status_poll svc id m w j)))
  unfolding wait_timeout
  wait_until_state-ok_iff = (
    (λ h.
        let (k, lt, before, v, t) =
          Ends-ok _ _ _ _ w (wait_until_state-Ends svc id m w target) (λ l u e. cc e) h in
        (
          k,
          lt,
          verdict-ok m (status_poll svc id m w k) v,
          λ j lt'. verdict-again m (status_poll svc id m w j) (before j lt').1,
        )),
    (λ h.
        (Ends-returned _ _ _ _ w h.0 tt (wait_until_state-Ends svc id m w target) h.1
          (goes_on h.0 h.3) (verdict-Finds m (status_poll svc id m w h.0) h.2.0 h.2.1)).0),
  )

  -- A state marked false ends the wait at once: the loop fails with that state's name, and has
  -- sent no call after the query that found it.
  pub wait_until_state_broken :
      (k : ℕ) (name : String)
      → k < max_retries
      → Finds m false name (status_poll svc id m w k)
      → ((j : ℕ) → j < k → IsPending m (status_poll svc id m w j))
      → ((wait_until_state svc id m w).0 ≡ err (new ("Instance unexpectedly " <> name)))
        × ((wait_until_state svc id m w).1.log ≡ polled (status_calls id) (suc k) w.log)
  wait_until_state_broken k name lt found before =
      let r =
        Ends-failed _ _ _ _ w k _ (wait_until_state-Ends svc id m w target) lt (goes_on k before)
          (verdict-Finds-false m (status_poll svc id m w k) name found) in
      (r.0, ap (λ (t : World Vm Call). t.log) r.1)
