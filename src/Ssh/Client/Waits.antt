-- ===== src/Ssh/Client/Waits.antt =====
-- How WaitForSSH of ssh/ssh.go ends.
use libretto.Base.{
  ℕ, zero, suc, Bool, true, false, Option, some, List, ◌∷◌, ◌≡◌, ◌≢◌, refl, String, if◌then◌else◌,
  ◌⊎◌, inl, inr, ◌+◌, ◌-◌, ◌*◌, ◌≤◌, ◌<◌, ltb, arith,
}
use libretto.Ssh.{Credentials}
use libretto.Go.Error.{Error}
use libretto.Go.Result.{Result, ok, err, panic, Reply, answer, failure, of_reply}
use libretto.Go.Action.{World, resume, outcome, lift, pure, request, note, put, get, ◌>>=◌}
use libretto.Ssh.Client.{
  SshClient, Server, Call, sleep, Nothing, validate, get_auth, read_private_key, connect,
  disconnect, connected, wait_rounds, wait_for_ssh, five_seconds, err_timeout,
}

module _ (server : Server) where
  abbrev W : Type 0
  W = World SshClient Call

  -- Time does not run backwards, and a sleep lasts as long as it says.
  pub record Ticks : Type 0 where
    pub forward : (log : List Call) (c : Call) → server.now log ≤ server.now (c ∷ log)
    pub slept : (log : List Call) (t : ℕ) → server.now log + t ≤ server.now (sleep t ∷ log)

  -- An action does not panic, and does not turn the clock back.
  record Goes {A : Type 0} (m : W → Result A × W) : Type 0 where
    pub later : (w : W) → server.now w.log ≤ server.now (m w).1.log
    pub ends : (w : W) → (m w).0 ≢ panic

  Goes-lift : {A : Type 0} (r : Result A) → r ≢ panic → Goes (lift r)
  Goes-lift r h = record { later = λ w. omega arith; ends = λ w. h }

  Goes-pure : {A : Type 0} (a : A) → Goes (pure a)
  Goes-pure a = record { later = λ w. omega arith; ends = λ w e. absurd (cc) }

  of_reply-ends : {A : Type 0} (r : Reply A) → of_reply r ≢ panic
  of_reply-ends (answer a) e = absurd (cc)
  of_reply-ends (failure x) e = absurd (cc)

  Goes-request :
      {A : Type 0} (c : Call) (reply : List Call → Reply A) → Ticks → Goes (request c reply)
  Goes-request c reply ticks = record {
    later = λ w. ticks.forward w.log c;
    ends = λ w. of_reply-ends (reply w.log);
  }

  Goes-note : (c : Call) → Ticks → Goes (note c)
  Goes-note c ticks = record { later = λ w. ticks.forward w.log c; ends = λ w e. absurd (cc) }

  Goes-put : (v : SshClient) → Goes (put v)
  Goes-put v = record { later = λ w. omega arith; ends = λ w e. absurd (cc) }

  Goes-if :
      {A : Type 0} (b : Bool) (m n : W → Result A × W) → Goes m → Goes n → Goes (if b then m else n)
  Goes-if true m n gm gn = gm
  Goes-if false m n gm gn = gn

  module _ {A B : Type 0} (f : A → W → Result B × W) (gf : (a : A) → Goes (f a)) where
    resume-later :
        (r : Result A) (w u : W)
        → server.now w.log ≤ server.now u.log
        → server.now w.log ≤ server.now (resume r f u).1.log
    resume-later (ok a) w u h = omega (arith, h, (gf a).later u)
    resume-later (err e) w u h = h
    resume-later panic w u h = h

    resume-ends : (r : Result A) (u : W) → r ≢ panic → (resume r f u).0 ≢ panic
    resume-ends (ok a) u h = (gf a).ends u
    resume-ends (err e) u h = λ e. absurd (cc)
    resume-ends panic u h = absurd (h refl)

    Goes-bind : (m : W → Result A × W) → Goes m → Goes (m >>= f)
    Goes-bind m gm = record {
      later = λ w. resume-later (m w).0 w (m w).1 (gm.later w);
      ends = λ w. resume-ends (m w).0 (m w).1 (gm.ends w);
    }

  Goes-get : Goes {A = SshClient} get
  Goes-get = record { later = λ w. omega arith; ends = λ w e. absurd (cc) }

  validate-ends : (creds : Credentials) → validate creds ≢ panic
  unfolding validate
  validate-ends creds = ground (arith)

  get_auth-ends :
      (creds : Credentials) (auth_type : String) → get_auth server creds auth_type ≢ panic
  unfolding get_auth read_private_key
  get_auth-ends creds auth_type = ground (arith)

  ruleset goes_rules = (
    Goes-lift, Goes-pure, Goes-request, Goes-note, Goes-put, Goes-if, Goes-bind, Goes-get,
    validate-ends, get_auth-ends,
  )

  connect-Goes : Ticks → Goes (connect server)
  unfolding connect
  connect-Goes ticks = search goes_rules depth 40

  abbrev Outcome : Type 0
  Outcome = Result (Option Nothing) × W

  -- WaitForSSH has returned nil, after a Connect that succeeded and Disconnect, or ErrTimeout, when
  -- the time since `start` was at least `max_wait`.
  abbrev pub Ended : ℕ → ℕ → Outcome → Type 0
  Ended max_wait start o =
      ((o.0 ≡ ok (some tt))
        × ((u : W) × ((connect server u).0 ≡ ok tt) × (o.1 ≡ (disconnect (connect server u).1).1)))
      ⊎ ((o.0 ≡ err err_timeout) × (start + max_wait ≤ server.now (o.1).log))

  -- A round, by what Connect returned and by the test of the time.
  module _ (ticks : Ticks) (max_wait start : ℕ) (rest : W → Outcome) where
    failed-Ended :
        (u : W) (b : Bool)
        → start ≤ server.now u.log
        → ltb (server.now u.log - start) max_wait ≡ b
        → ((server.now u.log + five_seconds ≤ server.now (sleep five_seconds ∷ u.log))
            → server.now u.log < start + max_wait
            → Ended max_wait start (rest (record u { log = sleep five_seconds ∷ u.log })))
        → (e : Error) → Ended max_wait start (connected server max_wait start rest (failure e) u)
    failed-Ended u true since h next e = rw h (next (ticks.slept u.log five_seconds) (ground arith))
    failed-Ended u false since h next e = rw h (inr (refl, ground arith))

    round-Ended :
        (w : W) (r : Result Nothing)
        → start ≤ server.now w.log
        → (connect server w).0 ≡ r
        → ((u : W)
            → server.now w.log + five_seconds ≤ server.now u.log
            → server.now w.log < start + max_wait
            → Ended max_wait start (rest u))
        → Ended max_wait start
            (resume (outcome r) (connected server max_wait start rest) (connect server w).1)
    unfolding disconnect
    round-Ended w (ok a) since h next = inl (refl, (w, h, refl))
    round-Ended w (err e) since h next =
        let u = (connect server w).1 in
        let later = (connect-Goes ticks).later w in
        failed-Ended u (ltb (server.now u.log - start) max_wait) (omega (arith, since, later)) refl
          (λ slept less. next _ (omega (arith, later, slept)) (omega (arith, later, less))) e
    round-Ended w panic since h next = absurd ((connect-Goes ticks).ends w h)

  module _ (ticks : Ticks) (max_wait start : ℕ) where
    rounds-Ended :
        (n : ℕ) (w : W)
        → start ≤ server.now w.log
        → start + max_wait ≤ server.now w.log + n * five_seconds
        → Ended max_wait start (wait_rounds server (suc n) max_wait start w)
    unfolding wait_rounds
    rounds-Ended zero w since enough =
        round-Ended ticks max_wait start (wait_rounds server 0 max_wait start) w
          (connect server w).0 since refl (λ u slept less. absurd (omega (arith, enough, less)))
    rounds-Ended (suc n) w since enough =
        round-Ended ticks max_wait start (wait_rounds server (suc n) max_wait start) w
          (connect server w).0 since refl
          (λ u slept less.
            rounds-Ended n u (omega (arith, since, slept)) (omega (arith, enough, slept)))

  -- If the clock never runs backwards and a sleep lasts as long as it says, the loop of WaitForSSH
  -- ends within one round more than max_wait has pauses of five seconds: it returns nil, after a
  -- Connect that succeeded and Disconnect, or ErrTimeout, when max_wait has passed since its start.
  pub wait_for_ssh-Ended :
      Ticks
      → (n max_wait : ℕ) (w : W) → max_wait ≤ n * five_seconds
      → Ended max_wait (server.now w.log) (wait_for_ssh server (suc n) max_wait w)
  unfolding wait_for_ssh
  wait_for_ssh-Ended ticks n max_wait w enough =
      rounds-Ended ticks max_wait (server.now w.log) n w (omega arith) (omega (arith, enough))
