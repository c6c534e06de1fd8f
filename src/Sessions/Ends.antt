-- ===== src/Sessions/Ends.antt =====
-- How GetSSH ends where it waits for the client to connect.
use libretto.Base.{
  ℕ, Option, none, some, List, [], ◌∷◌, ◌≡◌, refl, ap, ◌∙◌, ◌⊎◌, inl, inr, ◌+◌, ◌/◌, ◌≤◌, ◌-◌, ltb,
  zero, suc, true, false, subst, arith,
}
use libretto.Ssh.{Ip, Credentials, Options}
use libretto.Ssh.Client.{
  SshClient, Server, Call, sleep, Nothing, connect, connected, disconnect, wait_rounds,
  wait_for_ssh, err_timeout, five_seconds,
}
use libretto.Ssh.Client.Waits.{Ticks, Ended, wait_for_ssh-Ended}
use libretto.Go.Result.{Result, ok, err, panic, Reply, answer, failure, first}
use libretto.Go.Stays.{
  Stays, stays_rules, Stays-pure, Stays-bind, Stays-attempt, Stays-calls, Stays-if, Stays-note,
  Stays-fail,
}
use libretto.Go.Action.{World, Action, resume, pure, attempt, calls, note, resume-ok}
use libretto.Util.{get_vm_ips, get_vm_ips-ok}
use libretto.Sessions.{new_client, fresh, session_of, session_fuel, build_session, waited_session}

-- A client with the credentials, address, port and options of another.
pub record IsFor (given c : SshClient) : Type 0 where
  pub creds : c.creds ≡ given.creds
  pub ip : c.ip ≡ given.ip
  pub port : c.port ≡ given.port
  pub options : c.options ≡ given.options

module _ (server : Server) (given : SshClient) where
  closed-IsFor : (c : SshClient) → IsFor given c → IsFor given (record c { close = false })
  closed-IsFor c h = record { creds = h.creds; ip = h.ip; port = h.port; options = h.options }

  opened-IsFor :
      (c : SshClient) (n : ℕ)
      → IsFor given c
      → IsFor given (record c { crypto_client = some n; close = true })
  opened-IsFor c n h = record { creds = h.creds; ip = h.ip; port = h.port; options = h.options }

  disconnect-Stays : Stays (IsFor given) disconnect
  unfolding disconnect
  disconnect-Stays = search (stays_rules, closed-IsFor)

  connect-Stays : Stays (IsFor given) (connect server)
  unfolding connect
  connect-Stays = search (stays_rules, opened-IsFor) depth 30

  connected-Stays :
      (max_wait start : ℕ)
      (rest : World SshClient Call → Result (Option Nothing) × World SshClient Call)
      (r : Reply Nothing)
      → Stays (IsFor given) rest
      → Stays (IsFor given) (connected server max_wait start rest r)
  connected-Stays max_wait start rest (answer a) s = search (stays_rules, disconnect-Stays) depth 10
  connected-Stays max_wait start rest (failure e) s = Stays-bind calls _ Stays-calls λ log.
      Stays-if (ltb (server.now log - start) max_wait) _ _
        (Stays-bind (note (sleep five_seconds)) _ (Stays-note (sleep five_seconds)) (λ _. s))
        (Stays-fail err_timeout)

  wait_rounds-Stays :
      (n max_wait start : ℕ) → Stays (IsFor given) (wait_rounds server n max_wait start)
  unfolding wait_rounds
  wait_rounds-Stays zero max_wait start = Stays-pure none
  wait_rounds-Stays (suc n) max_wait start =
      Stays-bind (attempt (connect server)) _ (Stays-attempt (connect server) connect-Stays)
        (λ r. connected-Stays max_wait start _ r (wait_rounds-Stays n max_wait start))

  wait_for_ssh-Stays : (n max_wait : ℕ) → Stays (IsFor given) (wait_for_ssh server n max_wait)
  unfolding wait_for_ssh
  wait_for_ssh-Stays n max_wait =
      Stays-bind calls _ Stays-calls (λ log. wait_rounds-Stays n max_wait (server.now log))

  fresh-IsFor : IsFor given (fresh given).vm
  fresh-IsFor = record { creds = refl; ip = refl; port = refl; options = refl }

  -- WaitForSSH of this client, not yet connected.
  abbrev pub wait_of : ℕ → Result (Option Nothing) × World SshClient Call
  wait_of max_wait = wait_for_ssh server (session_fuel max_wait) max_wait (fresh given)

  -- A client for the same machine, after a Connect that succeeded and Disconnect, or the wait has lasted
  -- as long as it may.
  abbrev pub Waited : ℕ → Result (Option SshClient) → Type 0
  Waited max_wait r =
      ((c : SshClient) × (u : World SshClient Call) × (r ≡ ok (some c))
        × IsFor given c
        × ((connect server u).0 ≡ ok tt)
        × (c ≡ (disconnect (connect server u).1).1.vm))
      ⊎ ((r ≡ err err_timeout) × (server.now [] + max_wait ≤ server.now (wait_of max_wait).1.log))

  session-Waited :
      (max_wait : ℕ) (o : Result (Option Nothing) × World SshClient Call)
      → o ≡ wait_of max_wait
      → IsFor given o.1.vm
      → Ended server max_wait (server.now []) o
      → Waited max_wait (session_of o)
  session-Waited max_wait (ok (some a), w) same kept (inl (e, (u, c, d))) =
      inl (w.vm, u, refl, kept, c, ap (λ x. x.vm) d)
  session-Waited max_wait (ok (some a), w) same kept (inr h) = absurd (cc)
  session-Waited max_wait (ok none, w) same kept (inl h) = absurd (cc)
  session-Waited max_wait (ok none, w) same kept (inr h) = absurd (cc)
  session-Waited max_wait (err e, w) same kept (inl h) = absurd (cc)
  session-Waited max_wait (err e, w) same kept (inr h) =
      let e' : e ≡ err_timeout = cc in
      inr (ap err e', subst (λ x. server.now [] + max_wait ≤ server.now x.1.log) same h.1)
  session-Waited max_wait (panic, w) same kept (inl h) = absurd (cc)
  session-Waited max_wait (panic, w) same kept (inr h) = absurd (cc)

module _ {V C : Type 0} (get_ips : Action (World V C) (List Ip)) (creds_of : V → Credentials) where
  -- The client that GetSSH builds: for the first address of the options, or else of GetIPs.
  abbrev pub Built : Options → World V C → SshClient → Type 0
  Built options w client =
      (ip : Ip) × (rest : List Ip) × ((options.ips ≡ ip ∷ rest)
        ⊎ ((options.ips ≡ []) × ((get_ips w).0 ≡ ok (ip ∷ rest))))
      × (client ≡ new_client (creds_of (get_vm_ips get_ips options w).1.vm) ip options)

  built :
      (options : Options) (w u : World V C) (client : SshClient) (ips : List Ip)
      → (options.ips ≡ ips) ⊎ ((options.ips ≡ []) × ((get_ips w).0 ≡ ok ips))
      → u ≡ (get_vm_ips get_ips options w).1
      → (resume (first ips) (λ ip. pure (new_client (creds_of u.vm) ip options)) u).0 ≡ ok client
      → Built options w client
  built options w u client [] from e h = absurd (cc)
  built options w u client (ip ∷ rest) from e h =
      let c : client ≡ new_client (creds_of u.vm) ip options = cc in
      (ip, rest, from, c ∙ ap (λ x. new_client (creds_of x.vm) ip options) e)

  build_session-Built :
      (options : Options) (w : World V C) (client : SshClient)
      → (build_session get_ips creds_of options w).0 ≡ ok client
      → Built options w client
  unfolding build_session
  build_session-Built options w client h =
      let (ips, e, h') =
        resume-ok (get_vm_ips get_ips options w).0 _ (get_vm_ips get_ips options w).1 h in
      built options w _ client ips (get_vm_ips-ok get_ips options w e).1 refl h'

  -- Where GetSSH has built a client, this is for the first address of the options or, where these have
  -- none, of GetIPs. If then the clock never runs backwards and a sleep lasts as long as it says, GetSSH
  -- returns a client with the credentials, address, port and options of the one that it has built, after
  -- a Connect that succeeded and Disconnect, or ErrTimeout, when the wait of the client that it has built
  -- has lasted max_wait.
  pub waited_session-Waited :
      (server : Server) (max_wait : ℕ) (options : Options) (w : World V C) (client : SshClient)
      → Ticks server
      → (build_session get_ips creds_of options w).0 ≡ ok client
      → Built options w client
        × Waited server client max_wait
            (waited_session get_ips creds_of server max_wait options w).0
  unfolding waited_session
  waited_session-Waited server max_wait options w client ticks h = (
    build_session-Built options w client h,
    rw h (
        session-Waited server client max_wait (wait_of server client max_wait) refl
          ((wait_for_ssh-Stays server client (session_fuel max_wait) max_wait).at (fresh client)
            (fresh-IsFor server client))
          (wait_for_ssh-Ended server ticks (max_wait / five_seconds + 1) max_wait (fresh client)
            (omega arith))),
  )
