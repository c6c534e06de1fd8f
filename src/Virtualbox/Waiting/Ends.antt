-- ===== src/Virtualbox/Waiting/Ends.antt =====
-- How waitUntilReady of virtualmachine/virtualbox/util.go ends.
use libretto.Base.{
  ℕ, String, Bool, Option, none, some, List, [], ◌∷◌, ◌≡◌, ◌≢◌, refl, sym, subst, ap, true, false,
  ◌<◌, ◌≤◌, ◌+◌, ◌⊎◌, inl, inr, arith,
}
use libretto.Ssh.{Ip}
use libretto.Machine.{err_vm_boot_timeout}
use libretto.Go.Result.{Result, ok, err}
use libretto.Go.Error.{Error}
use libretto.Go.Action.{World}
use libretto.Go.Reach.{Steps, none_yet, and_then, Reach-Steps, Reach-invariant}
use libretto.Virtualbox.Types.{Host, Vm}
use libretto.Go.Strings.{lines}
use libretto.Virtualbox.Addresses.{Timestamps, read_ips, changed}
use libretto.Virtualbox.Waiting.{
  Worker, looking, sleeping, sending, finished, Waiter, waiting, joining, returned, State,
  polled_to, result_of, Step, poll, stop, wake, send, take, time_out, join, Reached, prepare,
  Returns, not_started, waited,
}

module _ (parse : String → Ip) (old : Timestamps) (outputs : ℕ → String) where
  -- The addresses and timestamps that let waitUntilReady return nil.
  abbrev pub Fresh : List Ip → Timestamps → Type 0
  Fresh ips now = (ips ≢ []) × (changed old now ≡ true)

  -- The two results that waitUntilReady has.
  abbrev pub Ended : Result (Unit {0}) → Type 0 → Type 0
  Ended r R = ((r ≡ ok tt) × R) ⊎ (r ≡ err err_vm_boot_timeout)

  -- While the function waits: where the goroutine stands, and what success holds.
  abbrev Waits : Worker → Option Bool → Type 0 → Type 0
  Waits looking success R = success ≡ none
  Waits sleeping success R = success ≡ none
  Waits (sending b) success R = (success ≡ none) × (b ≡ true) × R
  Waits finished success R = (success ≡ some true) × R

  -- While it is in wg.Wait with a result.
  abbrev Joins : Result (Unit {0}) → Worker → Option Bool → Option Bool → Type 0 → Type 0
  Joins r looking success quit R =
      (r ≡ err err_vm_boot_timeout) × (success ≡ none) × (quit ≡ some true)
  Joins r sleeping success quit R =
      (r ≡ err err_vm_boot_timeout) × (success ≡ none) × (quit ≡ some true)
  Joins r (sending b) success quit R = (r ≡ err err_vm_boot_timeout) × (success ≡ none)
  Joins r finished success quit R = Ended r R

  abbrev Fits : Waiter → Worker → Option Bool → Option Bool → Type 0 → Type 0
  Fits waiting worker success quit R = (quit ≡ none) × Waits worker success R
  Fits (joining r) worker success quit R = Joins r worker success quit R
  Fits (returned r) worker success quit R = (worker ≡ finished) × Ended r R

  abbrev Inv : State → Type 0
  Inv s = Fits s.waiter s.worker s.success s.quit (Fresh s.ips s.ip_update)

  polled-Waits :
      (ips : List Ip) (now : Timestamps) (b : Bool) (success : Option Bool)
      → changed old now ≡ b
      → success ≡ none
      → Waits (polled_to old ips now) success (Fresh ips now)
  polled-Waits [] now b success e h = h
  polled-Waits (ip ∷ ips) now true success e h = rw e (h, refl, ((λ x. absurd (cc)), refl))
  polled-Waits (ip ∷ ips) now false success e h = rw e h

  poll-Fits :
      (R : Type 0) (waiter : Waiter) (success : Option Bool) (ips : List Ip) (now : Timestamps)
      → Fits waiter looking success none R
      → Fits waiter (polled_to old ips now) success none (Fresh ips now)
  poll-Fits R waiting success ips now (q, h) =
      (refl, polled-Waits ips now (changed old now) success refl h)
  poll-Fits R (joining r) success ips now h = absurd (cc)
  poll-Fits R (returned r) success ips now h = absurd (cc)

  stop-Fits :
      (R : Type 0) (waiter : Waiter) (success : Option Bool) (b : Bool)
      → Fits waiter looking success (some b) R
      → Fits waiter (sending false) success none R
  stop-Fits R waiting success b h = absurd (cc)
  stop-Fits R (joining r) success b h = (h.0, h.1)
  stop-Fits R (returned r) success b h = absurd (cc)

  wake-Fits :
      (R : Type 0) (waiter : Waiter) (success quit : Option Bool)
      → Fits waiter sleeping success quit R
      → Fits waiter looking success quit R
  wake-Fits R waiting success quit h = h
  wake-Fits R (joining r) success quit h = h
  wake-Fits R (returned r) success quit h = absurd (cc)

  send-Fits :
      (R : Type 0) (waiter : Waiter) (b : Bool) (quit : Option Bool)
      → Fits waiter (sending b) none quit R
      → Fits waiter finished (some b) quit R
  send-Fits R waiting b quit (q, (e, t, ready)) = (q, (ap some t, ready))
  send-Fits R (joining r) b quit h = inr h.0
  send-Fits R (returned r) b quit h = absurd (cc)

  take-Fits :
      (R : Type 0) (worker : Worker) (b : Bool) (quit : Option Bool)
      → Fits waiting worker (some b) quit R
      → Fits (joining (result_of b)) worker none quit R
  take-Fits R looking b quit h = absurd (cc)
  take-Fits R sleeping b quit h = absurd (cc)
  take-Fits R (sending c) b quit h = absurd (cc)
  take-Fits R finished true quit (q, (e, ready)) = inl (refl, ready)
  take-Fits R finished false quit h = absurd (cc)

  time_out-Fits :
      (R : Type 0) (worker : Worker) (success : Option Bool)
      → Fits waiting worker success none R
      → Fits (joining (err err_vm_boot_timeout)) worker success (some true) R
  time_out-Fits R looking success h = (refl, h.1, refl)
  time_out-Fits R sleeping success h = (refl, h.1, refl)
  time_out-Fits R (sending b) success h = (refl, h.1.0)
  time_out-Fits R finished success h = inr refl

  Step-Inv : (s t : State) → Step parse old outputs s t → Inv s → Inv t
  Step-Inv s t (poll at free) inv =
      let found = read_ips parse (lines (outputs s.round)) s.ip_update in
      subst (λ q. Fits s.waiter (polled_to old found.0 found.1) s.success q (Fresh found.0 found.1))
        (sym free)
        (poll-Fits (Fresh s.ips s.ip_update) s.waiter s.success found.0 found.1 (
          subst (λ q. Fits s.waiter looking s.success q (Fresh s.ips s.ip_update)) free
            (subst (λ w. Fits s.waiter w s.success s.quit (Fresh s.ips s.ip_update)) at inv)))
  Step-Inv s t (stop b at full) inv = stop-Fits (Fresh s.ips s.ip_update) s.waiter s.success b (
      subst (λ q. Fits s.waiter looking s.success q (Fresh s.ips s.ip_update)) full
        (subst (λ w. Fits s.waiter w s.success s.quit (Fresh s.ips s.ip_update)) at inv))
  Step-Inv s t (wake at) inv =
      wake-Fits (Fresh s.ips s.ip_update) s.waiter s.success s.quit
        (subst (λ w. Fits s.waiter w s.success s.quit (Fresh s.ips s.ip_update)) at inv)
  Step-Inv s t (send b at free) inv = send-Fits (Fresh s.ips s.ip_update) s.waiter b s.quit (
      subst (λ q. Fits s.waiter (sending b) q s.quit (Fresh s.ips s.ip_update)) free
        (subst (λ w. Fits s.waiter w s.success s.quit (Fresh s.ips s.ip_update)) at inv))
  Step-Inv s t (take b at full) inv = take-Fits (Fresh s.ips s.ip_update) s.worker b s.quit (
      subst (λ q. Fits waiting s.worker q s.quit (Fresh s.ips s.ip_update)) full
        (subst (λ w. Fits w s.worker s.success s.quit (Fresh s.ips s.ip_update)) at inv))
  Step-Inv s t (time_out at free) inv = time_out-Fits (Fresh s.ips s.ip_update) s.worker s.success (
      subst (λ q. Fits waiting s.worker s.success q (Fresh s.ips s.ip_update)) free
        (subst (λ w. Fits w s.worker s.success s.quit (Fresh s.ips s.ip_update)) at inv))
  Step-Inv s t (join r at done) inv = (
    done,
    subst (λ w. Fits (joining r) w s.success s.quit (Fresh s.ips s.ip_update)) done
        (subst (λ w. Fits w s.worker s.success s.quit (Fresh s.ips s.ip_update)) at inv),
  )

  Reached-Inv : (ips : List Ip) (s : State) → Reached parse ips old outputs s → Inv s
  Reached-Inv ips s r = Reach-invariant (Step parse old outputs) Inv (refl, refl) Step-Inv s r

  -- However the goroutine, the function and the timer take turns.
  pub returned-Ended :
      (ips : List Ip) (s : State) (r : Result (Unit {0}))
      → Reached parse ips old outputs s
      → s.waiter ≡ returned r
      → Ended r (Fresh s.ips s.ip_update)
  returned-Ended ips s r reached e =
      (subst (λ w. Fits w s.worker s.success s.quit (Fresh s.ips s.ip_update)) e
        (Reached-Inv ips s reached)).1

  -- How many more steps there can be once the function is in wg.Wait.
  abbrev pub steps_left : Waiter → Worker → ℕ
  steps_left waiting worker = 5
  steps_left (joining r) sleeping = 4
  steps_left (joining r) looking = 3
  steps_left (joining r) (sending b) = 2
  steps_left (joining r) finished = 1
  steps_left (returned r) worker = 0

  abbrev pub rank : State → ℕ
  rank s = steps_left s.waiter s.worker

  abbrev pub StepOut : State → Type 0
  StepOut s = (t : State) × Step parse old outputs s t

  step_of_quit : (s : State) (quit : Option Bool) → s.worker ≡ looking → s.quit ≡ quit → StepOut s
  step_of_quit s none at q = (_, poll at q)
  step_of_quit s (some b) at q = (_, stop b at q)

  step_of_worker :
      (s : State) (r : Result (Unit {0})) (worker : Worker)
      → s.waiter ≡ joining r
      → s.worker ≡ worker
      → Joins r worker s.success s.quit (Fresh s.ips s.ip_update)
      → StepOut s
  step_of_worker s r looking w at h = step_of_quit s s.quit at refl
  step_of_worker s r sleeping w at h = (_, wake at)
  step_of_worker s r (sending b) w at h = (_, send b at h.1)
  step_of_worker s r finished w at h = (_, join r w at)

  joins-StepOut :
      (ips : List Ip) (s : State) (r : Result (Unit {0}))
      → Reached parse ips old outputs s
      → s.waiter ≡ joining r
      → StepOut s
  joins-StepOut ips s r reached w = step_of_worker s r s.worker w refl (
      subst (λ w. Fits w s.worker s.success s.quit (Fresh s.ips s.ip_update)) w
        (Reached-Inv ips s reached))

  step_of_waiter :
      (ips : List Ip) (s : State) (waiter : Waiter)
      → Reached parse ips old outputs s
      → ((r : Result (Unit {0})) → s.waiter ≢ returned r)
      → s.waiter ≡ waiter
      → StepOut s
  step_of_waiter ips s waiting reached here w =
      let inv =
        subst (λ w. Fits w s.worker s.success s.quit (Fresh s.ips s.ip_update)) w
          (Reached-Inv ips s reached) in
      (_, time_out w inv.0)
  step_of_waiter ips s (joining r) reached here w = joins-StepOut ips s r reached w
  step_of_waiter ips s (returned r) reached here w = absurd (here r w)

  -- Neither the goroutine nor the function blocks for good: from each reachable state in which
  -- waitUntilReady has not returned there is a next step.
  pub no_deadlock :
      (ips : List Ip) (s : State)
      → Reached parse ips old outputs s
      → ((r : Result (Unit {0})) → s.waiter ≢ returned r)
      → StepOut s
  no_deadlock ips s reached here = step_of_waiter ips s s.waiter reached here refl

  falls :
      (ips : List Ip) (s t : State) (r : Result (Unit {0}))
      → Reached parse ips old outputs s
      → s.waiter ≡ joining r
      → Step parse old outputs s t
      → (rank t < rank s) × ((t.waiter ≡ joining r) ⊎ (t.waiter ≡ returned r))
  falls ips s t r reached w (poll at free) =
      let inv =
        subst (λ k. Fits (joining r) k s.success s.quit (Fresh s.ips s.ip_update)) at
          (subst (λ w. Fits w s.worker s.success s.quit (Fresh s.ips s.ip_update)) w
            (Reached-Inv ips s reached)) in
      let full = inv.2 in absurd (cc)
  falls ips s t r reached w (stop b at full) = (rw (w, at) (omega arith), inl w)
  falls ips s t r reached w (wake at) = (rw (w, at) (omega arith), inl w)
  falls ips s t r reached w (send b at free) = (rw (w, at) (omega arith), inl w)
  falls ips s t r reached w (take b at full) = absurd (cc)
  falls ips s t r reached w (time_out at free) = absurd (cc)
  falls ips s t r reached w (join q at done) = (rw (at, done) (omega arith), inr (cc))

  at_most_four : (r : Result (Unit {0})) (worker : Worker) → steps_left (joining r) worker ≤ 4
  at_most_four r looking = omega arith
  at_most_four r sleeping = omega arith
  at_most_four r (sending b) = omega arith
  at_most_four r finished = omega arith

  no_step :
      (s t : State) (r : Result (Unit {0}))
      → s.worker ≡ finished
      → s.waiter ≡ returned r
      → ¬ Step parse old outputs s t
  no_step s t r done w (poll at free) = absurd (cc)
  no_step s t r done w (stop b at full) = absurd (cc)
  no_step s t r done w (wake at) = absurd (cc)
  no_step s t r done w (send b at free) = absurd (cc)
  no_step s t r done w (take b at full) = absurd (cc)
  no_step s t r done w (time_out at free) = absurd (cc)
  no_step s t r done w (join q at fin) = absurd (cc)

  returned-stuck :
      (ips : List Ip) (s t : State) (r : Result (Unit {0}))
      → Reached parse ips old outputs s
      → s.waiter ≡ returned r
      → ¬ Step parse old outputs s t
  returned-stuck ips s t r reached w step =
      no_step s t r
        (subst (λ w. Fits w s.worker s.success s.quit (Fresh s.ips s.ip_update)) w
          (Reached-Inv ips s reached)).0
        w step

  rank_after :
      (ips : List Ip) (s t : State) (r : Result (Unit {0})) (n : ℕ)
      → Reached parse ips old outputs s
      → s.waiter ≡ joining r
      → Steps (Step parse old outputs) s n t
      → (n + rank t ≤ rank s) × ((t.waiter ≡ joining r) ⊎ (t.waiter ≡ returned r))
  rank_after ips s t r n reached w none_yet = (omega arith, inl w)
  rank_after ips s t r n reached w (and_then {n = m} {s = u} steps step) =
      let (less, at) = rank_after ips s u r m reached w steps in
      let there = Reach-Steps (Step parse old outputs) reached steps in
      elim at [
        | inl j ↦
            let (falls_by, kept) = falls ips u t r there j step in
            (omega (arith, less, falls_by), kept)
        | inr e ↦ absurd (returned-stuck ips u t r there e step)
      ]

  -- Once the function is in wg.Wait with a result, any steps are at most four, and as long as they have
  -- not come to a state in which waitUntilReady has returned this result, there is a next one: it
  -- returns this result after at most four more steps, whichever they are.
  pub joining_ends :
      (ips : List Ip) (s t : State) (r : Result (Unit {0})) (n : ℕ)
      → Reached parse ips old outputs s
      → s.waiter ≡ joining r
      → Steps (Step parse old outputs) s n t
      → (n ≤ 4) × ((t.waiter ≡ returned r) ⊎ ((t.waiter ≡ joining r) × StepOut t))
  joining_ends ips s t r n reached w steps =
      let (less, at) = rank_after ips s t r n reached w steps in
      let most : rank s ≤ 4 = rw w (at_most_four r s.worker) in
      (
        omega (arith, less, most),
        elim at [
          | inl j ↦
              inr (j, joins-StepOut ips t r (Reach-Steps (Step parse old outputs) reached steps) j)
          | inr e ↦ inl e
        ],
      )

-- However the goroutine, the function and the timer take turns, waitUntilReady returns the error of
-- Start, nil or ErrVMBootTimeout, and nothing else; when it returns nil, Start has returned nil, the last
-- poll saw an address, and a timestamp noted by then is new or has changed since before Start.
pub wait_until_ready-Ended :
    (host : Host) (outputs : ℕ → String) (w : World Vm (List String)) (r : Result (Unit {0}))
    → Returns host outputs w r
    → ((e : Error) × ((prepare host w).0 ≡ err e) × (r ≡ err e))
      ⊎ ((old : Timestamps) × (s : State) × ((prepare host w).0 ≡ ok old)
          × Reached host.parse_ip (prepare host w).1.vm.ips old outputs s
          × (s.waiter ≡ returned r)
          × Ended host.parse_ip old outputs r (Fresh host.parse_ip old outputs s.ips s.ip_update))
wait_until_ready-Ended host outputs w r (not_started e p q) = inl (e, p, q)
wait_until_ready-Ended host outputs w r (waited old s p reached at) = inr (
  old,
  s,
  p,
  reached,
  at,
  returned-Ended host.parse_ip old outputs (prepare host w).1.vm.ips s r reached at,
)
