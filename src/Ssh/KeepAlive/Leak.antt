-- ===== src/Ssh/KeepAlive/Leak.antt =====
-- How keepAlive of ssh/ssh.go misses Disconnect.
use libretto.Base.{false, ◌≡◌, ◌≢◌, subst}
use libretto.Go.Reach.{Reach, Reach-invariant}
use libretto.Ssh.KeepAlive.{
  Worker, looping, selecting, requesting, finished, gone, State, Step, enter, tick, request_done,
  quit, close_channel, forget_channel,
}

-- keepAlive does not hold the channel, and has not returned.
abbrev pub Adrift : Worker → Type 0
Adrift looping = Unit
Adrift (selecting channel) = channel ≡ false
Adrift requesting = Unit
Adrift finished = ⊥

record Lost (s : State) : Type 0 where
  pub caller : s.caller ≡ gone
  pub close : s.close ≡ false
  pub adrift : Adrift s.worker

Step-Lost : (s t : State) → Step s t → Lost s → Lost t
Step-Lost s t (enter at) h = record { caller = h.caller; close = h.close; adrift = h.close }
Step-Lost s t (tick channel at) h = record { caller = h.caller; close = h.close; adrift = tt }
Step-Lost s t (request_done at) h = record { caller = h.caller; close = h.close; adrift = tt }
Step-Lost s t (quit at shut) h = let held = subst Adrift at h.adrift in absurd (cc)
Step-Lost s t (close_channel at open_) h = let over = h.caller in absurd (cc)
Step-Lost s t (forget_channel at) h = let over = h.caller in absurd (cc)

unfinished : (w : Worker) → Adrift w → w ≢ finished
unfinished looping h e = absurd (cc)
unfinished (selecting channel) h e = absurd (cc)
unfinished requesting h e = absurd (cc)
unfinished finished h e = h

-- If Disconnect has returned while keepAlive was in SendRequest, or between that and its select, and no
-- Connect follows, then keepAlive never returns: it finds nil in place of the closed channel, and goes
-- on with each tick.
pub keep_alive_leaks :
    (s t : State)
    → s.caller ≡ gone
    → s.close ≡ false
    → Adrift s.worker
    → Reach Step s t
    → t.worker ≢ finished
keep_alive_leaks s t over forgot adrift r =
    let lost =
      Reach-invariant Step Lost (record { caller = over; close = forgot; adrift = adrift })
        Step-Lost t r in
    unfinished t.worker lost.adrift
