-- ===== src/Ssh/KeepAlive.antt =====
-- ssh/ssh.go: the goroutine keepAlive beside Disconnect, after a Connect that has started it. A new
-- Connect of the same client is not modelled.
pub mod Leak
use libretto.Base.{Bool, true, false, ◌≡◌}
use libretto.Go.Reach.{Reach}

-- Where keepAlive stands: in front of its select, in it, in SendRequest, or returned. In its select it
-- holds what client.close was when it came there, the channel or nil.
pub data Worker : Type 0 where
  looping : Worker
  selecting : (channel : Bool) → Worker
  requesting : Worker
  finished : Worker

-- Where Disconnect stands: not called, behind close(client.close), or returned.
pub data Caller : Type 0 where
  connected : Caller
  closing : Caller
  gone : Caller

pub record State : Type 0 where
  pub worker : Worker
  pub caller : Caller
  -- whether client.close is the channel that Connect made, and not nil
  pub close : Bool
  -- whether that channel is closed
  pub closed : Bool

-- A closed channel can be read at once, an open one or nil not at all; a select with two cases that are
-- ready takes either. The ticker may fire at any time.
pub data Step (s : State) : State → Type 0 where
  enter : s.worker ≡ looping → Step s (record s { worker = selecting s.close })
  tick : (channel : Bool) → s.worker ≡ selecting channel → Step s (record s { worker = requesting })
  request_done : s.worker ≡ requesting → Step s (record s { worker = looping })
  quit : s.worker ≡ selecting true → s.closed ≡ true → Step s (record s { worker = finished })
  close_channel :
      s.caller ≡ connected → s.close ≡ true → Step s (record s { caller = closing; closed = true })
  forget_channel : s.caller ≡ closing → Step s (record s { caller = gone; close = false })

-- After Connect has started the goroutine.
abbrev pub started : State
started = record { worker = looping; caller = connected; close = true; closed = false }

abbrev pub Reached : State → Type 0
Reached = Reach Step started
