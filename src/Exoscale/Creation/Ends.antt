-- ===== src/Exoscale/Creation/Ends.antt =====
-- How WaitVMCreation of virtualmachine/exoscale/util.go ends.
use libretto.Base.{ℕ, String, Option, none, some, ◌≡◌, refl, subst, ap, true, equal}
use libretto.Go.Error.{Error}
use libretto.Go.Result.{Result, ok, err, panic, Reply, answer, failure}
use libretto.Go.Reach.{Reach, begin, later, Reach-invariant}
use libretto.Exoscale.Api.{Cloud, JobResult}
use libretto.Exoscale.Creation.{
  Next, decode, check, Worker, asking, reporting, decoding, checking, handing, pausing, finished,
  Waiter, waiting, returned, State, decoded_to, answered_to, proceed, taken, timeout_error, Step,
  ask, report, decode_job, job_done, job_pending, hand, wake, take_job, take_error, time_out,
  Reached,
}

module _ (svc : Cloud) (answers : ℕ → String × Option Error) where
  -- A result that some answer decodes to.
  abbrev pub Came : JobResult → Type 0
  Came job = (k : ℕ) × ((svc.decode_job (answers k).0).0 ≡ job)

  abbrev Raw : String → Type 0
  Raw raw = (k : ℕ) × ((answers k).0 ≡ raw)

  abbrev pub IsDone : JobResult → Type 0
  IsDone job = Came job × (equal job.status 1 ≡ true)

  abbrev NextOk : Next → Type 0
  NextOk (decode raw) = Raw raw
  NextOk (check job) = Came job

  abbrev WorkerOk : Worker → Type 0
  WorkerOk asking = Unit
  WorkerOk (reporting e next) = NextOk next
  WorkerOk (decoding raw) = Raw raw
  WorkerOk (checking job) = Came job
  WorkerOk (handing job) = IsDone job
  WorkerOk pausing = Unit
  WorkerOk finished = Unit

  abbrev SlotOk : Option JobResult → Type 0
  SlotOk none = Unit
  SlotOk (some job) = IsDone job

  -- The function has not returned nil, or it has, with the id that a finished job's result has.
  abbrev pub WaiterOk : Waiter → String → Type 0
  WaiterOk waiting id = Unit
  WaiterOk (returned (ok a)) id =
      (job : JobResult) × IsDone job × (svc.decode_deployed job.result ≡ answer id)
  WaiterOk (returned (err e)) id = Unit
  WaiterOk (returned panic) id = Unit

  record Inv (s : State) : Type 0 where
    pub worker : WorkerOk s.worker
    pub slot : SlotOk s.job_ch
    pub result : WaiterOk s.waiter s.id

  answered-Ok : (reply : String × Option Error) → Raw reply.0 → WorkerOk (answered_to reply)
  answered-Ok (raw, none) h = h
  answered-Ok (raw, some e) h = h

  decoded-Ok : (reply : JobResult × Option Error) → Came reply.0 → WorkerOk (decoded_to reply)
  decoded-Ok (job, none) h = h
  decoded-Ok (job, some e) h = h

  next-Ok : (next : Next) → NextOk next → WorkerOk (proceed next)
  next-Ok (decode raw) h = h
  next-Ok (check job) h = h

  taken-Ok :
      (job : JobResult) (reply : Reply String) (s : State)
      → svc.decode_deployed job.result ≡ reply
      → IsDone job
      → WaiterOk (taken reply s).waiter (taken reply s).id
  taken-Ok job (answer id) s e h = (job, h, e)
  taken-Ok job (failure x) s e h = tt

  Step-Inv : (seconds : ℕ) (s t : State) → Step svc answers seconds s t → Inv s → Inv t
  Step-Inv seconds s t (ask at) inv = record {
    worker = answered-Ok (answers s.round) (s.round, refl);
    slot = inv.slot;
    result = inv.result;
  }
  Step-Inv seconds s t (report e next at free) inv = record {
    worker = next-Ok next (subst WorkerOk at inv.worker);
    slot = inv.slot;
    result = inv.result;
  }
  Step-Inv seconds s t (decode_job raw at) inv =
      let (k, e) = subst WorkerOk at inv.worker in
      record {
        worker = decoded-Ok (svc.decode_job raw) (k, ap (λ r. (svc.decode_job r).0) e);
        slot = inv.slot;
        result = inv.result;
      }
  Step-Inv seconds s t (job_done job at done) inv = record {
    worker = (subst WorkerOk at inv.worker, done);
    slot = inv.slot;
    result = inv.result;
  }
  Step-Inv seconds s t (job_pending job at other) inv = record {
    worker = tt;
    slot = inv.slot;
    result = inv.result;
  }
  Step-Inv seconds s t (hand job at free) inv = record {
    worker = tt;
    slot = subst WorkerOk at inv.worker;
    result = inv.result;
  }
  Step-Inv seconds s t (wake at) inv = record { worker = tt; slot = inv.slot; result = inv.result }
  Step-Inv seconds s t (take_job job at full) inv = record {
    worker = inv.worker;
    slot = tt;
    result = taken-Ok job (svc.decode_deployed job.result) s refl (subst SlotOk full inv.slot);
  }
  Step-Inv seconds s t (take_error e at full) inv = record {
    worker = inv.worker;
    slot = inv.slot;
    result = tt;
  }
  Step-Inv seconds s t (time_out at) inv = record {
    worker = inv.worker;
    slot = inv.slot;
    result = tt;
  }

  -- However the goroutine, the function and the timer take turns, a state in which WaitVMCreation has
  -- returned nil has the VM's id from the result of a job that an answer reported with status 1.
  pub wait_vm_creation-ok :
      (seconds : ℕ) (id : String) (s : State)
      → Reached svc answers seconds id s
      → s.waiter ≡ returned (ok tt)
      → (job : JobResult) × IsDone job × (svc.decode_deployed job.result ≡ answer s.id)
  wait_vm_creation-ok seconds id s r e =
      let inv =
        Reach-invariant (Step svc answers seconds) Inv
          (record { worker = tt; slot = tt; result = tt }) (Step-Inv seconds) s r in
      subst (λ w. WaiterOk w s.id) e inv.result

  stuck :
      (seconds : ℕ) (u v : State) {o : Result (Unit {0})} {e x : Error} {next : Next}
      → u.waiter ≡ returned o
      → u.worker ≡ reporting e next
      → u.err_ch ≡ some x
      → ¬ Step svc answers seconds u v
  stuck seconds u v w p f (ask at) = absurd (cc)
  stuck seconds u v w p f (report e' n at free) = absurd (cc)
  stuck seconds u v w p f (decode_job raw at) = absurd (cc)
  stuck seconds u v w p f (job_done job at done) = absurd (cc)
  stuck seconds u v w p f (job_pending job at other) = absurd (cc)
  stuck seconds u v w p f (hand job at free) = absurd (cc)
  stuck seconds u v w p f (wake at) = absurd (cc)
  stuck seconds u v w p f (take_job job at full) = absurd (cc)
  stuck seconds u v w p f (take_error e' at full) = absurd (cc)
  stuck seconds u v w p f (time_out at) = absurd (cc)

  -- The function has returned its time-out with one error unread, and the goroutine sends another.
  abbrev pub blocked_at : ℕ → String → Error → Error → JobResult → State
  blocked_at seconds id e x job = record {
    worker = reporting x (check job);
    round = 1;
    job_ch = none;
    err_ch = some e;
    waiter = returned (err (timeout_error svc seconds));
    id = id;
  }

  stays_blocked :
      (seconds : ℕ) (id : String) (e x : Error) (job : JobResult) (t : State)
      → Reach (Step svc answers seconds) (blocked_at seconds id e x job) t
      → t ≡ blocked_at seconds id e x job
  stays_blocked seconds id e x job t r =
      let s = blocked_at seconds id e x job in
      Reach-invariant (Step svc answers seconds) (λ u. u ≡ s) refl
        (λ u v step same. absurd (
          stuck seconds u v (ap (λ q. q.waiter) same) (ap (λ q. q.worker) same)
            (ap (λ q. q.err_ch) same) step))
        t r

  -- Where the first answer is an error, and what it holds does not decode, WaitVMCreation can return with
  -- its goroutine blocked for good: a state is reached in which the function has returned the time-out
  -- and the goroutine waits to send its second error, and no step leads out of this state.
  pub leaves_blocked :
      (seconds : ℕ) (id raw : String) (e x : Error) (job : JobResult) (t : State)
      → answers 0 ≡ (raw, some e)
      → svc.decode_job raw ≡ (job, some x)
      → Reach (Step svc answers seconds) (blocked_at seconds id e x job) t
      → Reached svc answers seconds id (blocked_at seconds id e x job)
        × (t ≡ blocked_at seconds id e x job)
  leaves_blocked seconds id raw e x job t fails garbled r = (
    subst
        (λ q.
          Reached svc answers seconds id
            (record (blocked_at seconds id e x job) { worker = decoded_to q }))
        garbled
        (later
          (later
            (later (later begin (ask refl)) (report e (decode raw) (ap answered_to fails) refl))
            (decode_job raw refl))
          (time_out refl)),
    stays_blocked seconds id e x job t r,
  )
