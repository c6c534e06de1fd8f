-- ===== src/Exoscale/Creation.antt =====
-- WaitVMCreation of virtualmachine/exoscale/util.go: the goroutine that polls the job, the function
-- that waits for it, and their two channels of one slot each.
pub mod Ends
use libretto.Base.{ℕ, suc, String, Option, none, some, ◌≡◌, ◌<>◌, true, false, equal}
use libretto.Go.Error.{Error, new}
use libretto.Go.Result.{Result, ok, err, Reply, answer, failure}
use libretto.Go.Reach.{Reach}
use libretto.Exoscale.Api.{Cloud, JobResult}

-- Where the goroutine stands; an error is sent before the statement after it.
pub data Next : Type 0 where
  decode : String → Next
  check : JobResult → Next

pub data Worker : Type 0 where
  asking : Worker
  reporting : Error → Next → Worker
  decoding : String → Worker
  checking : JobResult → Worker
  handing : JobResult → Worker
  pausing : Worker
  finished : Worker

-- The function is in its `select`, or has returned.
pub data Waiter : Type 0 where
  waiting : Waiter
  returned : Result (Unit {0}) → Waiter

pub record State : Type 0 where
  pub worker : Worker
  -- the answers that the goroutine has had
  pub round : ℕ
  pub job_ch : Option JobResult
  pub err_ch : Option Error
  pub waiter : Waiter
  -- vm.ID
  pub id : String

abbrev pub proceed : Next → Worker
proceed (decode raw) = decoding raw
proceed (check job) = checking job

-- After json.Unmarshal into jobResult, with an error or not.
abbrev pub decoded_to : JobResult × Option Error → Worker
decoded_to (job, none) = checking job
decoded_to (job, some e) = reporting e (check job)

abbrev pub answered_to : String × Option Error → Worker
answered_to (raw, none) = decoding raw
answered_to (raw, some e) = reporting e (decode raw)

-- What the case of jobCh does with the result, on the id.
abbrev pub outcome_of : Reply String → Result (Unit {0})
outcome_of (answer id) = ok tt
outcome_of (failure e) = err e

abbrev pub id_after : Reply String → String → String
id_after (answer new_id) id = new_id
id_after (failure e) id = id

abbrev pub taken : Reply String → State → State
taken reply s = record s {
  job_ch = none;
  waiter = returned (outcome_of reply);
  id = id_after reply s.id;
}

pub timeout_error : Cloud → ℕ → Error
timeout_error svc seconds =
    new ("Create VM Job has not completed after " <> svc.decimal seconds <> " seconds")

-- `answers k` is what the k-th request of the goroutine returns. A send waits for a free slot, and the
-- `select` takes any case that is ready; the timer may fire at any time.
pub data Step (svc : Cloud) (answers : ℕ → String × Option Error) (seconds : ℕ) (s : State)
    : State → Type 0 where
  ask :
      s.worker ≡ asking
      → Step svc answers seconds s
          (record s { worker = answered_to (answers s.round); round = suc s.round })
  report :
      (e : Error) (next : Next)
      → s.worker ≡ reporting e next
      → s.err_ch ≡ none
      → Step svc answers seconds s (record s { worker = proceed next; err_ch = some e })
  decode_job :
      (raw : String)
      → s.worker ≡ decoding raw
      → Step svc answers seconds s (record s { worker = decoded_to (svc.decode_job raw) })
  job_done :
      (job : JobResult)
      → s.worker ≡ checking job
      → equal job.status 1 ≡ true
      → Step svc answers seconds s (record s { worker = handing job })
  job_pending :
      (job : JobResult)
      → s.worker ≡ checking job
      → equal job.status 1 ≡ false
      → Step svc answers seconds s (record s { worker = pausing })
  hand :
      (job : JobResult)
      → s.worker ≡ handing job
      → s.job_ch ≡ none
      → Step svc answers seconds s (record s { worker = finished; job_ch = some job })
  wake : s.worker ≡ pausing → Step svc answers seconds s (record s { worker = asking })
  take_job :
      (job : JobResult)
      → s.waiter ≡ waiting
      → s.job_ch ≡ some job
      → Step svc answers seconds s (taken (svc.decode_deployed job.result) s)
  take_error :
      (e : Error)
      → s.waiter ≡ waiting
      → s.err_ch ≡ some e
      → Step svc answers seconds s (record s { err_ch = none; waiter = returned (err e) })
  time_out :
      s.waiter ≡ waiting
      → Step svc answers seconds s
          (record s { waiter = returned (err (timeout_error svc seconds)) })

-- WaitVMCreation of a VM with a job, as it starts to wait.
abbrev pub started : String → State
started id = record {
  worker = asking;
  round = 0;
  job_ch = none;
  err_ch = none;
  waiter = waiting;
  id = id;
}

abbrev pub Reached : Cloud → (ℕ → String × Option Error) → ℕ → String → State → Type 0
Reached svc answers seconds id = Reach (Step svc answers seconds) (started id)
