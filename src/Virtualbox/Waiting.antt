-- ===== src/Virtualbox/Waiting.antt =====
-- waitUntilReady of virtualmachine/virtualbox/util.go: what it does before it starts the goroutine,
-- the goroutine that polls the addresses, the function that waits for it, and their channels success
-- and quit of one slot each.
pub mod Ends
use libretto.Base.{
  ℕ, suc, String, Bool, true, false, Option, none, some, List, [], ◌∷◌, ◌≡◌, if◌then◌else◌,
}
use libretto.Ssh.{Ip}
use libretto.Machine.{err_vm_no_ip, err_vm_boot_timeout}
use libretto.Go.Result.{Result, ok, err}
use libretto.Go.Error.{Error}
use libretto.Go.Action.{World, ◌>>=◌, ◌>>◌, get, put, pure}
use libretto.Go.Reach.{Reach}
use libretto.Go.Strings.{lines}
use libretto.Virtualbox.Types.{Host, Vm, Method}
use libretto.Virtualbox.Addresses.{Timestamps, read_ips, changed}
use libretto.Virtualbox.Machines.{run, start}

module _ (host : Host) where
  -- The error of Run is dropped.
  unfoldable pub request_ips : Method (List Ip)
  unfolding run
  request_ips = do
    vm ← get
    out ← run host ("guestproperty" ∷ "enumerate" ∷ vm.name ∷ [])
    let found = read_ips host.parse_ip (lines out.stdout) vm.ip_update
    put (record vm { ips = found.0; ip_update = found.1 })
    pure found.0

  -- The copy of the timestamps, and the start of the machine.
  unfoldable pub prepare : Method Timestamps
  unfolding request_ips
  prepare = do ips ← request_ips; vm ← get; start host; pure vm.ip_update

pub data Worker : Type 0 where
  looking : Worker
  sleeping : Worker
  sending : Bool → Worker
  finished : Worker

-- The function is in its loop, in wg.Wait with its result, or has returned.
pub data Waiter : Type 0 where
  waiting : Waiter
  joining : Result (Unit {0}) → Waiter
  returned : Result (Unit {0}) → Waiter

pub record State : Type 0 where
  pub worker : Worker
  -- the polls so far
  pub round : ℕ
  pub ips : List Ip
  pub ip_update : Timestamps
  pub success : Option Bool
  pub quit : Option Bool
  pub waiter : Waiter

-- The goroutine after a poll.
abbrev pub polled_to : Timestamps → List Ip → Timestamps → Worker
polled_to old [] now = sleeping
polled_to old (ip ∷ ips) now = if changed old now then sending true else looking

abbrev pub result_of : Bool → Result (Unit {0})
result_of true = ok tt
result_of false = err err_vm_no_ip

abbrev pub polled : (String → Ip) → Timestamps → String → State → State
polled parse old stdout s =
    let found = read_ips parse (lines stdout) s.ip_update in
    record s {
      worker = polled_to old found.0 found.1;
      round = suc s.round;
      ips = found.0;
      ip_update = found.1;
    }

-- `old` are the copied timestamps, and `outputs k` is the output of the k-th poll of the goroutine.
-- The goroutine polls only while quit is empty; the timer may fire at any time.
pub data Step (parse : String → Ip) (old : Timestamps) (outputs : ℕ → String) (s : State)
    : State → Type 0 where
  poll :
      s.worker ≡ looking
      → s.quit ≡ none
      → Step parse old outputs s (polled parse old (outputs s.round) s)
  stop :
      (b : Bool)
      → s.worker ≡ looking
      → s.quit ≡ some b
      → Step parse old outputs s (record s { worker = sending false; quit = none })
  wake : s.worker ≡ sleeping → Step parse old outputs s (record s { worker = looking })
  send :
      (b : Bool)
      → s.worker ≡ sending b
      → s.success ≡ none
      → Step parse old outputs s (record s { worker = finished; success = some b })
  take :
      (b : Bool)
      → s.waiter ≡ waiting
      → s.success ≡ some b
      → Step parse old outputs s (record s { success = none; waiter = joining (result_of b) })
  time_out :
      s.waiter ≡ waiting
      → s.quit ≡ none
      → Step parse old outputs s
          (record s { quit = some true; waiter = joining (err err_vm_boot_timeout) })
  join :
      (r : Result (Unit {0}))
      → s.waiter ≡ joining r
      → s.worker ≡ finished
      → Step parse old outputs s (record s { waiter = returned r })

-- The state in which the goroutine starts, with the addresses and timestamps of the VM.
abbrev pub started : List Ip → Timestamps → State
started ips old = record {
  worker = looking;
  round = 0;
  ips = ips;
  ip_update = old;
  success = none;
  quit = none;
  waiter = waiting;
}

abbrev pub Reached : (String → Ip) → List Ip → Timestamps → (ℕ → String) → State → Type 0
Reached parse ips old outputs = Reach (Step parse old outputs) (started ips old)

-- What waitUntilReady returns for a VM: the error of Start, or the result of its wait, which begins with
-- the addresses that the VM has then.
pub data Returns (host : Host) (outputs : ℕ → String) (w : World Vm (List String))
    (r : Result (Unit {0})) : Type 0 where
  not_started : (e : Error) → (prepare host w).0 ≡ err e → r ≡ err e → Returns host outputs w r
  waited :
      (old : Timestamps) (s : State)
      → (prepare host w).0 ≡ ok old
      → Reached host.parse_ip (prepare host w).1.vm.ips old outputs s
      → s.waiter ≡ returned r
      → Returns host outputs w r
