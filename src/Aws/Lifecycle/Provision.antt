-- ===== src/Aws/Lifecycle/Provision.antt =====
-- Provision of virtualmachine/aws/vm.go.
use libretto.Base.{ℕ, ◌<◌, ◌≡◌, refl, ap, String, Option, none, some, List, [], ◌∷◌, arith}
use libretto.Go.Result.{ok, Reply, answer, failure}
use libretto.Go.Action.{World, ◌>>=◌, ◌>>◌, get, resume-ok}
use libretto.Aws.Types.{Vm}
use libretto.Aws.Api.{Ec2, Method, Call, Instance, RunInstancesInput, await_limiter, run_instances}
use libretto.Aws.Launch.{with_defaults, run_input}
use libretto.Aws.Wait.Ready.{wait_until_ready, wait_until_ready-Ends, max_retries}
use libretto.Aws.Wait.Ready.First.{IsRunning, ready_poll, wait_until_ready-ok_iff}
use libretto.Go.Poll.{Ends-log}
use libretto.Aws.Lifecycle.{
  launch, provision, label, set_tag, set_non_root_delete_on_destroy, get_instance_volume_ids,
  get_non_root_device_names,
}

module _ (svc : Ec2) (w : World Vm Call) where
  -- The struct with its defaults, the request for it, and the world once an instance has an id.
  abbrev pub named : Vm
  named = with_defaults svc (await_limiter ∷ w.log) w.vm

  abbrev pub launch_request : RunInstancesInput
  launch_request = run_input named

  abbrev pub launched : String → World Vm Call
  launched id = record {
    vm = record named { instance_id = id };
    log = run_instances launch_request ∷ await_limiter ∷ w.log;
  }

  -- The instance that Provision starts: the first one of the answer, with an id.
  abbrev pub Starts : String → Type 0
  Starts id =
      (i : Instance) × (rest : List (Option Instance)) × (svc.run (await_limiter ∷ w.log)
          launch_request
        ≡ answer (some i ∷ rest))
      × (i.instance_id ≡ some id)

  launch_by_reply :
      (reply : Reply (List (Option Instance)))
      → svc.run (await_limiter ∷ w.log) launch_request ≡ reply
      → {id : String} → (launch svc w).0 ≡ ok id
      → Starts id × ((launch svc w).1 ≡ launched id)
  unfolding launch
  launch_by_reply (failure e) r h = absurd (ground arith)
  launch_by_reply (answer []) r h = absurd (ground arith)
  launch_by_reply (answer (none ∷ rest)) r h = absurd (ground arith)
  launch_by_reply (answer (some i ∷ rest)) r h = ((i, rest, r, ground arith), ground arith)

  pub launch-ok :
      {id : String} → (launch svc w).0 ≡ ok id → Starts id × ((launch svc w).1 ≡ launched id)
  launch-ok h = launch_by_reply (svc.run (await_limiter ∷ w.log) launch_request) refl h

label-vm : (svc : Ec2) (vm : Vm) (w : World Vm Call) → (label svc vm w).1.vm ≡ w.vm
unfolding label set_tag set_non_root_delete_on_destroy get_instance_volume_ids
    get_non_root_device_names
label-vm svc vm w = ground arith

pub wait_until_ready-vm :
    (svc : Ec2) (id : String) (w : World Vm Call) → (wait_until_ready svc id w).1.vm ≡ w.vm
wait_until_ready-vm svc id w =
    let (k, le, t) = Ends-log _ _ _ _ w (wait_until_ready-Ends svc id w) (λ l u. refl) in
    ap (λ (u : World Vm Call). u.vm) t

-- The rest of Provision, once the instance has an id.
abbrev pub finish : Ec2 → String → Method (Unit {0})
finish svc id = do wait_until_ready svc id; vm ← get; label svc vm

finish-ok :
    (svc : Ec2) (id : String) (u : World Vm Call)
    → (finish svc id u).0 ≡ ok tt
    → ((wait_until_ready svc id u).0 ≡ ok tt) × ((finish svc id u).1.vm ≡ u.vm)
finish-ok svc id u h =
    let t = (wait_until_ready svc id u).1 in
    ground (arith, wait_until_ready-vm svc id u, label-vm svc t.vm t)

module _ (svc : Ec2) (w : World Vm Call) where
  -- Where Provision returns nil, the EC2 service has answered its request with an instance that has
  -- an id, one of the ten polls after it has found that instance running, and the struct is the old
  -- one with its name, image and type filled in and that id.
  pub provision-ok :
      (provision svc w).0 ≡ ok tt
      → (id : String) × Starts svc w id
        × ((provision svc w).1.vm ≡ (launched svc w id).vm)
        × ((k : ℕ) × (k < max_retries) × IsRunning (ready_poll svc id (launched svc w id) k))
  unfolding provision
  provision-ok h =
      let (id, e, after) = resume-ok (launch svc w).0 (finish svc) (launch svc w).1 h in
      let (starts, t) = launch-ok svc w e in
      let (waits, kept) = finish-ok svc id (launched svc w id) (rw t at after) in
      let (k, lt, run, before) = (wait_until_ready-ok_iff svc id (launched svc w id)).0 waits in
      (id, starts, rw (e, t) kept, (k, lt, run))
