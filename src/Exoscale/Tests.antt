-- ===== src/Exoscale/Tests.antt =====
-- Runs of the Exoscale model against a small cloud, and the theorems at inputs that meet their
-- hypotheses.
use libretto.Base.{
  ℕ, ◌≡◌, refl, String, Option, none, some, List, [], ◌∷◌, All2, ◌==◌, if◌then◌else◌,
}
use libretto.Go.Error.{Error, new}
use libretto.Go.Result.{ok, answer}
use libretto.Go.Action.{World}
use libretto.Go.Reach.{begin, later}
use libretto.Exoscale.Types.{Vm, SecurityGroup}
use libretto.Exoscale.Api.{Cloud, Call, JobResult}
use libretto.Exoscale.Lookups.{fill_security_groups_id, fill_groups, new_id}
use libretto.Exoscale.Lookups.Groups.{Resolves, fill_security_groups_id-Resolves}
use libretto.Exoscale.Creation.{
  State, finished, returned, ask, decode_job, job_done, hand, take_job, Reached,
}
use libretto.Exoscale.Creation.Ends.{IsDone, wait_vm_creation-ok, blocked_at, leaves_blocked}

-- A cloud whose job is done, with results by the text of the answer.
abbrev small_cloud : Cloud
small_cloud = record {
  request = λ log c. ("groups", none);
  create = λ log p. answer "job-1";
  decode_templates = λ raw. answer [];
  decode_offerings = λ raw. answer (record { count = 0; entries = [] });
  decode_groups =
      λ raw. answer (record { id = "g-1"; name = "web" } ∷ record { id = "g-2"; name = "db" } ∷ []);
  decode_zones = λ raw. answer [];
  decode_machines = λ raw. answer (record { count = 0; entries = [] });
  decode_job_id = λ c raw. answer "job-2";
  decode_job = λ raw.
      if raw == "done"
      then (record { status = 1; result = "machine" }, none)
      else (record { status = 0; result = "" }, some (new "unexpected end of JSON input"));
  decode_deployed = λ raw. answer "vm-1";
  quoted = λ s. s;
  decimal = λ n. "0";
  to_lower = λ s. s;
  parse_ip = λ s. none;
}

abbrev a_vm : Vm
a_vm = record {
  config = record { endpoint = ""; api_key = ""; api_secret = "" };
  name = "db";
  template = record { id = "t"; name = ""; zone_name = ""; storage_gb = 10 };
  service_offering = record { id = "s"; name = "Micro" };
  security_groups = record { id = ""; name = "db" } ∷ record { id = "g-7"; name = "other" } ∷ [];
  keypair_name = "";
  userdata = "";
  zone = record { id = "z"; name = "" };
  id = "";
  job_id = "job-1";
  ssh_creds = record { ssh_user = ""; ssh_password = ""; ssh_private_key = "" };
  ips = [];
  state = "";
}

abbrev begun : World Vm Call
begun = record { vm = a_vm; log = [] }

fill_security_groups_id-Resolves_example :
    (remotes : List SecurityGroup) × (small_cloud.decode_groups "groups" ≡ answer remotes)
    × All2
        (Resolves remotes)
        a_vm.security_groups
        (fill_security_groups_id small_cloud begun).1.vm.security_groups
unfolding fill_security_groups_id fill_groups new_id
fill_security_groups_id-Resolves_example = fill_security_groups_id-Resolves small_cloud begun refl

-- The first answer is that the job is done.
abbrev at_once : ℕ → String × Option Error
at_once k = ("done", none)

abbrev the_job : JobResult
the_job = record { status = 1; result = "machine" }

abbrev created : State
created = record {
  worker = finished;
  round = 1;
  job_ch = none;
  err_ch = none;
  waiter = returned (ok tt);
  id = "vm-1";
}

creates : Reached small_cloud at_once 90 "" created
creates =
    later
      (later
        (later (later (later begin (ask refl)) (decode_job "done" refl))
          (job_done the_job refl refl))
        (hand the_job refl refl))
      (take_job the_job refl refl)

wait_vm_creation-ok_example :
    (job : JobResult) × IsDone small_cloud at_once job
    × (small_cloud.decode_deployed job.result ≡ answer "vm-1")
wait_vm_creation-ok_example = wait_vm_creation-ok small_cloud at_once 90 "" created creates refl

-- Every request fails, and the text of its answer does not decode; the wait has timed out.
abbrev refused : ℕ → String × Option Error
refused k = ("", some (new "connection refused"))

abbrev no_job : JobResult
no_job = record { status = 0; result = "" }

abbrev blocked : State
blocked =
    blocked_at small_cloud refused 90 "" (new "connection refused")
      (new "unexpected end of JSON input") no_job

leaves_blocked_example : Reached small_cloud refused 90 "" blocked × (blocked ≡ blocked)
leaves_blocked_example =
    leaves_blocked small_cloud refused 90 "" "" (new "connection refused")
      (new "unexpected end of JSON input") no_job blocked refl refl begin
