-- ===== src/Digitalocean/Tests.antt =====
-- Runs of the DigitalOcean model against a small service, and the theorems at inputs that meet their
-- hypotheses.
use libretto.Base.{◌≡◌, refl, String, Bool, false, Option, none, some, [], ap, sym, equal}
use libretto.Go.Result.{Result, ok, err, panic, answer}
use libretto.Go.Action.{World}
use libretto.Digitalocean.Types.{Vm, Droplet}
use libretto.Digitalocean.Http.{Api, Request, Response, exchange, build_request, check_status}
use libretto.Digitalocean.Droplets.{get_droplet, get_state, droplet_id, read_state, fill_droplet}
use libretto.Digitalocean.Agreement.{stored, get_state-get_droplet}

abbrev a_droplet : String → Droplet
a_droplet status = record {
  id = 42;
  name = "web";
  region = none;
  image = none;
  size = none;
  size_slug = "512mb";
  locked = false;
  status = status;
  networks = none;
  kernel = none;
  created_at = 0;
  backup_ids = [];
  snapshot_ids = [];
  action_ids = [];
}

-- A service whose only droplet runs.
abbrev small_api : Api
small_api = record {
  invalid = λ method url. none;
  send =
      λ log req. answer (record { status = "200 OK"; status_code = 200; body = answer "active" });
  marshal_config = λ c. answer "{}";
  decode_droplet = λ body. answer (record { droplet = some (a_droplet body) });
  decode_droplets = λ body. answer (record { droplets = []; meta = none });
  decimal = λ n. "42";
  parse_ip = λ s. none;
}

abbrev machine : Option Droplet → World Vm Request
machine droplet = record {
  vm = record {
    api_token = "token";
    credentials = record { ssh_user = ""; ssh_password = ""; ssh_private_key = "" };
    config = record {
      name = "web";
      region = "nyc3";
      size = "512mb";
      image = "ubuntu-14-04-x64";
      ssh_keys = [];
      backups = false;
      ipv6 = false;
      private_networking = false;
      user_data = "";
    };
    droplet = droplet;
  };
  log = [];
}

abbrev created : World Vm Request
created = machine (some (a_droplet "new"))

found : (get_state small_api created).0 ≡ ok "active"
unfolding get_state droplet_id read_state fill_droplet exchange build_request check_status
found = refl

abbrev missing : Result (Response × String) → Bool
missing (ok (rsp, body)) = equal rsp.status_code 404
missing (err e) = false
missing panic = false

get_state-get_droplet_example :
    get_state small_api created ≡ stored (get_droplet small_api "token" "42" created)
unfolding exchange build_request
get_state-get_droplet_example =
    get_state-get_droplet small_api created (a_droplet "new") refl refl
      (λ rsp body e. sym (ap missing e))
