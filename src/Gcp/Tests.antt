-- ===== src/Gcp/Tests.antt =====
-- Runs of the model of Google's cloud, and its theorem at an input.
use libretto.Base.{◌≡◌, refl, String, false, none, List, [], ◌∷◌}
use libretto.Go.Error.{new}
use libretto.Go.Result.{ok, answer, failure}
use libretto.Go.Action.{World, ◌>>=◌}
use libretto.Gcp.Types.{Vm, Endpoint}
use libretto.Gcp.Api.{Cloud, Call, Allowed}
use libretto.Gcp.Service.{wait_for_operation_ready, change_project, region}
use libretto.Gcp.Firewalls.{get_firewall, patch, remove_firewall_rules, rem_ports, rule_loop}
use libretto.Gcp.Firewalls.Removal.{remaining, remove_firewall_rules-remaining}
use libretto.Gcp.Listing.{conv_res_url_to_name}

abbrev rule : String → List String → Allowed
rule protocol ports = record { ip_protocol = protocol; ports = ports }

abbrev rules : List Allowed
rules = rule "tcp" ("22" ∷ "80" ∷ []) ∷ rule "icmp" [] ∷ rule "udp" ("53" ∷ []) ∷ []

abbrev asked_for : List Endpoint
asked_for =
    record { protocol = "tcp"; ports = "80" ∷ [] }
    ∷ record { protocol = "tcp"; ports = "8080" ∷ [] }
    ∷ []

-- RemoveEndpoints for two ports of tcp also removes the rule for icmp.
icmp_removed :
    rule_loop (rem_ports asked_for []) [] rules
    ≡ rule "tcp" ("22" ∷ []) ∷ rule "udp" ("53" ∷ []) ∷ []
unfolding rule_loop rem_ports
icmp_removed = refl

url_name :
    conv_res_url_to_name "https://www.googleapis.com/compute/v1/regions/us-east1" ≡ "us-east1"
unfolding conv_res_url_to_name
url_name = refl

zone_region : region "us-east1-b" ≡ ok "us-east1"
unfolding region
zone_region = refl

-- A cloud with these rules, whose operations are done at once.
abbrev small_cloud : Cloud
small_cloud = record {
  change_reply = λ log c. answer (record { name = "op-1"; status = "PENDING"; error = none });
  get_operation = λ log name. answer (record { name = "op-1"; status = "DONE"; error = none });
  get_instance = λ log. failure (new "not found");
  get_disk = λ log name. failure (new "not found");
  get_disk_type = λ log name. failure (new "not found");
  get_image = λ log name. failure (new "not found");
  get_zone = λ log. failure (new "not found");
  get_machine_type = λ log name. failure (new "not found");
  get_network = λ log. failure (new "not found");
  get_subnetwork = λ log name. failure (new "not found");
  get_firewall = λ log. answer rules;
  list_networks = λ log. answer [];
  list_subnetworks = λ log r. answer [];
  list_machine_types = λ log. answer [];
  list_disk_types = λ log. answer [];
  list_zones = λ log. answer [];
  list_regions = λ log. answer [];
  list_images = λ log project. answer [];
  decode_account = λ text file. (file, none);
  not_exist = λ path. false;
  read_file = λ path. answer "";
  new_service = λ account. none;
  parse_ip = λ s. none;
  show_ip = λ ip. "<nil>";
  show_account = λ account. "";
  show_list = λ texts. "";
  format = λ s. s;
}

abbrev machine : World Vm Call
machine = record {
  vm = record {
    name = "web";
    description = "";
    zone = "us-east1-b";
    machine_type = "n1-standard-1";
    preemptible = false;
    source_image = "ubuntu";
    image_projects = [];
    disks = [];
    network = "default";
    subnetwork = "";
    use_internal_ip = false;
    private_ip_address = "";
    scopes = [];
    project = "p";
    tags = [];
    account_file = "";
    account = record { private_key = ""; client_email = ""; client_id = "" };
    ssh_creds = record { ssh_user = ""; ssh_password = ""; ssh_private_key = "" };
    ssh_public_key = "";
    firewall = "default-allow";
    endpoints = asked_for;
    raw_disk_source = "";
  };
  log = [];
}

removes : (remove_firewall_rules small_cloud machine).0 ≡ ok tt
unfolding remove_firewall_rules get_firewall patch change_project wait_for_operation_ready
removes = refl

remove_firewall_rules-remaining_example :
    remove_firewall_rules small_cloud machine
    ≡ (get_firewall small_cloud >>= λ found. patch small_cloud (remaining asked_for found)) machine
remove_firewall_rules-remaining_example = remove_firewall_rules-remaining small_cloud machine
