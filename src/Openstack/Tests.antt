-- ===== src/Openstack/Tests.antt =====
-- Runs of the OpenStack model against a small cloud, and the theorems at inputs that meet their
-- hypotheses.
use libretto.Base.{pos, ◌≡◌, refl, String, true, Option, none, some, List, [], ◌∷◌, inr, arith}
use libretto.Go.Error.{new, errorf}
use libretto.Go.Result.{Reply, ok, answer, failure}
use libretto.Go.Action.{World}
use libretto.Go.Poll.{polled}
use libretto.Openstack.Types.{Vm}
use libretto.Openstack.Api.{Cloud, Call, delete_server}
use libretto.Openstack.Clients.{get_compute_client, get_block_storage_client}
use libretto.Openstack.Servers.{delete_vm, the_server, gone_test}
use libretto.Openstack.Servers.Deletion.{verdict, delete_vm-ok_iff}
use libretto.Openstack.Volumes.{
  wait_until_volume, volume_test, attach_new, cleanup, create_volume_of, create_and_attach_volume,
}
use libretto.Openstack.Volumes.Wait.{wait_until_volume-ok_iff}
use libretto.Openstack.Volumes.Cleanup.{Undone, after, create_and_attach_volume-Undone}
use libretto.Openstack.Destroy.{release_ip, release_volume, destroy}
use libretto.Openstack.Destroy.Errors.{destroy-ok_iff}

-- A server is active until the call to delete it.
abbrev status_after : List Call → Option String
status_after [] = some "ACTIVE"
status_after (delete_server id ∷ log) = none
status_after (c ∷ log) = status_after log

-- A cloud whose volumes are in this state and cannot be attached.
abbrev small_cloud : String → Cloud
small_cloud state = record {
  env_options = none;
  authenticated = λ log opts. true;
  has_compute = λ region. true;
  has_block_storage = λ region. true;
  server = λ log id. (status_after log, none);
  remove_server = λ log id. answer tt;
  stop = λ log id. answer tt;
  make_volume = λ log opts. answer (some "vol-1");
  volume = λ log id. (some state, none);
  remove_volume = λ log id. answer tt;
  attach = λ log server device id. failure (new "no slot");
  detach = λ log server id. answer tt;
  disassociate = λ log server ip. answer tt;
  remove_floating_ip = λ log id. answer tt;
}

abbrev a_vm : Vm
a_vm = record {
  identity_endpoint = "http://keystone";
  username = "admin";
  password = "secret";
  region = "one";
  tenant_name = "test";
  flavor_name = "small";
  image_id = "image-1";
  image_metadata = record {
    container_format = "bare";
    disk_format = "qcow2";
    min_disk = pos 10;
    min_ram = pos 1024;
    name = "image";
  };
  image_path = "";
  volume = record { id = ""; device = "/dev/vdb"; name = "test"; size = pos 10; volume_type = "" };
  instance_id = "server-1";
  name = "db";
  networks = [];
  floating_ip_pool = "public";
  floating_ip = some (record { id = "fip-1"; ip = "10.0.0.1" });
  security_group = "";
  user_data = [];
  admin_password = "";
  credentials = record { ssh_user = "ubuntu"; ssh_password = ""; ssh_private_key = "" };
  compute_client = true;
}

abbrev begun : World Vm Call
begun = record { vm = a_vm; log = [] }

wait_until_volume-ok_iff_example :
    (wait_until_volume (small_cloud "available") "vol-1" "available" begun).0 ≡ ok tt
unfolding polled
wait_until_volume-ok_iff_example =
    (wait_until_volume-ok_iff (small_cloud "available") "vol-1" "available" begun).1
      (0, omega arith, inr (refl, refl), λ j lt. elim lt [ ])

create_test : (create_volume_of (small_cloud "available") begun).0 ≡ ok "vol-1"
unfolding create_volume_of get_compute_client get_block_storage_client
create_test = refl

-- The attachment of the new volume fails, and the volume is deleted.
create_and_attach_volume-Undone_example :
    Undone "vol-1"
      (after (small_cloud "available") begun "vol-1" create_test).vm
      (create_and_attach_volume (small_cloud "available") begun).1
    × ((after (small_cloud "available") begun "vol-1" create_test).vm.volume ≡ begun.vm.volume)
unfolding create_and_attach_volume create_volume_of get_compute_client get_block_storage_client
    attach_new wait_until_volume cleanup volume_test errorf
create_and_attach_volume-Undone_example =
    create_and_attach_volume-Undone (small_cloud "available") begun "vol-1" create_test
      (new "failed to attach the volume to the VM: no slot") refl

delete_vm-ok_iff_example : (delete_vm (small_cloud "available") begun).0 ≡ ok tt
unfolding polled verdict
delete_vm-ok_iff_example =
    (delete_vm-ok_iff (small_cloud "available") begun refl refl).1
      (refl, (0, omega arith, refl, λ j lt. elim lt [ ]))

destroy-ok_iff_example : (destroy (small_cloud "available") begun).0 ≡ ok tt
unfolding release_ip release_volume delete_vm the_server get_compute_client gone_test
destroy-ok_iff_example =
    (destroy-ok_iff (small_cloud "available") begun refl refl).0.1 (refl, refl, refl)

abbrev gone : World Vm Call
gone = record { vm = a_vm; log = delete_server "server-1" ∷ [] }

abbrev one_image : List Call → String → Reply (Reply (List String))
one_image log name = answer (answer ("image-1" ∷ []))
