-- ===== src/Virtualbox/Tests.antt =====
-- Runs of the VirtualBox model against a small host, and the theorems at inputs that meet their
-- hypotheses.
use libretto.Base.{
  ℕ, ◌≡◌, refl, String, Bool, true, Option, none, some, List, [], ◌∷◌, ◌++◌, ◌==◌, ◌≤◌, ◌⊎◌, ◌<>◌,
  equal, if◌then◌else◌,
}
use libretto.Ssh.{Ip}
use libretto.Machine.{err_vm_boot_timeout, vm_running}
use libretto.Go.Result.{Result, ok, err}
use libretto.Go.Action.{World}
use libretto.Go.Error.{Error}
use libretto.Go.Reach.{begin, later, none_yet, and_then}
use libretto.Go.Strings.{lines, split, trim_prefix}
use libretto.Virtualbox.Types.{Vm, Nic, Host, nat, bridged, disabled, combined}
use libretto.Virtualbox.Readings.{read_state, read_nics, devices, scan_pairs, name_of_mac, matches}
use libretto.Virtualbox.Addresses.{Timestamps, read_ips, changed}
use libretto.Virtualbox.Machines.{start, get_interfaces}
use libretto.Virtualbox.Nics.{configure}
use libretto.Virtualbox.Nics.Commands.{Reported, logged, setting_up, turning_off, configure-ok}
use libretto.Virtualbox.Waiting.{
  Worker, finished, Waiter, waiting, joining, returned, State, poll, send, take, time_out, join,
  Reached, prepare, waited,
}
use libretto.Virtualbox.Waiting.Ends.{Ended, Fresh, StepOut, wait_until_ready-Ended, joining_ends}

abbrev info : String
info =
    "Name: test\nState:           running (since 2015-09-22)\n"
    <> "NIC 1:           MAC: 0800, Attachment: NAT, Cable connected: on\n"
    <> "NIC 2:           disabled"

abbrev nic : ℕ → Nic
nic n = record { idx = n; backing = nat; backing_device = "" }

state_read : read_state (lines info) ≡ some vm_running
unfolding read_state split
state_read = refl

nics_read :
    read_nics (lines info)
    ≡ ok (nic 1 ∷ record { idx = 2; backing = disabled; backing_device = "" } ∷ [])
unfolding read_nics split trim_prefix
nics_read = refl

abbrev bridged_ifs : String
bridged_ifs =
    "Name:            en0\nGUID:            30e1\nIPAddress:       10.0.0.5\n"
    <> "HardwareAddress: 14:10\nVBoxNetworkName: HostInterfaceNetworking-en0\n"
    <> "\nName:            p2p0\nIPAddress:       \nHardwareAddress: 06:10\nVBoxNetworkName: x"

pairs_read :
    scan_pairs "Name:" "HardwareAddress:" (devices bridged_ifs)
    ≡ ("en0", "14:10") ∷ ("p2p0", "06:10") ∷ []
unfolding matches scan_pairs split
pairs_read = refl

name_read : name_of_mac "06:10" (devices bridged_ifs) ≡ "p2p0"
unfolding matches name_of_mac split
name_read = refl

abbrev property : String → String
property stamp =
    "Name: /VirtualBox/GuestInfo/Net/0/V4/IP, value: 10.0.2.15, timestamp: " <> stamp <> ", flags: "

abbrev parse : String → Ip
parse s = if s == "10.0.2.15" then some (10 ∷ 0 ∷ 2 ∷ 15 ∷ []) else none

ips_read :
    read_ips parse (lines (property "77")) []
    ≡ (some (10 ∷ 0 ∷ 2 ∷ 15 ∷ []) ∷ [], ("10.0.2.15", "timestamp: 77") ∷ [])
unfolding read_ips split
ips_read = refl

-- A host on which every run succeeds, with this output.
abbrev small_host : String → Host
small_host stdout = record {
  run = λ log args. record { stdout = stdout; stderr = ""; error = none };
  variant4 = λ log. "1-2-3";
  abs = λ path. ok path;
  parse_ip = parse;
  decimal = λ n. if equal n 1 then "1" else "2";
}

abbrev machine : World Vm (List String)
machine = record {
  vm = record {
    src = "test.ova";
    ips = [];
    credentials = record { ssh_user = ""; ssh_password = ""; ssh_private_key = "" };
    name = "test";
    config = record {
      nics =
          nic 1
          ∷ record { idx = 2; backing = bridged; backing_device = "en0" }
          ∷ record { idx = 3; backing = disabled; backing_device = "" }
          ∷ [];
    };
    ip_update = [];
  };
  log = [];
}

configure-ok_example :
    (nics : List Nic) × Reported (small_host info) nics machine
    × ((configure (small_host info) machine).1
        ≡ logged
            (small_host info)
            (setting_up (small_host info) "test" machine.vm.config.nics
              ++ (turning_off (small_host info) "test" nics ++ (("showvminfo" ∷ "test" ∷ []) ∷ [])))
            machine)
unfolding configure split trim_prefix combined read_nics get_interfaces
configure-ok_example = configure-ok (small_host info) machine refl

abbrev the_ips : List Ip
the_ips = some (10 ∷ 0 ∷ 2 ∷ 15 ∷ []) ∷ []

abbrev outputs : ℕ → String
outputs k = property "77"

abbrev after_poll : Worker → Option Bool → Option Bool → Waiter → State
after_poll worker success quit waiter = record {
  worker = worker;
  round = 1;
  ips = the_ips;
  ip_update = ("10.0.2.15", "timestamp: 77") ∷ [];
  success = success;
  quit = quit;
  waiter = waiter;
}

sent : Reached parse [] [] outputs (after_poll finished (some true) none waiting)
unfolding read_ips changed split
sent = later (later begin (poll refl refl)) (send true refl refl)

abbrev ready : State
ready = after_poll finished none none (returned (ok tt))

succeeds : Reached parse [] [] outputs ready
succeeds = later (later sent (take true refl refl)) (join (ok tt) refl refl)

abbrev no_error : Result (Unit {0})
no_error = ok tt

prepared : (prepare (small_host "") machine).0 ≡ ok []
unfolding prepare read_ips split combined start
prepared = refl

wait_until_ready-Ended_example :
    ((e : Error) × ((prepare (small_host "") machine).0 ≡ err e) × (no_error ≡ err e))
    ⊎ ((old : Timestamps) × (s : State) × ((prepare (small_host "") machine).0 ≡ ok old)
        × Reached parse (prepare (small_host "") machine).1.vm.ips old outputs s
        × (s.waiter ≡ returned (no_error))
        × Ended parse old outputs (no_error) (Fresh parse old outputs s.ips s.ip_update))
unfolding prepare read_ips split combined start
wait_until_ready-Ended_example =
    wait_until_ready-Ended (small_host "") outputs machine (no_error)
      (waited [] ready prepared succeeds refl)

-- The timer fires after the goroutine has sent its result.
abbrev late : Waiter → State
late waiter = after_poll finished (some true) (some true) waiter

times_out : Reached parse [] [] outputs (late (joining (err err_vm_boot_timeout)))
times_out = later sent (time_out refl refl)

joining_ends_example :
    (1 ≤ 4)
    × ((returned (err err_vm_boot_timeout) ≡ returned (err err_vm_boot_timeout))
        ⊎ ((returned (err err_vm_boot_timeout) ≡ joining (err err_vm_boot_timeout))
            × StepOut parse [] outputs (late (returned (err err_vm_boot_timeout)))))
joining_ends_example =
    joining_ends parse [] outputs [] (late (joining (err err_vm_boot_timeout)))
      (late (returned (err err_vm_boot_timeout))) (err err_vm_boot_timeout) 1 times_out refl
      (and_then none_yet (join (err err_vm_boot_timeout) refl refl))
