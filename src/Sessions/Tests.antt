-- ===== src/Sessions/Tests.antt =====
-- GetSSH against a small server, and its theorem at this input.
use libretto.Base.{ℕ, refl, String, false, none, some, List, [], ◌∷◌, ◌+◌, ◌≤◌, arith}
use libretto.Ssh.{Ip, Credentials, Options}
use libretto.Ssh.Client.{Server, Call, dial, keep_alive, sleep}
use libretto.Ssh.Client.Waits.{Ticks}
use libretto.Go.Error.{new}
use libretto.Go.Result.{answer}
use libretto.Go.Action.{World, Action, fail}
use libretto.Util.{get_vm_ips}
use libretto.Sessions.{new_client, build_session, waited_session}
use libretto.Sessions.Ends.{Built, Waited, waited_session-Waited}

-- The time that the sleeps in a list of calls take.
abbrev slept : List Call → ℕ
slept [] = 0
slept (dial addr user auth ∷ log) = slept log
slept (keep_alive ∷ log) = slept log
slept (sleep t ∷ log) = slept log + t

abbrev sshd : Server
sshd = record {
  connection = λ log addr user auth. answer 1;
  invalid_key = λ key. none;
  address = λ ip port. "10.0.0.1:22";
  now = slept;
}

slept_forward : (log : List Call) (c : Call) → slept log ≤ slept (c ∷ log)
slept_forward log (dial addr user auth) = omega arith
slept_forward log keep_alive = omega arith
slept_forward log (sleep t) = omega arith

ticking : Ticks sshd
ticking = record { forward = slept_forward; slept = λ log t. omega arith }

abbrev the_ip : Ip
the_ip = some (10 ∷ 0 ∷ 0 ∷ 1 ∷ [])

abbrev given : Options
given = record { ips = the_ip ∷ []; keep_alive = 0; pty = false }

-- The struct of a VM that has nothing but its credentials.
abbrev machine : World Credentials String
machine = record {
  vm = record { ssh_user = "root"; ssh_password = "secret"; ssh_private_key = "" };
  log = [];
}

abbrev no_ips : Action (World Credentials String) (List Ip)
no_ips = fail (new "no instance")

waited_session-Waited_example :
    Built no_ips (λ creds. creds) given machine (new_client machine.vm the_ip given)
    × Waited sshd
        (new_client machine.vm the_ip given)
        30000000000
        (waited_session no_ips (λ creds. creds) sshd 30000000000 given machine).0
unfolding build_session get_vm_ips
waited_session-Waited_example =
    waited_session-Waited no_ips (λ creds. creds) sshd 30000000000 given machine
      (new_client machine.vm the_ip given) ticking refl
