-- ===== src/Ssh/Tests.antt =====
-- Runs of the SSH client's model against a small server, and the theorems at inputs that meet their
-- hypotheses.
use libretto.Base.{
  ℕ, ◌≡◌, ◌≢◌, refl, String, true, false, none, some, List, [], ◌∷◌, ◌+◌, ◌≤◌, ◌==◌, arith,
  if◌then◌else◌,
}
use libretto.Go.Error.{new}
use libretto.Go.Result.{ok, err, Reply, answer, failure, of_reply}
use libretto.Go.Action.{World}
use libretto.Ssh.Client.{
  SshClient, Server, Call, dial, keep_alive, sleep, connect, validate, get_auth, wait_rounds,
  wait_for_ssh, disconnect, err_timeout,
}
use libretto.Go.Reach.{begin, later}
use libretto.Ssh.KeepAlive.{
  State, requesting, finished, gone, enter, tick, close_channel, forget_channel, Reached,
}
use libretto.Ssh.KeepAlive.Leak.{keep_alive_leaks}
use libretto.Ssh.Transfer.{header, download_length, lacks, download_length-header}
use libretto.Ssh.Client.Waits.{Ticks, Ended, wait_for_ssh-Ended}

-- A sleep lasts as long as it says, and a dial a nanosecond.
abbrev elapsed : List Call → ℕ
elapsed [] = 0
elapsed (dial addr user auth ∷ log) = elapsed log + 1
elapsed (keep_alive ∷ log) = elapsed log
elapsed (sleep t ∷ log) = elapsed log + t

-- sshd responds after the first dial.
abbrev answers : List Call → Reply ℕ
answers [] = failure (new "connection refused")
answers (c ∷ log) = answer 7

abbrev small_server : Server
small_server = record {
  connection = λ log addr user auth. answers log;
  invalid_key = λ key. none;
  address = λ ip port. "10.0.0.1:22";
  now = elapsed;
}

forwards : (log : List Call) (c : Call) → elapsed log ≤ elapsed (c ∷ log)
forwards log (dial addr user auth) = omega arith
forwards log keep_alive = omega arith
forwards log (sleep t) = omega arith

ticking : Ticks small_server
ticking = record { forward = forwards; slept = λ log t. omega arith }

abbrev client : String → World SshClient Call
client secret = record {
  vm = record {
    creds = record { ssh_user = "root"; ssh_password = secret; ssh_private_key = "" };
    ip = none;
    port = 0;
    options = record { ips = []; keep_alive = 3; pty = false };
    crypto_client = none;
    close = false;
  };
  log = [];
}

second_try : (wait_for_ssh small_server 13 60000000000 (client "secret")).0 ≡ ok (some tt)
unfolding wait_for_ssh connect validate get_auth wait_rounds disconnect
second_try = refl

never : (wait_for_ssh small_server 13 60000000000 (client "")).0 ≡ err err_timeout
unfolding wait_for_ssh connect validate get_auth wait_rounds
never = refl

wait_for_ssh-Ended_example :
    Ended small_server 60000000000 0 (wait_for_ssh small_server 13 60000000000 (client "secret"))
wait_for_ssh-Ended_example =
    wait_for_ssh-Ended small_server ticking 12 60000000000 (client "secret") (omega arith)

abbrev parsed : String → Reply ℕ
parsed s = if s == "14" then answer 14 else failure (new "invalid syntax")

download_length-header_example :
    download_length parsed (header "0644" "14" "somefile") ≡ of_reply (parsed "14")
unfolding lacks
download_length-header_example =
    download_length-header parsed "0644" "14" "somefile" refl refl refl refl

-- Disconnect while keepAlive is in SendRequest.
abbrev missed : State
missed = record { worker = requesting; caller = gone; close = false; closed = true }

misses : Reached missed
misses =
    later (later (later (later begin (enter refl)) (tick true refl)) (close_channel refl refl))
      (forget_channel refl)

keep_alive_leaks_example : missed.worker ≢ finished
keep_alive_leaks_example = keep_alive_leaks missed missed refl refl tt begin
