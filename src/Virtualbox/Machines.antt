-- ===== src/Virtualbox/Machines.antt =====
-- virtualmachine/virtualbox: the methods of VM in vm.go, and the queries of util.go.
use libretto.Base.{String, none, some, List, [], ◌∷◌, ◌==◌, ◌<>◌, not, ◌||◌, if◌then◌else◌}
use libretto.Machine.{
  wrap_errors, vm_halted, err_vm_info_failed, err_vm_state_failed, err_stopping_vm, err_deleting_vm,
  err_starting_vm, err_suspending_vm,
}
use libretto.Go.Error.{Error, new}
use libretto.Go.Strings.{lines, trim_suffix}
use libretto.Go.Action.{◌>>=◌, ◌>>◌, get, pure, fail, lift, send, note, on_failure}
use libretto.Virtualbox.Types.{Vm, Nic, Host, Output, Method, Nothing, combined}
use libretto.Virtualbox.Addresses.{Timestamps, put_at}
use libretto.Virtualbox.Readings.{read_state, read_nics, devices, scan_pairs, name_of_mac}

-- time.Sleep of a number of seconds.
abbrev pub sleep : List String
sleep = "sleep" ∷ "1s" ∷ []

-- `return WrapErrors(kind, err)`.
abbrev pub wrapped : {A : Type 0} → Error → Method A → Method A
wrapped kind m = on_failure m λ e. fail (wrap_errors (some kind ∷ some e ∷ []))

module _ (host : Host) where
  -- Run, with its three results.
  unfoldable pub run : List String → Method Output
  run args = send args λ log. host.run log args

  unfoldable pub run_combined_error : List String → Method String
  unfolding run combined
  run_combined_error args = do out ← run args; lift (combined out)

  -- `stdout, _, err := runner.Run(args)` where an error is returned.
  unfoldable pub run_stdout : List String → Method String
  unfolding run
  run_stdout args = do out ← run args; elim (out.error) [ none ↦ pure out.stdout | some e ↦ fail e ]

  unfoldable pub get_bridged_device_kv : String → String → Method (List (String × String))
  unfolding run_stdout scan_pairs trim_suffix
  get_bridged_device_kv keyname propname =
      if (keyname == "") || (propname == "")
      then pure []
      else run_stdout ("list" ∷ "bridgedifs" ∷ []) >>= λ stdout. pure (
          scan_pairs (trim_suffix keyname ":" <> ":") (trim_suffix propname ":" <> ":")
            (devices stdout))

  -- The map that a list of pairs makes; the last value of a key stays.
  abbrev pub map_of : Timestamps → Timestamps → Timestamps
  unfolding put_at
  map_of m [] = m
  map_of m ((k, v) ∷ kvs) = map_of (if not (k == "") then put_at k v m else m) kvs

  unfoldable pub get_bridged_device_name_ip_map : Method Timestamps
  unfolding get_bridged_device_kv
  get_bridged_device_name_ip_map = do
    kvs ← get_bridged_device_kv "Name" "IPAddress"
    pure (map_of [] kvs)

  unfoldable pub get_bridged_device_name : String → Method String
  unfolding run_stdout
  get_bridged_device_name mac_addr = do
    stdout ← run_stdout ("list" ∷ "bridgedifs" ∷ [])
    pure (name_of_mac mac_addr (devices stdout))

  abbrev pub named : List (String × String) → List String
  named [] = []
  named ((k, v) ∷ kvs) =
      let rest = named kvs in
      if not (k == "") then if not (v == "") then k ∷ rest else rest else rest

  unfoldable pub get_bridged_devices : Method (List String)
  unfolding get_bridged_device_kv
  get_bridged_devices = do kvs ← get_bridged_device_kv "Name" "HardwareAddress"; pure (named kvs)

  abbrev pub get_name : Vm → String
  get_name vm = vm.name

  unfoldable pub get_state : Method String
  unfolding run_combined_error read_state
  get_state = do
    vm ← get
    stdout ← wrapped err_vm_info_failed (run_combined_error ("showvminfo" ∷ vm.name ∷ []))
    elim (read_state (lines stdout)) [ some state ↦ pure state | none ↦ fail err_vm_state_failed ]

  unfoldable pub halt : Method Nothing
  unfolding run_combined_error get_state
  halt = do
    state ← get_state
    vm ← get
    if state == vm_halted then pure tt else (do
      out ← wrapped err_stopping_vm (run_combined_error ("controlvm" ∷ vm.name ∷ "poweroff" ∷ []))
      pure tt)

  unfoldable pub destroy : Method Nothing
  unfolding run_combined_error
  destroy = do
    halt
    vm ← get
    note sleep
    out ← wrapped err_deleting_vm (run_combined_error ("unregistervm" ∷ vm.name ∷ "--delete" ∷ []))
    pure tt

  unfoldable pub start : Method Nothing
  unfolding run_combined_error
  start = do
    vm ← get
    out ← on_failure (run_combined_error ("startvm" ∷ vm.name ∷ [])) λ e.
        on_failure (run_combined_error ("controlvm" ∷ vm.name ∷ "resume" ∷ []))
          λ rerr. fail (wrap_errors (some err_starting_vm ∷ some e ∷ some rerr ∷ []))
    pure tt

  unfoldable pub suspend : Method Nothing
  unfolding run_combined_error
  suspend = do
    vm ← get
    out ← wrapped err_suspending_vm (run_combined_error ("controlvm" ∷ vm.name ∷ "savestate" ∷ []))
    pure tt

  abbrev pub resume : Method Nothing
  resume = start

  unfoldable pub get_interfaces : Method (List Nic)
  unfolding run_combined_error read_nics
  get_interfaces = do
    vm ← get
    stdout ← run_combined_error ("showvminfo" ∷ vm.name ∷ [])
    lift (read_nics (lines stdout))

pub add_disk : Method Nothing
add_disk = fail (new "TO-DO")

pub remove_disk : String → Method Nothing
remove_disk disk_name = fail (new "TO-DO")
