-- ===== src/Vmrun/Machines.antt =====
-- virtualmachine/vmrun: the methods of VM in vm.go but for Provision and its wait, and copyFile of
-- util.go.
use libretto.Base.{
  ℕ, String, Bool, true, false, none, some, List, [], ◌∷◌, ◌==◌, ◌<>◌, if◌then◌else◌,
}
use libretto.Ssh.{Ip}
use libretto.Machine.{wrap_errors, vm_running, vm_suspended, err_deleting_vm}
use libretto.Go.Error.{new, message}
use libretto.Go.Strings.{contains, lines, before, trim_space}
use libretto.Go.Result.{Result, ok, err, panic, Reply, answer, failure, of_reply}
use libretto.Go.Action.{
  ◌>>=◌, ◌>>◌, get, put, pure, fail, lift, send, request, attempt, calls, on_failure,
}
use libretto.Vmrun.Types.{
  Vm, Nic, Backing, nat, bridged, unsupported, Host, Output, vmrun, remove_all, read_file,
  write_file, open_file, create_file, copy_data, stat_file, Method, Nothing,
}

-- RunCombinedError's error, from what Run returned.
unfoldable pub combined : Output → Result String
combined out = elim (out.error) [
  | none ↦ ok out.stdout
  | some e ↦ if out.stderr == "" then err e else err (new (message e <> ": " <> out.stderr))
]

-- `backingList[nic.Backing]`: the list has two entries.
abbrev pub backing_name : Backing → Result String
backing_name nat = ok "nat"
backing_name bridged = ok "bridged"
backing_name unsupported = panic

-- ReplaceAllString of the matches of `ethernet.*\n` by nothing, on the lines of a text.
unfoldable pub without_ethernet : List String → String
unfolding before
without_ethernet [] = ""
without_ethernet (line ∷ []) = line
without_ethernet (line ∷ next ∷ rest) =
    let others = without_ethernet (next ∷ rest) in
    elim (before line "ethernet") [ some front ↦ front <> others | none ↦ line <> "\n" <> others ]

module _ (host : Host) where
  unfoldable pub run : List String → Method Output
  run args = send (vmrun args) λ log. host.run log args

  unfoldable pub run_combined_error : List String → Method String
  unfolding run combined
  run_combined_error args = do out ← run args; lift (combined out)

  abbrev pub vmx_path : Vm → String
  vmx_path vm = vm.dst <> "/" <> host.file_of vm.src

  -- The first lines of Start, Suspend and haltWithFlag.
  unfoldable pub set_path : Method String
  set_path = do vm ← get; put (record vm { vmx_file_path = vmx_path vm }); pure (vmx_path vm)

  unfoldable pub halt_with_flag : Bool → Method Nothing
  unfolding set_path run_combined_error
  halt_with_flag hard = do
    path ← set_path
    out ← run_combined_error ("stop" ∷ path ∷ (if hard then "hard" else "soft") ∷ [])
    pure tt

  pub halt : Method Nothing
  halt = halt_with_flag false

  unfoldable pub destroy : Method Nothing
  unfolding halt_with_flag
  destroy = do
    halt_with_flag true
    vm ← get
    if vm.dst == ""
        then pure tt
        else (on_failure (request (remove_all vm.dst) (λ log. host.remove log vm.dst))
            λ e. fail err_deleting_vm)

  pub suspend : Method Nothing
  unfolding set_path run_combined_error
  suspend = do path ← set_path; out ← run_combined_error ("suspend" ∷ path ∷ []); pure tt

  -- The output of a run that fails is in the error.
  unfoldable pub start : Method Nothing
  unfolding set_path run combined
  start = do
    path ← set_path
    out ← run ("start" ∷ path ∷ [])
    reply ← attempt (lift (combined out))
    elim reply [
      | answer a ↦ pure tt
      | failure e ↦ fail (wrap_errors (some e ∷ some (new out.stdout) ∷ []))
    ]

  pub resume : Method Nothing
  resume = start

  -- The paths are read without a run.
  unfoldable pub get_state : Method String
  unfolding run
  get_state = do
    vm ← get
    out ← run ("list" ∷ [])
    elim (out.error) [
      | some e ↦ fail e
      | none ↦
          if out.stderr == ""
          then (if contains out.stdout vm.dst then pure vm_running else (do
            log ← calls
            p ← lift (of_reply (host.eval_symlinks log vm.dst))
            absp ← lift (of_reply (host.abs log p))
            pure (if contains out.stdout absp then vm_running else vm_suspended)))
          else fail (new ("Failed to get state using the vmrun utility: " <> out.stderr))
    ]

  -- nicTemplate.
  unfoldable pub nic_text : Nic → String → String
  nic_text nic backing =
      let front = "ethernet" <> host.decimal nic.idx <> "." in
      front
      <> "addresstype = \"generated\"\n"
      <> front
      <> "bsdname = \""
      <> host.escaped nic.backing_device
      <> "\"\n"
      <> front
      <> "connectiontype = \""
      <> host.escaped backing
      <> "\"\n"
      <> front
      <> "displayname = \"Ethernet\"\n"
      <> front
      <> "present = \"TRUE\"\n"
      <> front
      <> "virtualdev = \"vmxnet3\"\n"

  -- The loop of configure.
  unfoldable pub nic_texts : List Nic → Result String
  unfolding nic_text
  nic_texts [] = ok ""
  nic_texts (nic ∷ nics) =
      let rest = nic_texts nics in
      elim (backing_name nic.backing) [
        | ok backing ↦ elim rest [
          | ok text ↦ ok (nic_text nic backing <> text)
          | err e ↦ err e
          | panic ↦ panic
        ]
        | err e ↦ err e
        | panic ↦ panic
      ]

  unfoldable pub configure : Method Nothing
  unfolding without_ethernet nic_texts
  configure = do
    vm ← get
    let path = vm.vmx_file_path
    let config = vm.config
    text ← request (read_file path) (λ log. host.read log path)
    nics ← lift (nic_texts config.nics)
    let new_text = without_ethernet (lines text) <> nics
    request (write_file path new_text) (λ log. host.write log path new_text)

  pub request_ips : Method (List Ip)
  unfolding run
  request_ips = do
    vm ← get
    out ← run ("getGuestIPAddress" ∷ vm.vmx_file_path ∷ "wait" ∷ [])
    let ip = host.parse_ip (trim_space out.stdout)
    let ips = if out.stdout == "" then [] else elim ip [ none ↦ [] | some bytes ↦ some bytes ∷ [] ]
    put (record vm { ips = ips })
    pure ips

  -- The end of copyFile: its test of the error is the wrong way round, so the mode is set only where
  -- srcinfo is nil, which panics.
  abbrev set_mode : Reply ℕ → Method Nothing
  set_mode (failure e) = lift panic
  set_mode (answer mode) = pure tt

  unfoldable pub copy_file : String → String → Method Nothing
  copy_file src dest = do
    request (open_file src) (λ log. host.open_reply log src)
    request (create_file dest) (λ log. host.create log dest)
    request (copy_data src dest) (λ log. host.copy log src dest)
    reply ← attempt (request (stat_file src) (λ log. host.stat log src))
    set_mode reply

pub add_disk : Method Nothing
add_disk = fail (new "TO-DO")

pub remove_disk : String → Method Nothing
remove_disk disk_name = fail (new "TO-DO")
