-- ===== src/Virtualbox/Nics.antt =====
-- virtualmachine/virtualbox/util.go: the network cards, and Provision of vm.go up to its wait.
pub mod Commands
use libretto.Base.{
  ℕ, String, Bool, true, false, Option, none, some, List, [], ◌∷◌, ◌==◌, ◌<>◌, if◌then◌else◌,
}
use libretto.Machine.{err_nic_already_disabled, err_failed_to_get_nics, err_source_not_specified}
use libretto.Go.Result.{err}
use libretto.Go.Action.{◌>>=◌, ◌>>◌, get, put, pure, fail, lift, calls, on_failure}
use libretto.Virtualbox.Types.{
  Nic, Backing, nat, bridged, unsupported, disabled, Host, Method, Nothing,
}
use libretto.Virtualbox.Machines.{run_stdout, run_combined_error, get_interfaces}

abbrev pub is_disabled : Backing → Bool
is_disabled disabled = true
is_disabled nat = false
is_disabled bridged = false
is_disabled unsupported = false

abbrev pub get_string_from_backing : Backing → String
get_string_from_backing nat = "nat"
get_string_from_backing bridged = "bridged"
get_string_from_backing unsupported = "null"
get_string_from_backing disabled = "null"

module _ (host : Host) where
  abbrev pub nic_flag : ℕ → String
  nic_flag idx = "--nic" <> host.decimal idx

  -- `_, _, err := runner.Run(args)`, and err.
  unfoldable pub run_command : List String → Method Nothing
  unfolding run_stdout
  run_command args = do stdout ← run_stdout host args; pure tt

  unfoldable pub delete_nic : Nic → Method Nothing
  unfolding run_command
  delete_nic nic =
      if is_disabled nic.backing
      then fail err_nic_already_disabled
      else get >>= λ vm. run_command ("modifyvm" ∷ vm.name ∷ nic_flag nic.idx ∷ "null" ∷ [])

  abbrev pub add_args : String → Nic → Backing → Option (List String)
  add_args name nic nat =
      some ("modifyvm" ∷ name ∷ nic_flag nic.idx ∷ get_string_from_backing nat ∷ [])
  add_args name nic bridged = some (
      "modifyvm"
      ∷ name
      ∷ nic_flag nic.idx
      ∷ get_string_from_backing bridged
      ∷ ("--bridgeadapter" <> host.decimal nic.idx)
      ∷ nic.backing_device
      ∷ [])
  add_args name nic unsupported = none
  add_args name nic disabled = none

  unfoldable pub add_nic : Nic → Method Nothing
  unfolding run_command
  add_nic nic = do
    vm ← get
    elim (add_args vm.name nic nic.backing) [ some args ↦ run_command args | none ↦ pure tt ]

  -- The loop of DeleteNICs.
  unfoldable pub delete_each : List Nic → Method Nothing
  unfolding delete_nic
  delete_each [] = pure tt
  delete_each (nic ∷ nics) =
      let rest = delete_each nics in
      if is_disabled nic.backing then rest else delete_nic nic >> rest

  unfoldable pub delete_nics : Method Nothing
  unfolding delete_each
  delete_nics = do
    nics ← on_failure (get_interfaces host) λ e. fail err_failed_to_get_nics
    delete_each nics

  -- The loop of configure.
  unfoldable pub add_each : List Nic → Method Nothing
  unfolding add_nic
  add_each [] = pure tt
  add_each (nic ∷ nics) = add_nic nic >> add_each nics

  unfoldable pub configure : Method Nothing
  unfolding delete_nics add_each
  configure = do delete_nics; vm ← get; add_each vm.config.nics

  -- Provision up to the call of waitUntilReady.
  unfoldable pub import_vm : Method Nothing
  unfolding run_combined_error configure
  import_vm = do
    log ← calls
    unnamed ← get
    put (record unnamed {
      name = if unnamed.name == "" then "vm-" <> host.variant4 log else unnamed.name;
    })
    vm ← get
    if vm.src == "" then fail err_source_not_specified else (do
      ova_path ← lift (host.abs vm.src)
      put (record vm { src = ova_path })
      out ←
          run_combined_error host ("import" ∷ ova_path ∷ "--vsys" ∷ "0" ∷ "--vmname" ∷ vm.name ∷ [])
      configure)
