-- ===== src/Machine.antt =====
-- virtualmachine/virtualmachine.go: the states and errors that the providers share, and WrapErrors.
use libretto.Base.{String, List, [], ◌∷◌, Option, none, some, ◌<>◌}
use libretto.Go.Error.{Error, new, message}

abbrev pub vm_starting : String
vm_starting = "starting"

abbrev pub vm_running : String
vm_running = "running"

abbrev pub vm_halted : String
vm_halted = "halted"

abbrev pub vm_suspended : String
vm_suspended = "suspended"

abbrev pub vm_pending : String
vm_pending = "pending"

abbrev pub vm_error : String
vm_error = "error"

abbrev pub vm_unknown : String
vm_unknown = "unknown"

abbrev pub err_vm_no_ip : Error
err_vm_no_ip = new "error getting a new IP for the virtual machine"

abbrev pub err_vm_boot_timeout : Error
err_vm_boot_timeout = new "timed out waiting for virtual machine"

abbrev pub err_nic_already_disabled : Error
err_nic_already_disabled = new "NIC already disabled"

abbrev pub err_failed_to_get_nics : Error
err_failed_to_get_nics = new "failed to get interfaces for vm"

abbrev pub err_starting_vm : Error
err_starting_vm = new "error starting VM"

abbrev pub err_stopping_vm : Error
err_stopping_vm = new "error stopping VM"

abbrev pub err_deleting_vm : Error
err_deleting_vm = new "error deleting VM"

abbrev pub err_vm_info_failed : Error
err_vm_info_failed = new "error getting information about VM"

abbrev pub err_vm_state_failed : Error
err_vm_state_failed = new "error getting the state of the VM"

abbrev pub err_source_not_specified : Error
err_source_not_specified = new "source not specified"

abbrev pub err_suspending_vm : Error
err_suspending_vm = new "error suspending the VM"

abbrev pub err_suspend_not_supported : Error
err_suspend_not_supported = new "suspend action not supported"

abbrev pub err_resume_not_supported : Error
err_resume_not_supported = new "resume action not supported"

-- strings.Join.
pub joined : String → List String → String
joined sep [] = ""
joined sep (s ∷ []) = s
joined sep (s ∷ t ∷ rest) = s <> sep <> joined sep (t ∷ rest)

-- The messages of the errors that are there.
pub messages : List (Option Error) → List String
unfolding message
messages [] = []
messages (none ∷ es) = messages es
messages (some e ∷ es) = message e ∷ messages es

unfoldable pub wrap_errors : List (Option Error) → Error
unfolding joined messages
wrap_errors es = new (joined ": " (messages es))
