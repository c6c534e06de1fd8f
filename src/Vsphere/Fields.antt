-- ===== src/Vsphere/Fields.antt =====
-- virtualmachine/vsphere/util.go: the custom fields of a machine.
use libretto.Base.{ℕ, String, Option, none, some}
use libretto.Go.Action.{◌>>=◌, ◌>>◌, pure, lift, calls, request}
use libretto.Go.Result.{of_reply}
use libretto.Vsphere.Types.{Mor}
use libretto.Vsphere.Api.{Cloud, Method, find_field, add_field_call, set_field_call}

module _ {F : Type 0} (cloud : Cloud F) where
  abbrev fields : Method F (Unit {0})
  fields = do log ← calls; lift (of_reply (cloud.fields_manager log))

  abbrev pub key_or_added : String → String → Option ℕ → Method F ℕ
  key_or_added name type (some key) = pure key
  key_or_added name type none =
      request (add_field_call name type) (λ log. cloud.add_field log name type)

  unfoldable pub add_custom_field : String → String → Method F ℕ
  add_custom_field name type = do
    fields
    key ← request (find_field name) (λ log. cloud.find_key log name)
    key_or_added name type key

  -- It gets the manager of the fields twice.
  unfoldable pub set_custom_field : Mor → String → String → String → Method F (Unit {0})
  unfolding add_custom_field
  set_custom_field mor name type text = do
    fields
    key ← add_custom_field name type
    request (set_field_call mor key text) (λ log. cloud.set_field log mor key text)
