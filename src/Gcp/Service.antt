-- ===== src/Gcp/Service.antt =====
-- virtualmachine/gcp/util.go: getService, the wait for an operation, and the operations on the
-- instance.
use libretto.Base.{
  ℕ, String, Option, none, some, List, [], ◌∷◌, ◌==◌, ◌<>◌, ◌-◌, ltb, if◌then◌else◌,
}
use Prim.Native.String.{len, slice}
use libretto.Go.Error.{Error, new, errorf}
use libretto.Go.Retry.{Verdict, again, stop, retry}
use libretto.Go.Result
use libretto.Go.Result.{Result, ok, err, panic, answer, failure, first}
use libretto.Go.Action.{◌>>=◌, ◌>>◌, get, put, pure, fail, lift, request, note}
use libretto.Gcp.Types.{AccountFile, operation_timeout}
use libretto.Gcp.Api.{
  Cloud, Call, query, change, sleep, Change, Operation, Instance, Method, Nothing,
}

-- parseAccountFile, with the struct that it fills.
parsed : Cloud → AccountFile → String → AccountFile × Option Error
parsed svc file account = elim ((svc.decode_account account file).1) [
  | none ↦ ((svc.decode_account account file).0, none)
  | some e ↦
      let tried = (svc.decode_account account file).0 in
      if svc.not_exist account
      then (tried, some (new ("error finding account file: " <> account)))
      else elim (svc.read_file account) [
        | failure e ↦ (
          tried,
          some (
              errorf ("error reading account file from path '" <> svc.show_account tried <> "': ")
                e),
        )
        | answer text ↦ elim ((svc.decode_account text tried).1) [
          | none ↦ ((svc.decode_account text tried).0, none)
          | some e ↦
              ((svc.decode_account text tried).0, some (errorf "error parsing account file: " e))
        ]
      ]
]

of_error : Option Error → Result Nothing
of_error none = ok tt
of_error (some e) = err e

-- region: a zone of fewer than two characters panics.
unfoldable pub region : String → Result String
region zone = if ltb (len zone) 2 then panic else ok (slice zone 0 (len zone - 2))

module _ (svc : Cloud) where
  unfoldable pub parse_account_file : Method Nothing
  unfolding parsed of_error
  parse_account_file = do
    vm ← get
    let done = parsed svc vm.account vm.account_file
    put (record vm { account = done.0 })
    lift (of_error done.1)

  unfoldable pub get_service : Method Nothing
  unfolding parse_account_file of_error
  get_service = do
    parse_account_file
    vm ← get
    let account = vm.account
    lift (of_error (svc.new_service (if account.private_key == "" then none else some account)))

  unfoldable pub get_instance : Method Instance
  get_instance = do
    vm ← get
    request (query "instance" (vm.project ∷ vm.zone ∷ vm.name ∷ [])) (λ log. svc.get_instance log)

  -- An operation that is done: its first error.
  unfoldable pub operation_done : Operation → Result (Verdict String Nothing)
  operation_done op = elim (op.error) [
    | none ↦ ok (stop tt)
    | some errors ↦ Result.◌>>=◌ (first errors) λ e. err (new ("operation error: " <> e))
  ]

  unfoldable pub operation_round : Call → String → ℕ → String → Method (Verdict String Nothing)
  unfolding operation_done
  operation_round asked name i last = do
    op ← request asked (λ log. svc.get_operation log name)
    if op.status == "DONE" then lift (operation_done op) else note sleep >> pure (again op.status)

  unfoldable pub wait_for_operation : Call → String → Method Nothing
  unfolding operation_round retry
  wait_for_operation asked name =
      retry (operation_round asked name)
        (λ status. fail (new ("operation timeout, operations status: " <> status)))
        operation_timeout 0 ""

  unfoldable pub wait_for_operation_ready : String → Method Nothing
  unfolding wait_for_operation
  wait_for_operation_ready name = do
    vm ← get
    wait_for_operation (query "zone operation" (vm.project ∷ vm.zone ∷ name ∷ [])) name

  unfoldable pub wait_for_global_operation_ready : String → Method Nothing
  unfolding wait_for_operation
  wait_for_global_operation_ready name = do
    vm ← get
    wait_for_operation (query "global operation" (vm.project ∷ name ∷ [])) name

  -- A change in the VM's zone, and the wait for its operation.
  unfoldable pub change_zone : List String → Change → Method Nothing
  unfolding wait_for_operation_ready
  change_zone names c = do
    vm ← get
    op ← request (change vm.project (vm.zone ∷ names) c) (λ log. svc.change_reply log c)
    wait_for_operation_ready op.name

  -- A change in the VM's project, and the wait for its operation.
  unfoldable pub change_project : List String → Change → Method Nothing
  unfolding wait_for_global_operation_ready
  change_project names c = do
    vm ← get
    op ← request (change vm.project names c) (λ log. svc.change_reply log c)
    wait_for_global_operation_ready op.name

  -- A change of the VM's instance.
  unfoldable pub change_instance : Change → Method Nothing
  unfolding change_zone
  change_instance c = do vm ← get; change_zone (vm.name ∷ []) c
