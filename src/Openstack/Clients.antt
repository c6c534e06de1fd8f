-- ===== src/Openstack/Clients.antt =====
-- virtualmachine/openstack/util.go: the clients. A client is only handed to the SDK, so that these
-- return nothing, but the compute client is kept in the VM's struct.
use libretto.Base.{
  String, true, ◌||◌, Option, none, some, List, ◌∷◌, ◌≡◌, refl, ◌==◌, if◌then◌else◌,
}
use libretto.Go.Error.{Error, new, message}
use libretto.Go.Result.{Result, ok, err, panic}
use libretto.Go.Retry.{Verdict, again, stop}
use libretto.Go.Action.{
  World, note, Action, ◌>>=◌, ◌>>◌, get, put, pure, lift, send, on_error, fail,
}
use libretto.Openstack.Types.{
  Vm, err_auth_options, err_authenticating_client, err_invalid_region, err_no_instance_id,
}
use libretto.Openstack.Api.{Cloud, Call, Method, AuthOptions, authenticate, sleep}

abbrev Nothing : Type 0
Nothing = Unit {0}

-- `if err != nil { return e }`.
abbrev pub instead : {S A : Type 0} → Error → Action S A → Action S A
instead e m s = let r = m s in (on_error (λ x. e) r.0, r.1)

-- What the verb %s prints for an error, which may be nil.
abbrev pub shown : Option Error → String
unfolding message
shown none = "%!s(<nil>)"
shown (some e) = message e

-- `if vm.InstanceID == "" { return ErrNoInstanceID }`.
abbrev pub check_id : Vm → Method Nothing
check_id vm = if vm.instance_id == "" then fail err_no_instance_id else pure tt

-- A pause where the loop goes on.
abbrev pub pause : {L A : Type 0} → Result (Verdict L A) → Method (Verdict L A)
pause (ok (again l)) = do note (sleep 1); pure (again l)
pause (ok (stop a)) = pure (stop a)
pause (err e) = fail e
pause panic = lift panic

abbrev pub paused : {L A : Type 0} → Result (Verdict L A) → List Call → List Call
paused (ok (again l)) log = sleep 1 ∷ log
paused (ok (stop a)) log = log
paused (err e) log = log
paused panic log = log

pub pause_lem :
    {L A : Type 0} (v : Result (Verdict L A)) (w : World Vm Call)
    → pause v w ≡ (v, record w { log = paused v w.log })
pause_lem (ok (again l)) w = refl
pause_lem (ok (stop a)) w = refl
pause_lem (err e) w = refl
pause_lem panic w = refl

module _ (svc : Cloud) where
  pub auth_options : Vm → Result AuthOptions
  auth_options vm =
      if vm.username == "" || vm.password == ""
      then elim svc.env_options [ none ↦ err err_auth_options | some o ↦ ok o ]
      else ok (record {
        identity_endpoint = vm.identity_endpoint;
        username = vm.username;
        password = vm.password;
        tenant_name = vm.tenant_name;
      })

  unfoldable pub get_provider_client : Method Nothing
  unfolding auth_options
  get_provider_client = do
    vm ← get
    opts ← lift (auth_options vm)
    there ← send (authenticate opts) (λ log. svc.authenticated log opts)
    if there then pure tt else fail (new "failed to authenticate the client")

  unfoldable pub get_compute_client : Method Nothing
  unfolding get_provider_client
  get_compute_client = do
    vm ← get
    if vm.compute_client then pure tt else do
      instead err_authenticating_client get_provider_client
      if svc.has_compute vm.region
          then put (record vm { compute_client = true })
          else fail err_invalid_region

  unfoldable pub get_block_storage_client : Method Nothing
  unfolding get_provider_client
  get_block_storage_client = do
    vm ← get
    instead err_authenticating_client get_provider_client
    if svc.has_block_storage vm.region then pure tt else fail err_invalid_region
