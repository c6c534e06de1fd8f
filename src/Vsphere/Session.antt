-- ===== src/Vsphere/Session.antt =====
-- virtualmachine/vsphere: sessions and lookups by name (SetupSession, GetDatacenter, findDatastore,
-- findHostSystem, isObjectDeleted), and answerQuestion.
pub mod Choices
unfoldable pub use Choices.*
use libretto.Base.{◌≡◌, String, Bool, List, [], ◌∷◌, ◌<>◌, ◌==◌, ◌||◌, if◌then◌else◌}
use libretto.Go.Error.{Error, new, object_not_found, message}
use libretto.Go.Result
use libretto.Go.Result.{Result, ok, panic, Reply, answer, failure}
use libretto.Go.Action.{◌>>=◌, ◌>>◌, pure, fail, attempt, get, request}
use libretto.Vsphere.Types.{Mor}
use libretto.Vsphere.Api.{Cloud, Method, connect, cancel, list_datacenters, retrieve, MoDatacenter}

module _ {F A : Type 0} where
  -- `defer vm.cancel()`, and the rest of the method.
  abbrev pub deferred : Method F A → Method F A
  deferred m w = let r = m w in (r.0, record r.1 { log = cancel ∷ r.1.log })

module _ {F : Type 0} (cloud : Cloud F) where
  unfoldable pub get_uri : String → String
  get_uri host = "https://" <> host <> "/sdk"

  abbrev pub parsed : String → Reply String → Method F (Unit {0})
  parsed uri (failure e) =
      fail (new ("Error parsing sdk uri. Url: " <> uri <> ", Error: " <> message e))
  parsed uri (answer u) =
      if u == "" then fail (new ("Unknown error while parsing the sdk uri: " <> uri)) else pure tt

  abbrev pub connected : Reply (Unit {0}) → Method F (Unit {0})
  connected (failure e) = fail (new ("error connecting to the VI SDK: " <> message e))
  connected (answer _) = pure tt

  unfoldable pub setup_session : Method F (Unit {0})
  unfolding get_uri message
  setup_session = do
    vm ← get
    parsed (get_uri vm.host) (cloud.parse_url (get_uri vm.host))
    reply ←
        attempt
          (request connect (λ log. cloud.connect_reply log vm.username vm.password vm.insecure))
    connected reply

  -- A method that sets up a session, and cancels it at its end.
  abbrev pub in_session : {A : Type 0} → Method F A → Method F A
  in_session m = do setup_session; deferred m

  pub property_retrieval : Mor → String → Error → Error
  property_retrieval mor ps e = new (
      "Could not retrieve '["
      <> ps
      <> "]' for object '"
      <> cloud.show_mor mor
      <> "': "
      <> message e)

  abbrev pub is_deleted : String → Bool
  is_deleted name = name == "ManagedObjectNotFound"

  -- A value of the fault's type, or the panic of soap.ToSoapFault.
  unfoldable pub is_object_deleted : Error → Result Bool
  is_object_deleted e = Result.◌>>=◌ (cloud.fault_type e) (λ name. ok (is_deleted name))

  -- A loop that retrieves objects one by one, up to the one that is looked for. An object that cannot
  -- be retrieved ends it with this error.
  module _ {A : Type 0} (ask : Mor → Method F A) (sought : A → Bool) (lost : Mor → Error → Error)
      (missing : Error) where
    abbrev pub found : Mor → Method F A → Reply A → Method F A
    found mor rest (failure e) = fail (lost mor e)
    found mor rest (answer a) = if sought a then pure a else rest

    unfoldable pub find_first : List Mor → Method F A
    find_first [] = fail missing
    find_first (mor ∷ mors) = do reply ← attempt (ask mor); found mor (find_first mors) reply

  abbrev pub dc_properties : List String
  dc_properties = "name" ∷ "hostFolder" ∷ "vmFolder" ∷ "datastore" ∷ "network" ∷ []

  abbrev pub ask_datacenter : Mor → Method F MoDatacenter
  ask_datacenter mor = request (retrieve mor dc_properties) (λ log. cloud.datacenter_of log mor)

  abbrev pub with_datacenters : String → Reply (List Mor) → Method F MoDatacenter
  with_datacenters name (failure e) = fail (object_not_found e name)
  with_datacenters name (answer mors) =
      find_first ask_datacenter (λ dc. dc.name == name)
        (λ mor. property_retrieval mor "name hostFolder vmFolder datastore network")
        (object_not_found (new "%!s(<nil>)") name) mors

  unfoldable pub get_datacenter : Method F MoDatacenter
  unfolding find_first
  get_datacenter = do
    vm ← get
    reply ← attempt (request list_datacenters cloud.datacenters)
    with_datacenters vm.datacenter reply

  abbrev pub ask_name : Mor → Method F (Mor × String)
  ask_name mor = do
    name ← request (retrieve mor ("name" ∷ [])) (λ log. cloud.name_of log mor)
    pure (mor, name)

  -- findDatastore and findHostSystem.
  unfoldable pub find_datastore : MoDatacenter → String → Method F (Mor × String)
  unfolding find_first
  find_datastore dc name =
      find_first ask_name (λ found. found.1 == name) (λ mor. property_retrieval mor "name")
        (object_not_found (new "datastore not found") name) dc.datastore

  unfoldable pub find_host_system : List Mor → String → Method F (Mor × String)
  unfolding find_first
  find_host_system hosts name =
      find_first ask_name (λ found. found.1 == name) (λ mor. property_retrieval mor "name")
        (object_not_found (new "host system not found") name) hosts
