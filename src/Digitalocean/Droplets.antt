-- ===== src/Digitalocean/Droplets.antt =====
-- virtualmachine/digitalocean: the operations of vm.go, and GetDroplet and GetDroplets of util.go.
use libretto.Base.{ℕ, String, Option, List, [], ◌∷◌, ◌++◌, ◌==◌, ◌<>◌, equal, if◌then◌else◌}
use libretto.Ssh.{Ip}
use libretto.Machine.{err_suspend_not_supported, err_resume_not_supported}
use libretto.Go.Result
use libretto.Go.Result.{Result, ok, of_reply, deref}
use libretto.Go.Action.{◌>>=◌, ◌>>◌, get, put, pure, fail, lift}
use libretto.Digitalocean.Types.{
  Vm, Droplet, DropletsResponse, V4Network, V6Network, err_no_instance_id, api_base_url,
  api_droplet_url,
}
use libretto.Digitalocean.Http.{Api, Response, Exchange, Nothing, exchange, checked, check_status}

-- A method of VM.
abbrev pub Method : Type 0 → Type 0
Method A = Exchange Vm A

abbrev pub droplets_url : String
droplets_url = api_base_url <> api_droplet_url

abbrev pub droplet_url : String → String
droplet_url id = droplets_url <> "/" <> id

abbrev pub status_not_found : ℕ
status_not_found = 404

-- The loops of GetIPs; a nil network panics.
pub v4_ips : (String → Ip) → List (Option V4Network) → Result (List Ip)
v4_ips parse [] = ok []
v4_ips parse (n ∷ ns) =
    Result.◌>>=◌ (deref n)
      λ network. Result.◌>>=◌ (v4_ips parse ns) λ rest. ok (parse network.ip_address ∷ rest)

pub v6_ips : (String → Ip) → List (Option V6Network) → Result (List Ip)
v6_ips parse [] = ok []
v6_ips parse (n ∷ ns) =
    Result.◌>>=◌ (deref n)
      λ network. Result.◌>>=◌ (v6_ips parse ns) λ rest. ok (parse network.ip_address ∷ rest)

module _ (api : Api) where
  module _ {V : Type 0} where
    unfoldable pub get_droplet : String → String → Exchange V (Option Droplet)
    get_droplet token id = do
      body ← checked api token "GET" (droplet_url id) ""
      response ← lift (of_reply (api.decode_droplet body))
      pure response.droplet

    pub get_droplets : String → Exchange V DropletsResponse
    get_droplets token = do
      body ← checked api token "GET" droplets_url ""
      lift (of_reply (api.decode_droplets body))

  pub provision : Method Nothing
  provision = do
    vm ← get
    config ← lift (of_reply (api.marshal_config vm.config))
    body ← checked api vm.api_token "POST" droplets_url config
    response ← lift (of_reply (api.decode_droplet body))
    put (record vm { droplet = response.droplet })

  -- `id := fmt.Sprintf("%v", vm.Droplet.ID); if id == "" { return ErrNoInstanceID }`.
  unfoldable pub droplet_id : Method String
  droplet_id = do
    vm ← get
    droplet ← lift (deref vm.droplet)
    let id = api.decimal droplet.id
    if id == "" then fail err_no_instance_id else pure id

  unfoldable pub destroy : Method Nothing
  unfolding droplet_id
  destroy = do
    id ← droplet_id
    vm ← get
    body ← checked api vm.api_token "DELETE" (droplet_url id) ""
    pure tt

  -- The end of GetState, from the text of the response on.
  unfoldable pub fill_droplet : String → Method String
  fill_droplet body = do
    response ← lift (of_reply (api.decode_droplet body))
    vm ← get
    put (record vm { droplet = response.droplet })
    droplet ← lift (deref response.droplet)
    pure droplet.status

  -- GetState from the response on.
  unfoldable pub read_state : Response × String → Method String
  unfolding fill_droplet
  read_state (rsp, body) =
      if equal rsp.status_code status_not_found
      then pure "not_found"
      else lift (check_status rsp.status body) >>= λ checked. fill_droplet body

  unfoldable pub get_state : Method String
  unfolding droplet_id read_state
  get_state = do
    id ← droplet_id
    vm ← get
    reply ← exchange api vm.api_token "GET" (droplet_url id) ""
    read_state reply

  pub update : Method Nothing
  update = do state ← get_state; pure tt

  pub get_ips : Method (List Ip)
  unfolding v4_ips v6_ips
  get_ips = do
    update
    vm ← get
    droplet ← lift (deref vm.droplet)
    networks ← lift (deref droplet.networks)
    v4 ← lift (v4_ips api.parse_ip networks.v4)
    v6 ← lift (v6_ips api.parse_ip networks.v6)
    pure (v4 ++ v6)

  -- The bodies of Start and Halt: a request to act.
  unfoldable pub act : String → Method Nothing
  unfolding droplet_id
  act action = do
    id ← droplet_id
    vm ← get
    body ← checked api vm.api_token "POST" (droplet_url id <> "/actions") action
    pure tt

  unfoldable pub start : Method Nothing
  start = act "{\"type\": \"power_on\"}"

  unfoldable pub halt : Method Nothing
  halt = act "{\"type\": \"power_off\"}"

pub suspend : Method Nothing
suspend = fail err_suspend_not_supported

pub resume : Method Nothing
resume = fail err_resume_not_supported
