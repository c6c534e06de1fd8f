-- ===== src/Digitalocean/Http.antt =====
-- virtualmachine/digitalocean/util.go: the requests, and the steps that every operation makes with
-- its response. net/http and JSON are parameters.
use libretto.Base.{ℕ, String, Option, none, some, List, ◌==◌, ◌<>◌, if◌then◌else◌}
use text.Mathlib.Text.{starts_with}
use libretto.Ssh.{Ip}
use libretto.Go.Error.{Error, new}
use libretto.Go.Result.{Result, ok, err, panic, Reply, of_reply}
use libretto.Go.Action.{World, Action, ◌>>=◌, ◌>>◌, pure, lift, request}
use libretto.Digitalocean.Types.{Config, DropletResponse, DropletsResponse}

-- The headers are Content-Type and Authorization; a nil body is empty.
pub record Request : Type 0 where
  pub method : String
  pub url : String
  pub body : String
  pub content_type : String
  pub authorization : String

-- `body` is what ReadAll returns.
pub record Response : Type 0 where
  pub status : String
  pub status_code : ℕ
  pub body : Reply String

-- Each answer depends on the requests before it.
pub record Api : Type 0 where
  -- the error of http.NewRequest for a method and an address, if any
  pub invalid : String → String → Option Error
  pub send : List Request → Request → Reply Response
  pub marshal_config : Config → Reply String
  pub decode_droplet : String → Reply DropletResponse
  pub decode_droplets : String → Reply DropletsResponse
  -- %v of an int
  pub decimal : ℕ → String
  pub parse_ip : String → Ip

-- An action whose calls are requests.
abbrev pub Exchange : Type 0 → Type 0 → Type 0
Exchange V A = Action (World V Request) A

abbrev pub Nothing : Type 0
Nothing = Unit {0}

-- `rsp.Status[0] != StatusOk`: the index panics where the status is empty.
unfoldable pub check_status : String → String → Result Nothing
check_status status body =
    if status == ""
    then panic
    else if starts_with status "2"
    then ok tt
    else err (new ("Error: " <> status <> ": " <> body))

module _ (api : Api) where
  unfoldable pub build_request : String → String → String → String → Result Request
  build_request token method url body = elim (api.invalid method url) [
    | some e ↦ err e
    | none ↦ ok (record {
      method = method;
      url = url;
      body = body;
      content_type = "application/json";
      authorization = "Bearer " <> token;
    })
  ]

  module _ {V : Type 0} where
    -- The request, and the response with its body read.
    unfoldable pub exchange : String → String → String → String → Exchange V (Response × String)
    unfolding build_request
    exchange token method url body = do
      req ← lift (build_request token method url body)
      rsp ← request req (λ log. api.send log req)
      text ← lift (of_reply rsp.body)
      pure (rsp, text)

    -- The same, with the test of its status.
    unfoldable pub checked : String → String → String → String → Exchange V String
    unfolding check_status
    checked token method url body = do
      reply ← exchange token method url body
      lift (check_status reply.0.status reply.1)
      pure reply.1
