-- ===== src/Digitalocean/Agreement.antt =====
-- What GetState of virtualmachine/digitalocean/vm.go has to do with GetDroplet of util.go, and what
-- the operations do before there is a droplet.
use libretto.Base.{String, false, Option, none, some, ◌==◌, ◌≡◌, refl, equal, arith}
use libretto.Go.Result.{Result, ok, err, panic, Reply, answer, failure, of_reply}
use libretto.Go.Action.{World, resume, pure}
use libretto.Digitalocean.Types.{Vm, Droplet, DropletResponse}
use libretto.Digitalocean.Http.{Api, Request, Response, exchange, checked, check_status}
use libretto.Digitalocean.Droplets.{
  droplet_url, get_droplet, droplet_id, fill_droplet, read_state, get_state, destroy, act, start,
  halt,
}

-- GetState by way of GetDroplet: the droplet is stored and its status returned.
pub stored : Result (Option Droplet) × World Vm Request → Result String × World Vm Request
stored (ok none, w) = let vm = w.vm in (panic, record w { vm = record vm { droplet = none } })
stored (ok (some d), w) =
    let vm = w.vm in (ok d.status, record w { vm = record vm { droplet = some d } })
stored (err e, w) = (err e, w)
stored (panic, w) = (panic, w)

-- GetDroplet from the text of a response on, and its test of a response.
abbrev decoding : Api → String → World Vm Request → Result (Option Droplet) × World Vm Request
decoding api body = resume (of_reply (api.decode_droplet body)) λ response. pure response.droplet

abbrev testing : Response × String → World Vm Request → Result String × World Vm Request
testing (rsp, body) = resume (check_status rsp.status body) λ done. pure body

module _ (api : Api) (u : World Vm Request) where
  filled_from :
      (body : String) (response : DropletResponse) (o : Option Droplet)
      → api.decode_droplet body ≡ answer response
      → response.droplet ≡ o
      → fill_droplet api body u ≡ stored (decoding api body u)
  unfolding fill_droplet stored
  filled_from body response none h e = rw h (rw e)
  filled_from body response (some d) h e = rw h (rw e)

  filled :
      (body : String) (reply : Reply DropletResponse)
      → api.decode_droplet body ≡ reply
      → fill_droplet api body u ≡ stored (decoding api body u)
  unfolding fill_droplet stored
  filled body (failure e) h = rw h
  filled body (answer response) h = filled_from body response response.droplet h refl

  tested :
      (c : Result (Unit {0})) (body : String)
      → let t = resume c (λ done. pure body) u in
        resume c (λ done. fill_droplet api body) u ≡ stored (resume t.0 (decoding api) t.1)
  unfolding stored
  tested (ok a) body = filled body (api.decode_droplet body) refl
  tested (err e) body = refl
  tested panic body = refl

  answered :
      (x : Result (Response × String))
      → ((rsp : Response) (body : String) → x ≡ ok (rsp, body) → equal rsp.status_code 404 ≡ false)
      → let t = resume x testing u in
        resume x (read_state api) u ≡ stored (resume t.0 (decoding api) t.1)
  unfolding stored read_state
  answered (err e) there = refl
  answered panic there = refl
  answered (ok (rsp, body)) there =
      rw (there rsp body refl) (tested (check_status rsp.status body) body)

module _ (api : Api) (w : World Vm Request) where
  -- Before Provision there is no droplet, and Destroy, GetState, Start and Halt panic, without a
  -- request.
  pub no_droplet :
      w.vm.droplet ≡ none
      → (destroy api w ≡ (panic, w))
        × (get_state api w ≡ (panic, w))
        × (start api w ≡ (panic, w))
        × (halt api w ≡ (panic, w))
  unfolding destroy get_state start halt act droplet_id
  no_droplet h = (rw h, rw h, rw h, rw h)

  id_found :
      (d : Droplet)
      → w.vm.droplet ≡ some d
      → (api.decimal d.id == "") ≡ false
      → droplet_id api w ≡ (ok (api.decimal d.id), w)
  unfolding droplet_id
  id_found d h n = ground (arith, h, n)

  -- For a VM with a droplet, and a response whose status code is not 404, GetState agrees with
  -- GetDroplet of the droplet's id: it fails as that one does, or stores its droplet and returns the
  -- droplet's status, and panics where there is none.
  pub get_state-get_droplet :
      (d : Droplet)
      → w.vm.droplet ≡ some d
      → (api.decimal d.id == "") ≡ false
      → ((rsp : Response) (body : String)
          → (exchange api w.vm.api_token "GET" (droplet_url (api.decimal d.id)) "" w).0
            ≡ ok (rsp, body)
          → equal rsp.status_code 404 ≡ false)
      → get_state api w ≡ stored (get_droplet api w.vm.api_token (api.decimal d.id) w)
  unfolding get_state get_droplet checked
  get_state-get_droplet d h n there =
      let x = exchange api w.vm.api_token "GET" (droplet_url (api.decimal d.id)) "" w in
      rw (id_found d h n) (answered api x.1 x.0 there)
