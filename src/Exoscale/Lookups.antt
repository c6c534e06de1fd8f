-- ===== src/Exoscale/Lookups.antt =====
-- virtualmachine/exoscale/util.go: the identifiers that are looked up by name.
pub mod Groups
use libretto.Base.{
  ℕ, ◌*◌, ◌%◌, ◌^◌, String, Option, none, some, List, [], ◌∷◌, ◌==◌, ◌<>◌, ◌&&◌, equal,
  if◌then◌else◌,
}
use libretto.Go.Error.{new}
use libretto.Go.Result.{err, Reply, of_reply, first}
use libretto.Go.Action.{◌>>=◌, ◌>>◌, get, put, pure, fail, lift, send, wrap}
use libretto.Exoscale.Types.{Template, SecurityGroup, Zone}
use libretto.Exoscale.Api.{Cloud, Method, command, TemplateOutput}

abbrev pub Nothing : Type 0
Nothing = Unit {0}

-- `resp, err := client.Request(…); if err != nil { return … }`.
abbrev pub ask : Cloud → String → List (String × String) → Method String
ask svc name params = do
  reply ← send (command name params) (λ log. svc.request log (command name params))
  elim reply.1 [ none ↦ pure reply.0 | some e ↦ fail e ]

abbrev pub decoded : {A : Type 0} → Reply A → Method A
decoded reply = lift (of_reply reply)

-- The loop over the templates: the first one of this size and zone.
unfoldable pub match_template : ℕ → String → List TemplateOutput → Option String
match_template storage zone [] = none
match_template storage zone (t ∷ ts) =
    if equal t.size storage && t.zone_name == zone
    then some t.id
    else match_template storage zone ts

unfoldable pub match_zone : String → List Zone → Option String
match_zone name [] = none
match_zone name (z ∷ zs) = if z.name == name then some z.id else match_zone name zs

-- The inner loop of fillSecurityGroupsID: `newID`.
unfoldable pub new_id : String → List SecurityGroup → String
new_id name [] = ""
new_id name (r ∷ rs) = if name == r.name then r.id else new_id name rs

-- Its outer loop: the groups after it, and the name of the group at which it stops with an error.
unfoldable pub fill_groups :
    List SecurityGroup → List SecurityGroup → List SecurityGroup × Option String
unfolding new_id
fill_groups remotes [] = ([], none)
fill_groups remotes (g ∷ gs) =
    let rest = fill_groups remotes gs in
    if g.id == ""
    then (if new_id g.name remotes == ""
        then (g ∷ gs, some g.name)
        else (record g { id = new_id g.name remotes } ∷ rest.0, rest.1))
    else (g ∷ rest.0, rest.1)

-- `int64(StorageGB) << 30`.
abbrev pub storage_bytes : ℕ → ℕ
storage_bytes gb = gb * 2 ^ 30 % 2 ^ 64

module _ (svc : Cloud) where
  abbrev template_label : Template → String
  template_label t = "'" <> t.name <> "/" <> svc.decimal t.storage_gb <> "/" <> t.zone_name <> "'"

  pub fill_template_id : Method Nothing
  unfolding match_template
  fill_template_id = do
    vm ← get
    let template = vm.template
    raw ←
        wrap ("Getting template ID for " <> template_label template <> ": ")
          (ask svc "listTemplates" (("Name", template.name) ∷ ("templatefilter", "featured") ∷ []))
    templates ←
        wrap ("Decoding response for template " <> template_label template <> ": ")
          (decoded (svc.decode_templates raw))
    elim (match_template (storage_bytes template.storage_gb) (svc.to_lower template.zone_name)
        templates) [
          | none ↦
              fail (new ("Template ID for " <> template_label template <> " could not be found"))
          | some id ↦ put (record vm { template = record template { id = id } })
        ]

  pub fill_service_offering_id : Method Nothing
  fill_service_offering_id = do
    vm ← get
    let offering = vm.service_offering
    raw ←
        wrap ("Getting service offering ID for " <> svc.quoted offering.name <> ": ")
          (ask svc "listServiceOfferings" (("name", svc.to_lower offering.name) ∷ []))
    found ←
        wrap ("Decoding response for service offering " <> svc.quoted offering.name <> ": ")
          (decoded (svc.decode_offerings raw))
    if equal found.count 1
        then (do
          id ← lift (first found.entries)
          put (record vm { service_offering = record offering { id = id } }))
        else fail (
            new (
              "Expected 1 service offering matching "
              <> svc.quoted offering.name
              <> ", but returned "
              <> svc.decimal found.count))

  unfoldable pub fill_security_groups_id : Method Nothing
  unfolding fill_groups
  fill_security_groups_id = do
    raw ← wrap "Getting security groups: " (ask svc "listSecurityGroups" [])
    remotes ← wrap "Decoding response for security groups: " (decoded (svc.decode_groups raw))
    vm ← get
    let filled = fill_groups remotes vm.security_groups
    put (record vm { security_groups = filled.0 })
    elim filled.1 [
      | none ↦ pure tt
      | some name ↦ fail (new ("Could not find security group ID for " <> svc.quoted name))
    ]

  -- The text names the service offering, as the source does.
  pub fill_zone_id : Method Nothing
  unfolding match_zone
  fill_zone_id = do
    vm ← get
    let zone = vm.zone
    raw ←
        wrap ("Getting zones ID for " <> svc.quoted vm.service_offering.name <> ": ")
          (ask svc "listZones" (("name", svc.to_lower zone.name) ∷ []))
    zones ← wrap "Decoding response for zones list: " (decoded (svc.decode_zones raw))
    elim (match_zone zone.name zones) [
      | none ↦ fail (new ("Zone ID for " <> svc.quoted zone.name <> " could not be found"))
      | some id ↦ put (record vm { zone = record zone { id = id } })
    ]
