-- ===== src/Vsphere/Networks/Balance.antt =====
-- reconfigureNetworks edits, removes and adds cards so that there is one for each network.
use libretto.Base.{
  All, ◌≡◌, refl, ap, subst, ◌∙◌, map, ℕ, zero, suc, ◌+◌, ◌-◌, String, true, false, Option, none,
  some, List, [], ◌∷◌, ◌++◌, ◌==◌, lookup, length, arith, Bool-cases, inl, inr, ◌⊎◌, if◌then◌else◌,
  eq_refl,
}
use mathlib.Core.List.{map-append}
use libretto.Go.Result.{ok, of_reply, answer}
use libretto.Go.Action.{World, lift, request, ◌>>=◌, pure}
use libretto.Go.Yields.{
  Yields, Succeeds-ok, Yields-pure, Yields-fail, Yields-if, Yields-then, Yields-bind, Yields-map,
  Yields-both, Yields-request,
}
use libretto.Vsphere.Types.{Mor, Vm, Network}
use libretto.Vsphere.Api.{
  Cloud, Call, Method, Device, DeviceSpec, Operation, add, edit, remove, list_devices,
}
use libretto.Vsphere.Session.{get_datacenter}
use libretto.Vsphere.Hosts.{get_vm_location}
use libretto.Vsphere.Networks.{
  Mapping, is_card, edited, edit_cards, added, add_network_device_spec, get_ethernet_backing,
  add_cards, mapped, map_networks, removal, reconfigure_networks, create_network_mapping,
  name_networks,
}

-- The cards of the three kinds that reconfigureNetworks reads.
abbrev pub cards : List Device → List Device
cards [] = []
cards (d ∷ ds) = if is_card d.kind then d ∷ cards ds else cards ds

-- What a spec does, and to which device.
abbrev pub tag : DeviceSpec → Operation × ℕ
tag spec = (spec.operation, spec.device.key)

-- The first cards are edited, one for each network, and the others are removed.
abbrev pub planned : List Device → ℕ → List (Operation × ℕ)
planned [] n = []
planned (card ∷ more) zero = (remove, card.key) ∷ planned more zero
planned (card ∷ more) (suc n) = (edit, card.key) ∷ planned more n

abbrev pub IsAdd : DeviceSpec → Type 0
IsAdd spec = spec.operation ≡ add

-- This many cards are added.
abbrev pub IsAddition : ℕ → List DeviceSpec → Type 0
IsAddition n specs = All IsAdd specs × (length specs ≡ n)

IsAddition-append :
    (m n : ℕ) (xs ys : List DeviceSpec)
    → IsAddition m xs
    → IsAddition n ys
    → IsAddition (m + n) (xs ++ ys)
IsAddition-append m n [] ys h k = (k.0, omega (arith, h.1, k.1))
IsAddition-append zero n (x ∷ xs) ys h k = absurd (omega (arith, h.1))
IsAddition-append (suc m) n (x ∷ xs) ys h k =
    let rest = IsAddition-append m n xs ys (h.0.1, omega (arith, h.1)) k in
    ((h.0.0, rest.0), omega (arith, rest.1))

-- The mapping has each network.
abbrev HasAll : Mapping → List Network → Type 0
HasAll mapping nws = All (λ (nw : Network). (mor : Mor) × (lookup nw.name mapping ≡ some mor)) nws

module _ {F : Type 0} (cloud : Cloud F) where
  edited-tag :
      (device : Device) (name : String) (found : Option Mor) {mor : Mor}
      → found ≡ some mor
      → Yields (λ specs. map tag specs ≡ (edit, device.key) ∷ []) (edited cloud device name found)
  edited-tag device name none e = absurd (cc)
  edited-tag device name (some mor) e =
      Yields-bind (get_ethernet_backing cloud mor name) _ λ b. Yields-pure _ refl

  -- The specs of these cards, with so many networks, and the networks that are left.
  abbrev IsEdit : List Device → ℕ → List DeviceSpec × List Network → Type 0
  IsEdit cs n r = (map tag r.0 ≡ planned cs n) × (length r.1 ≡ n - length cs)

  edit_cards-IsEdit :
      (mapping : Mapping) (devices : List Device) (nws : List Network)
      → HasAll mapping nws
      → Yields (IsEdit (cards devices) (length nws)) (edit_cards cloud mapping devices nws)
  unfolding edit_cards
  edit_cards-IsEdit mapping [] nws h = Yields-pure ([], nws) (refl, omega arith)
  edit_cards-IsEdit mapping (device ∷ devices) [] h = elim (Bool-cases (is_card device.kind)) [
    | inl t ↦ rw t (
        Yields-then (IsEdit (cards devices) 0) (edit_cards cloud mapping devices []) _
          (edit_cards-IsEdit mapping devices [] h)
          λ r k.
            Yields-pure (removal device ∷ r.0, r.1)
              (ap (λ ts. (remove, device.key) ∷ ts) k.0, omega (arith, k.1)))
    | inr f ↦ rw f (edit_cards-IsEdit mapping devices [] h)
  ]
  edit_cards-IsEdit mapping (device ∷ devices) (nw ∷ nws) h =
      elim (Bool-cases (is_card device.kind)) [
        | inl t ↦ rw t (
            Yields-then (λ specs. map tag specs ≡ (edit, device.key) ∷ [])
              (edited cloud device nw.name (lookup nw.name mapping)) _
              (edited-tag device nw.name (lookup nw.name mapping) h.0.1)
              λ specs q.
                Yields-then (IsEdit (cards devices) (length nws))
                  (edit_cards cloud mapping devices nws) _
                  (edit_cards-IsEdit mapping devices nws h.1)
                  λ r k.
                    Yields-pure (specs ++ r.0, r.1)
                      (
                        map-append tag specs r.0
                            ∙ ap (λ ts. ts ++ map tag r.0) q
                            ∙ ap (λ ts. (edit, device.key) ∷ ts) k.0,
                        omega (arith, k.1),
                      ))
        | inr f ↦ rw f (edit_cards-IsEdit mapping devices (nw ∷ nws) h)
      ]

  add_network_device_spec-IsAdd :
      (mor : Mor) (name : String) → Yields IsAdd (add_network_device_spec cloud mor name)
  unfolding add_network_device_spec
  add_network_device_spec-IsAdd mor name =
      Yields-bind (get_ethernet_backing cloud mor name) _
        λ b. Yields-bind (lift (of_reply (cloud.card_of b))) _ λ d. Yields-pure _ refl

  added-IsAddition :
      (name : String) (found : Option Mor) {mor : Mor}
      → found ≡ some mor
      → Yields (IsAddition 1) (added cloud name found)
  added-IsAddition name none e = absurd (cc)
  added-IsAddition name (some mor) e =
      Yields-then IsAdd (add_network_device_spec cloud mor name) _
        (add_network_device_spec-IsAdd mor name) λ spec h. Yields-pure (spec ∷ []) ((h, tt), refl)

  add_cards-IsAddition :
      (mapping : Mapping) (nws : List Network)
      → HasAll mapping nws
      → Yields (IsAddition (length nws)) (add_cards cloud mapping nws)
  unfolding add_cards
  add_cards-IsAddition mapping [] h = Yields-pure [] (tt, refl)
  add_cards-IsAddition mapping (nw ∷ nws) h =
      Yields-then (IsAddition 1) (added cloud nw.name (lookup nw.name mapping)) _
        (added-IsAddition nw.name (lookup nw.name mapping) h.0.1)
        λ specs a.
          Yields-then (IsAddition (length nws)) (add_cards cloud mapping nws) _
            (add_cards-IsAddition mapping nws h.1)
            λ rest b.
              let both = IsAddition-append 1 (length nws) specs rest a b in
              Yields-pure (specs ++ rest) (both.0, omega (arith, both.1))

  -- The networks that are left are among the machine's.
  abbrev AreLeft : Mapping → List DeviceSpec × List Network → Type 0
  AreLeft mapping r = HasAll mapping r.1

  edit_cards-AreLeft :
      (mapping : Mapping) (devices : List Device) (nws : List Network)
      → HasAll mapping nws
      → Yields (AreLeft mapping) (edit_cards cloud mapping devices nws)
  unfolding edit_cards
  edit_cards-AreLeft mapping [] nws h = Yields-pure ([], nws) h
  edit_cards-AreLeft mapping (device ∷ devices) [] h =
      Yields-if (is_card device.kind) _ _
        (Yields-then (AreLeft mapping) (edit_cards cloud mapping devices []) _
          (edit_cards-AreLeft mapping devices [] h)
          λ r k. Yields-pure (removal device ∷ r.0, r.1) k)
        (edit_cards-AreLeft mapping devices [] h)
  edit_cards-AreLeft mapping (device ∷ devices) (nw ∷ nws) h =
      Yields-if (is_card device.kind) _ _
        (Yields-bind (edited cloud device nw.name (lookup nw.name mapping)) _ λ specs.
          Yields-then (AreLeft mapping) (edit_cards cloud mapping devices nws) _
            (edit_cards-AreLeft mapping devices nws h.1) λ r k. Yields-pure (specs ++ r.0, r.1) k)
        (edit_cards-AreLeft mapping devices (nw ∷ nws) h)

  HasAll-more :
      (name : String) (mor : Mor) (mapping : Mapping) (nws : List Network)
      → HasAll mapping nws
      → HasAll ((name, mor) ∷ mapping) nws
  HasAll-more name mor mapping [] h = tt
  HasAll-more name mor mapping (nw ∷ nws) h =
      (here (Bool-cases (name == nw.name)), HasAll-more name mor mapping nws h.1)
    where
      here :
          (name == nw.name ≡ true) ⊎ (name == nw.name ≡ false)
          → (found : Mor) × (lookup nw.name ((name, mor) ∷ mapping) ≡ some found)
      here (inl t) = (mor, rw t refl)
      here (inr f) = (h.0.0, rw f h.0.1)

  mapped-HasAll :
      (nw : Network) (nws : List Network) (rest : Method F Mapping) (found : Option Mor)
      → Yields (λ m. HasAll m nws) rest
      → Yields (λ m. HasAll m (nw ∷ nws)) (mapped cloud nw.name rest found)
  mapped-HasAll nw nws rest none y = Yields-fail _
  mapped-HasAll nw nws rest (some mor) y =
      Yields-then (λ m. HasAll m nws) rest _ y
        λ m h.
          Yields-pure ((nw.name, mor) ∷ m)
            ((mor, rw (eq_refl nw.name) refl), HasAll-more nw.name mor m nws h)

  map_networks-HasAll :
      (nw_map : Mapping) (nws : List Network)
      → Yields (λ m. HasAll m nws) (map_networks cloud nw_map nws)
  unfolding map_networks
  map_networks-HasAll nw_map [] = Yields-pure [] tt
  map_networks-HasAll nw_map (nw ∷ nws) =
      mapped-HasAll nw nws (map_networks cloud nw_map nws) (lookup nw.name nw_map)
        (map_networks-HasAll nw_map nws)

  -- The specs for these devices and so many networks.
  abbrev pub ArePlanned : List Device → ℕ → List DeviceSpec → Type 0
  ArePlanned devices n specs =
      (changes : List DeviceSpec) × (adds : List DeviceSpec) × (specs ≡ changes ++ adds)
      × (map tag changes ≡ planned (cards devices) n)
      × IsAddition (n - length (cards devices)) adds

  abbrev pub IsBalanced : ℕ → Mor → List DeviceSpec → Type 0
  IsBalanced n self specs =
      (devices : List Device) × (log : List Call) × (cloud.devices_of log self ≡ answer devices)
      × ArePlanned devices n specs

  finished :
      (mapping : Mapping) (devices : List Device) (nws : List Network)
      → HasAll mapping nws
      → Yields (ArePlanned devices (length nws)) (do
        edits ← edit_cards cloud mapping devices nws
        adds ← add_cards cloud mapping edits.1
        pure (edits.0 ++ adds))
  finished mapping devices nws h =
      Yields-then (λ r. IsEdit (cards devices) (length nws) r × AreLeft mapping r)
        (edit_cards cloud mapping devices nws) _
        (Yields-both (edit_cards-IsEdit mapping devices nws h)
          (edit_cards-AreLeft mapping devices nws h))
        λ edits e.
          Yields-then (IsAddition (length edits.1)) (add_cards cloud mapping edits.1) _
            (add_cards-IsAddition mapping edits.1 e.1)
            λ adds a.
              Yields-pure (edits.0 ++ adds)
                (edits.0, adds, refl, e.0.0, subst (λ n. IsAddition n adds) e.0.1 a)

  reconfigure_networks-yields :
      (depth : ℕ) (vm : Vm F) (self : Mor)
      → Yields (IsBalanced (length vm.networks) self) (reconfigure_networks cloud depth vm self)
  unfolding reconfigure_networks create_network_mapping
  reconfigure_networks-yields depth vm self = Yields-bind (get_datacenter cloud) _ λ dc.
      Yields-bind (get_vm_location cloud depth vm dc) _ λ l.
        Yields-then (λ m. HasAll m vm.networks)
          (create_network_mapping cloud vm.networks l.networks) _
          (Yields-bind (name_networks cloud l.networks []) _ λ m. map_networks-HasAll m vm.networks)
          λ mapping h.
            Yields-then
              (λ devices. (log : List Call) × (cloud.devices_of log self ≡ answer devices))
              (request (list_devices self) (λ log. cloud.devices_of log self)) _
              (Yields-request _ _)
              λ devices known.
                Yields-map (λ specs e. (devices, known.0, known.1, e))
                  (finished mapping devices vm.networks h)

  -- Where reconfigureNetworks returns specs, they are these, for the devices that the server has listed:
  -- of the cards of the three kinds that it reads, in order, each is edited as long as there are
  -- networks, and each one behind is removed; then a card is added for each network without one. So of
  -- these kinds and the added ones, one card for each network is left.
  pub reconfigure_networks-IsBalanced :
      (depth : ℕ) (vm : Vm F) (self : Mor) (w : World (Vm F) Call) {specs : List DeviceSpec}
      → (reconfigure_networks cloud depth vm self w).0 ≡ ok specs
      → IsBalanced (length vm.networks) self specs
  reconfigure_networks-IsBalanced depth vm self w e =
      Succeeds-ok (IsBalanced (length vm.networks) self) _
        ((reconfigure_networks-yields depth vm self).at w) e
