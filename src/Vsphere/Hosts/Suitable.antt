-- ===== src/Vsphere/Hosts/Suitable.antt =====
-- The host on which a machine is placed has its networks and its datastore.
use libretto.Base.{
  Among, All, ◌≡◌, refl, ℕ, zero, suc, String, Bool, true, false, List, [], ◌∷◌, ◌==◌, ◌&&◌, ◌||◌,
  ◌⊎◌, inl, inr, if◌then◌else◌, Bool-cases, eq_iff, subst,
}
use libretto.Go.Result.{answer}
use libretto.Go.Action.{World, pure, lift}
use libretto.Go.Yields.{
  Yields, Yields-pure, Yields-fail, Yields-panic, Yields-if, Yields-then, Yields-request,
  Yields-map,
}
use libretto.Vsphere.Types.{Mor, Vm, Network}
use libretto.Vsphere.Api.{Cloud, Call, MoHost}
use libretto.Util.{nth}
use libretto.Vsphere.Hosts.{
  member, get_network_name, named, network_names, has_networks, has_datastore, validate_host, kept,
  filter_hosts,
}

module _ {F : Type 0} (cloud : Cloud F) where
  -- The server names one of these objects so.
  abbrev pub HasName : List Mor → String → Type 0
  HasName mors name =
      (mor : Mor) × (log : List Call) × Among mor mors × (cloud.name_of log mor ≡ answer name)

  -- The host has each network of the machine, and its datastore where it has one.
  abbrev pub IsSuitable : Vm F → Mor → Type 0
  IsSuitable vm host =
      (hs : MoHost) × (log : List Call) × (cloud.host_of log host ≡ answer hs)
      × All (λ (nw : Network). HasName hs.network nw.name) vm.networks
      × ((vm.datastore ≡ "") ⊎ HasName hs.datastore vm.datastore)

  HasName-later :
      (mor : Mor) (mors : List Mor) (name : String) → HasName mors name → HasName (mor ∷ mors) name
  HasName-later mor mors name (found, log, among, e) = (found, log, inr among, e)

  abbrev Names : List Mor → List String → Type 0
  Names mors names = (name : String) → member name names ≡ true → HasName mors name

  IsName : Mor → String → Type 0
  IsName mor name = (log : List Call) × (cloud.name_of log mor ≡ answer name)

  get_network_name-IsName : (mor : Mor) → Yields (IsName mor) (get_network_name cloud mor)
  unfolding get_network_name IsName
  get_network_name-IsName mor =
      Yields-if ((mor.type == "Network") || (mor.type == "DistributedVirtualPortgroup")) _ _
        (Yields-request _ _) (Yields-fail _)

  named-IsName :
      (mor : Mor) (name : String) → IsName mor name → Yields (IsName mor) (named cloud mor name)
  named-IsName mor name h = Yields-if (name == "") _ _ (Yields-fail _) (Yields-pure name h)

  Names-more :
      (mor : Mor) (mors : List Mor) (name : String) (names : List String)
      → IsName mor name
      → Names mors names
      → Names (mor ∷ mors) (name ∷ names)
  unfolding IsName
  Names-more mor mors name names (log, e) h sought t = elim (Bool-cases (name == sought)) [
    | inl same ↦
        let q = (eq_iff name sought).0 same in
        (mor, log, inl refl, subst (λ s. cloud.name_of log mor ≡ answer s) q e)
    | inr other ↦
        HasName-later mor mors sought
          (h sought (subst (λ b. (b || member sought names) ≡ true) other t))
  ]

  network_names-Names : (mors : List Mor) → Yields (Names mors) (network_names cloud mors)
  unfolding network_names
  network_names-Names [] = Yields-pure [] (λ name h. absurd (cc))
  network_names-Names (mor ∷ mors) =
      Yields-then (IsName mor) _ _ (get_network_name-IsName mor) λ name h.
        Yields-then (IsName mor) _ _ (named-IsName mor name h) λ checked k.
          Yields-then (Names mors) _ _ (network_names-Names mors)
            λ names m. Yields-pure (checked ∷ names) (Names-more mor mors checked names k m)

  has_networks-All :
      (mors : List Mor) (nws : List Network) (names : List String)
      → Names mors names
      → has_networks cloud nws names ≡ true
      → All (λ (nw : Network). HasName mors nw.name) nws
  unfolding has_networks
  has_networks-All mors [] names h t = tt
  has_networks-All mors (nw ∷ nws) names h t = elim (Bool-cases (member nw.name names)) [
    | inl m ↦ (
      h nw.name m,
      has_networks-All mors nws names h
          (subst (λ b. (if b then has_networks cloud nws names else false) ≡ true) m t),
    )
    | inr m ↦
        absurd (cc (subst (λ b. (if b then has_networks cloud nws names else false) ≡ true) m t))
  ]

  has_datastore-either :
      (name : String) (mor : Mor) (mors : List Mor) (found : String)
      → (log : List Call) × (cloud.name_of log mor ≡ answer found)
      → Yields (λ b. b ≡ true → HasName mors name) (has_datastore cloud name mors)
      → Yields
          (λ b. b ≡ true → HasName (mor ∷ mors) name)
          (if found == name then pure true else has_datastore cloud name mors)
  has_datastore-either name mor mors found (log, e) rest = elim (Bool-cases (found == name)) [
    | inl t ↦
        let q = (eq_iff found name).0 t in
        rw t (
          Yields-pure true
            (λ _. (mor, log, inl refl, subst (λ s. cloud.name_of log mor ≡ answer s) q e)))
    | inr f ↦ rw f (Yields-map (λ b h t. HasName-later mor mors name (h t)) rest)
  ]

  has_datastore-HasName :
      (name : String) (mors : List Mor)
      → Yields (λ b. b ≡ true → HasName mors name) (has_datastore cloud name mors)
  unfolding has_datastore
  has_datastore-HasName name [] = Yields-pure false (λ e. absurd (cc))
  has_datastore-HasName name (mor ∷ mors) =
      Yields-then (λ found. (log : List Call) × (cloud.name_of log mor ≡ answer found)) _ _
        (Yields-request _ _)
        λ found seen.
          has_datastore-either name mor mors found seen (has_datastore-HasName name mors)

  both : (a b : Bool) → (a && b) ≡ true → (a ≡ true) × (b ≡ true)
  both true b h = (refl, h)
  both false b h = absurd (cc)

  pub validate_host-IsSuitable :
      (vm : Vm F) (host : Mor)
      → Yields (λ b. b ≡ true → IsSuitable vm host) (validate_host cloud vm host)
  unfolding validate_host
  validate_host-IsSuitable vm host =
      Yields-then (λ hs. (log : List Call) × (cloud.host_of log host ≡ answer hs)) _ _
        (Yields-request _ _)
        λ hs seen. Yields-then (Names hs.network) _ _ (network_names-Names hs.network) λ names h.
          elim (Bool-cases (vm.datastore == "")) [
            | inl t ↦ rw t (
                Yields-pure (has_networks cloud vm.networks names) λ valid. (
                  hs,
                  seen.0,
                  seen.1,
                  has_networks-All hs.network vm.networks names h valid,
                  inl ((eq_iff vm.datastore "").0 t),
                ))
            | inr f ↦ rw f (
                Yields-then (λ b. b ≡ true → HasName hs.datastore vm.datastore) _ _
                  (has_datastore-HasName vm.datastore hs.datastore)
                  λ found k. Yields-pure (has_networks cloud vm.networks names && found) λ valid.
                    let parts = both (has_networks cloud vm.networks names) found valid in
                    (
                      hs,
                      seen.0,
                      seen.1,
                      has_networks-All hs.network vm.networks names h parts.0,
                      inr (k parts.1),
                    ))
          ]

  kept-All :
      (vm : Vm F) (host : Mor) (valid : Bool) (hosts : List Mor)
      → (valid ≡ true → IsSuitable vm host)
      → All (IsSuitable vm) hosts
      → All (IsSuitable vm) (kept cloud host valid hosts)
  kept-All vm host true hosts h all = (h refl, all)
  kept-All vm host false hosts h all = all

  pub filter_hosts-All :
      (vm : Vm F) (hosts : List Mor) → Yields (All (IsSuitable vm)) (filter_hosts cloud vm hosts)
  unfolding filter_hosts
  filter_hosts-All vm [] = Yields-pure [] tt
  filter_hosts-All vm (host ∷ hosts) =
      Yields-then (λ b. b ≡ true → IsSuitable vm host) _ _ (validate_host-IsSuitable vm host)
        λ valid h.
          Yields-then (All (IsSuitable vm)) _ _ (filter_hosts-All vm hosts)
            λ rest all. Yields-pure _ (kept-All vm host valid rest h all)

  pub nth-IsSuitable :
      (vm : Vm F) (hosts : List Mor) (i : ℕ)
      → All (IsSuitable vm) hosts
      → Yields {S = World (Vm F) Call} (IsSuitable vm) (lift (nth hosts i))
  nth-IsSuitable vm [] i all = Yields-panic
  nth-IsSuitable vm (host ∷ hosts) zero all = Yields-pure host all.0
  nth-IsSuitable vm (host ∷ hosts) (suc i) all = nth-IsSuitable vm hosts i all.1
