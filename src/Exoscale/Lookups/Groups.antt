-- ===== src/Exoscale/Lookups/Groups.antt =====
-- What fillSecurityGroupsID of virtualmachine/exoscale/util.go writes, against a relation that says
-- which identifier a group must have.
use libretto.Base.{
  ◌≡◌, refl, ◌≢◌, ◌⊎◌, inl, inr, String, true, false, Option, none, some, List, [], ◌∷◌, ◌==◌, All2,
  Bool-cases, arith, eq_iff,
}
use libretto.Go.Error.{Error}
use libretto.Go.Result.{ok, Reply, answer, failure}
use libretto.Go.Action.{World}
use libretto.Exoscale.Types.{Vm, SecurityGroup}
use libretto.Exoscale.Api.{Cloud, Call, command}
use libretto.Exoscale.Lookups.{new_id, fill_groups, fill_security_groups_id}

-- The identifier of the first remote group with this name.
pub data IsFirst (name : String) : List SecurityGroup → String → Type 0 where
  here : {r : SecurityGroup} {rs : List SecurityGroup} → r.name ≡ name → IsFirst name (r ∷ rs) r.id
  there :
      {r : SecurityGroup} {rs : List SecurityGroup} {id : String}
      → r.name ≢ name
      → IsFirst name rs id
      → IsFirst name (r ∷ rs) id

-- A group keeps the identifier it has; one without gets that of the first remote group of its name.
abbrev pub Resolves : List SecurityGroup → SecurityGroup → SecurityGroup → Type 0
Resolves remotes g new =
    ((g.id ≢ "") × (new ≡ g))
    ⊎ ((g.id ≡ "") × (new.name ≡ g.name) × IsFirst g.name remotes new.id × (new.id ≢ ""))

new_id-IsFirst :
    (name : String) (remotes : List SecurityGroup)
    → new_id name remotes ≢ ""
    → IsFirst name remotes (new_id name remotes)
unfolding new_id
new_id-IsFirst name [] h = absurd (h refl)
new_id-IsFirst name (r ∷ rs) h = elim (Bool-cases (name == r.name)) [
  | inl same ↦ let e : r.name ≡ name = ground (arith, eq_iff name r.name) in rw same (here e)
  | inr other ↦
      let n : r.name ≢ name = λ e. ground (arith, eq_iff name r.name) in
      rw other (there n (new_id-IsFirst name rs (rw other at h)))
]

unset : (s : String) → (s == "") ≡ true → s ≡ ""
unset s h = ground (arith, eq_iff s "")

set : (s : String) → (s == "") ≡ false → s ≢ ""
set s h e = ground (arith, eq_iff s "")

fill_groups-Resolves :
    (remotes gs : List SecurityGroup)
    → (fill_groups remotes gs).1 ≡ none
    → All2 (Resolves remotes) gs (fill_groups remotes gs).0
unfolding fill_groups
fill_groups-Resolves remotes [] h = tt
fill_groups-Resolves remotes (g ∷ gs) h = elim (Bool-cases (g.id == "")) [
  | inr has ↦ rw has (inl (set g.id has, refl), fill_groups-Resolves remotes gs (rw has at h))
  | inl blank ↦ elim (Bool-cases (new_id g.name remotes == "")) [
    | inl missing ↦ absurd (cc (rw (blank, missing) at h))
    | inr found ↦
        let n = set (new_id g.name remotes) found in
        rw (blank, found)
          (
            inr (unset g.id blank, refl, new_id-IsFirst g.name remotes n, n),
            fill_groups-Resolves remotes gs (rw (blank, found) at h),
          )
  ]
]

module _ (svc : Cloud) (w : World Vm Call) where
  abbrev answered : String × Option Error
  answered = svc.request w.log (command "listSecurityGroups" [])

  after_reply :
      (e : Option Error) (reply : Reply (List SecurityGroup))
      → answered.1 ≡ e
      → svc.decode_groups answered.0 ≡ reply
      → (fill_security_groups_id svc w).0 ≡ ok tt
      → (remotes : List SecurityGroup) × (reply ≡ answer remotes)
        × ((fill_groups remotes w.vm.security_groups).1 ≡ none)
        × ((fill_security_groups_id svc w).1.vm.security_groups
            ≡ (fill_groups remotes w.vm.security_groups).0)
  unfolding fill_security_groups_id
  after_reply (some x) reply a d h = absurd (ground arith)
  after_reply none (failure x) a d h = absurd (ground arith)
  after_reply none (answer remotes) a d h = (remotes, refl, ground arith, ground arith)

  -- Where fillSecurityGroupsID returns nil, each group of the VM that had an identifier has kept it,
  -- and each other has that of the first group of its name in Exoscale's answer, which is not empty.
  pub fill_security_groups_id-Resolves :
      (fill_security_groups_id svc w).0 ≡ ok tt
      → (remotes : List SecurityGroup) × (svc.decode_groups answered.0 ≡ answer remotes)
        × All2
            (Resolves remotes)
            w.vm.security_groups
            (fill_security_groups_id svc w).1.vm.security_groups
  fill_security_groups_id-Resolves h =
      let (remotes, d, all, kept) =
        after_reply answered.1 (svc.decode_groups answered.0) refl refl h in
      (remotes, d, rw kept (fill_groups-Resolves remotes w.vm.security_groups all))
