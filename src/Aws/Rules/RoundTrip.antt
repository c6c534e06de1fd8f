-- ===== src/Aws/Rules/RoundTrip.antt =====
-- When the rules of a request read back as the rules that were asked for.
use libretto.Base.{◌≡◌, refl, ap, ◌∙◌, String, some, List, [], ◌∷◌, map, All, arith, ◌⊎◌}
use libretto.Go.Result.{Result, ok, deref, collect}
use libretto.Aws.Types.{IpPermission}
use libretto.Aws.Rules.{
  last_or, alias_all, to_ec2, from_ec2, to_ec2_ip_permissions, to_vm_ip_permissions, protocols,
}
use libretto.Aws.Rules.Loops.{alias_all-map, to_ec2_ip_permissions-map}

-- A list whose entries are all this one.
abbrev pub AllSame : String → List String → Type 0
AllSame r = All (λ x. x ≡ r)

last_or-same : (z r : String) (xs : List String) → z ≡ r → AllSame r xs → last_or z xs ≡ r
unfolding last_or
last_or-same z r [] e h = e
last_or-same z r (x ∷ xs) e h = last_or-same x r xs h.0 h.1

map-same :
    (r : String) (xs : List String) → AllSame r xs → map (λ (x : String). some r) xs ≡ map some xs
map-same r [] h = refl
map-same r (x ∷ xs) h = rw (h.0, map-same r xs h.1)

alias_all-same : (r : String) (xs : List String) → AllSame r xs → alias_all xs ≡ map some xs
unfolding last_or
alias_all-same r [] h = alias_all-map []
alias_all-same r (x ∷ xs) h =
    alias_all-map (x ∷ xs)
    ∙ ap (λ v. map (λ (y : String). some v) (x ∷ xs)) (last_or-same x r xs h.0 h.1)
    ∙ map-same r (x ∷ xs) h

collect-some : (xs : List String) → collect deref (map some xs) ≡ ok xs
unfolding collect
collect-some [] = refl
collect-some (x ∷ xs) = rw (collect-some xs)

-- A rule that survives the loops: its protocol is the one that all have, its address ranges are
-- all of one kind, and all the same.
pub record IsUniform (protocol : String) (p : IpPermission) : Type 0 where
  pub same_protocol : p.ip_protocol ≡ protocol
  pub one_kind : (p.ipv4_ranges ≡ []) ⊎ (p.ipv6_ranges ≡ [])
  pub range : String
  pub same_ipv4 : AllSame range p.ipv4_ranges
  pub same_ipv6 : AllSame range p.ipv6_ranges

from_ec2-to_ec2 :
    (protocol range : String) (v4 v6 : List String) (p : IpPermission)
    → p.ipv4_ranges ≡ v4
    → p.ipv6_ranges ≡ v6
    → p.ip_protocol ≡ protocol
    → (v4 ≡ []) ⊎ (v6 ≡ [])
    → AllSame range v4
    → AllSame range v6
    → from_ec2 (to_ec2 protocol p) ≡ ok p
unfolding from_ec2 to_ec2 collect
from_ec2-to_ec2 protocol range [] v6 p e4 e6 ep kind h4 h6 =
    ground (arith, alias_all-same range v6 h6, collect-some v6)
from_ec2-to_ec2 protocol range (r ∷ rs) v6 p e4 e6 ep kind h4 h6 =
    ground (arith, alias_all-same range (r ∷ rs) h4, collect-some (r ∷ rs))

collect-inverse :
    {A B : Type 0} (f : A → B) (g : B → Result A) (P : A → Type 0)
    → ((a : A) → P a → g (f a) ≡ ok a)
    → (xs : List A) → All P xs
    → collect g (map f xs) ≡ ok xs
unfolding collect
collect-inverse f g P inverse [] h = refl
collect-inverse f g P inverse (x ∷ xs) h =
    rw (inverse x h.0) (rw (collect-inverse f g P inverse xs h.1))

last_protocol :
    (z protocol : String) (ps : List IpPermission)
    → All (IsUniform protocol) ps
    → z ≡ protocol
    → last_or z (protocols ps) ≡ protocol
unfolding last_or
last_protocol z protocol [] h e = e
last_protocol z protocol (p ∷ ps) h e =
    last_protocol p.ip_protocol protocol ps h.1 h.0.same_protocol

-- Rules of one protocol, each with equal address ranges of one kind, read back from the request as
-- they were.
pub rules_round_trip :
    (protocol : String) (p : IpPermission) (ps : List IpPermission)
    → All (IsUniform protocol) (p ∷ ps)
    → to_vm_ip_permissions (to_ec2_ip_permissions (p ∷ ps)) ≡ ok (p ∷ ps)
unfolding to_vm_ip_permissions last_or
rules_round_trip protocol p ps h =
    ap (collect from_ec2) (to_ec2_ip_permissions-map (p ∷ ps))
    ∙ ap (λ v. collect from_ec2 (map (to_ec2 v) (p ∷ ps)))
        (last_protocol p.ip_protocol protocol ps h.1 h.0.same_protocol)
    ∙ collect-inverse (to_ec2 protocol) from_ec2 (IsUniform protocol)
        (λ q u.
          from_ec2-to_ec2 protocol u.range q.ipv4_ranges q.ipv6_ranges q refl refl u.same_protocol
            u.one_kind u.same_ipv4 u.same_ipv6)
        (p ∷ ps) h
