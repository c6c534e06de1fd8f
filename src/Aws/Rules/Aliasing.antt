-- ===== src/Aws/Rules/Aliasing.antt =====
-- What the shared loop variables do to the rules of a request.
use libretto.Base.{
  ◌≡◌, refl, ap, sym, subst, ◌∙◌, String, some, List, [], ◌∷◌, ◌++◌, map, All, arith,
}
use mathlib.Core.List.{map-append}
use libretto.Aws.Types.{IpPermission}
use libretto.Aws.Api.{Ec2IpPermission}
use libretto.Aws.Rules.{last_or, alias_all, to_ec2, to_ec2_ip_permissions, protocols}
use libretto.Aws.Rules.Loops.{alias_all-map, to_ec2_ip_permissions-map}

pub last_or-append : (z x : String) (xs : List String) → last_or z (xs ++ x ∷ []) ≡ x
unfolding last_or
last_or-append z x [] = refl
last_or-append z x (y ∷ ys) = last_or-append y x ys

module _ {A B : Type 0} where
  pub All-map :
      (f : A → B) (P : B → Type 0) → ((a : A) → P (f a)) → (xs : List A) → All P (map f xs)
  All-map f P h [] = tt
  All-map f P h (x ∷ xs) = (h x, All-map f P h xs)

to_ec2-protocol :
    (protocol : String) (p : IpPermission) → (to_ec2 protocol p).ip_protocol ≡ some protocol
unfolding to_ec2
to_ec2-protocol protocol p = ground arith

all_protocols :
    (ps : List IpPermission) (p : IpPermission)
    → All
        (λ (e : Ec2IpPermission). e.ip_protocol ≡ some p.ip_protocol)
        (map (to_ec2 (last_or "" (protocols (ps ++ p ∷ [])))) (ps ++ p ∷ []))
all_protocols ps p =
    All-map (to_ec2 (last_or "" (protocols (ps ++ p ∷ [])))) _
      (λ q.
        to_ec2-protocol _ q
        ∙ ap some (
            ap (last_or "") (map-append _ ps (p ∷ []))
            ∙ last_or-append "" p.ip_protocol (protocols ps)))
      (ps ++ p ∷ [])

-- Whatever rules are asked for, every rule of the request has the protocol of the last one.
pub protocols_aliased :
    (ps : List IpPermission) (p : IpPermission)
    → All
        (λ (e : Ec2IpPermission). e.ip_protocol ≡ some p.ip_protocol)
        (to_ec2_ip_permissions (ps ++ p ∷ []))
protocols_aliased ps p =
    subst (All (λ (e : Ec2IpPermission). e.ip_protocol ≡ some p.ip_protocol))
      (sym (to_ec2_ip_permissions-map (ps ++ p ∷ []))) (all_protocols ps p)

-- Whatever ranges a loop is given, every address range that it makes is the last one of them.
pub ranges_aliased :
    (rs : List String) (r : String) → All (λ o. o ≡ some r) (alias_all (rs ++ r ∷ []))
ranges_aliased rs r = subst (All (λ o. o ≡ some r)) (sym (alias_all-map (rs ++ r ∷ []))) (
    All-map (λ (x : String). some (last_or "" (rs ++ r ∷ []))) _
      (λ x. ap some (last_or-append "" r rs)) (rs ++ r ∷ []))
