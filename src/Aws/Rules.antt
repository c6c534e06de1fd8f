-- ===== src/Aws/Rules.antt =====
-- The conversions of security group rules in virtualmachine/aws/util.go, and the operations of vm.go
-- that send them. The program is built with one variable for each `range` loop, as Go was before
-- 1.22: a pointer to it that a round stores reads, after the loop, what the last round left there.
pub mod Loops
pub mod Aliasing
pub mod RoundTrip
use libretto.Base.{String, Option, none, some, List, [], ◌∷◌, map}
use libretto.Go.Result.{Result, ok, ◌>>=◌, deref, first, collect}
use libretto.Go.Action
use libretto.Go.Action.{lift, wrap, request}
use libretto.Aws.Types.{IpPermission, SecurityGroup}
use libretto.Aws.Api.{
  Ec2, Call, Method, Ec2IpPermission, authorize_ingress, authorize_egress, revoke_ingress,
  revoke_egress,
}
use libretto.Aws.Service.{with_service}

-- What a `range` variable holds after the loop: the last entry, or its zero value.
unfoldable pub last_or {ℓ} : {A : Type ℓ} → A → List A → A
last_or z [] = z
last_or z (x ∷ xs) = last_or x xs

-- A `range` loop with one variable, which each round assigns before its body runs. An entry that a
-- round appends may hold the variable's address, so it is a function of what the variable holds when
-- the entry is read. The loop leaves its entries, and the variable.
unfoldable pub range_loop : {A B : Type 0} → (A → A → B) → List A → A → List (A → B) × A
range_loop body [] variable = ([], variable)
range_loop body (x ∷ xs) variable = let rest = range_loop body xs x in (body x ∷ rest.0, rest.1)

-- The entries, read after the loop.
unfoldable pub after_loop : {A B : Type 0} → List (A → B) × A → List B
after_loop (entries, variable) = map (λ entry. entry variable) entries

-- The ranges that one loop makes: each holds the address of the loop's variable.
unfoldable pub alias_all : List String → List (Option String)
unfolding range_loop after_loop
alias_all rs = after_loop (range_loop (λ r variable. some variable) rs "")

-- The rule of one round of toEc2IpPermissions, where `protocol` is what its loop variable's
-- IpProtocol reads in the end.
unfoldable pub to_ec2 : String → IpPermission → Ec2IpPermission
unfolding alias_all
to_ec2 protocol p = elim p.ipv4_ranges [
  | [] ↦ record {
    from_port = p.from_port;
    to_port = p.to_port;
    ip_protocol = some protocol;
    ip_ranges = [];
    ipv6_ranges = alias_all p.ipv6_ranges;
  }
  | r ∷ rs ↦ record {
    from_port = p.from_port;
    to_port = p.to_port;
    ip_protocol = some protocol;
    ip_ranges = alias_all (r ∷ rs);
    ipv6_ranges = [];
  }
]

abbrev pub no_permission : IpPermission
no_permission = record {
  from_port = none;
  to_port = none;
  ip_protocol = "";
  ipv4_ranges = [];
  ipv6_ranges = [];
}

abbrev protocols : List IpPermission → List String
protocols = map (λ (p : IpPermission). p.ip_protocol)

unfoldable pub to_ec2_ip_permissions : List IpPermission → List Ec2IpPermission
unfolding range_loop after_loop to_ec2
to_ec2_ip_permissions ps =
    after_loop (range_loop (λ p variable. to_ec2 variable.ip_protocol p) ps no_permission)

unfoldable pub from_ec2 : Ec2IpPermission → Result IpPermission
from_ec2 p = do
  v4 ← collect deref p.ip_ranges
  v6 ← collect deref p.ipv6_ranges
  protocol ← deref p.ip_protocol
  ok (record {
    from_port = p.from_port;
    to_port = p.to_port;
    ip_protocol = protocol;
    ipv4_ranges = v4;
    ipv6_ranges = v6;
  })

unfoldable pub to_vm_ip_permissions : List Ec2IpPermission → Result (List IpPermission)
unfolding from_ec2
to_vm_ip_permissions = collect from_ec2

-- The first security group of the VM; none panics.
abbrev pub the_group : Ec2 → Method SecurityGroup
the_group svc =
    Action.◌>>=◌ (with_service svc "Failed to get AWS service: ")
      λ vm. lift (first vm.security_groups)

-- One call that changes rules.
abbrev change : Ec2 → String → Call → Method (Unit {0})
change svc prefix c = wrap prefix (request c (λ log. svc.change_rules log c))

pub authorize_security_group : Ec2 → Method (Unit {0})
unfolding to_ec2_ip_permissions
authorize_security_group svc = Action.◌>>=◌ (the_group svc) λ g.
    Action.◌>>◌
      (change svc "Failed to authorize security group ingress rules: "
        (authorize_ingress g.id (to_ec2_ip_permissions g.ip_permissions)))
      (change svc "Failed to authorize security group egress rules: "
        (authorize_egress g.id (to_ec2_ip_permissions g.ip_permissions_egress)))

pub revoke_security_group : Ec2 → Method (Unit {0})
unfolding to_ec2_ip_permissions
revoke_security_group svc = Action.◌>>=◌ (the_group svc) λ g.
    Action.◌>>◌
      (change svc "Failed to revoke security group ingress rules: "
        (revoke_ingress g.id (to_ec2_ip_permissions g.ip_permissions)))
      (change svc "Failed to revoke security group egress rules: "
        (revoke_egress g.id (to_ec2_ip_permissions g.ip_permissions_egress)))
