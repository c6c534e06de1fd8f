-- ===== src/Gcp/Firewalls/Removal.antt =====
-- What the loops of removeFirewallRules of virtualmachine/gcp/util.go leave.
use libretto.Base.{
  String, Bool, true, false, Option, none, some, List, [], ◌∷◌, ◌++◌, ◌≡◌, refl, sym, ap, ◌∙◌, ◌==◌,
  ◌||◌, ◌&&◌, if◌then◌else◌, lookup, eq_iff, Bool-cases, inl, inr, append_assoc, append-nil, arith,
}
use libretto.Gcp.Types.{Vm, Endpoint}
use libretto.Go.Action.{World, ◌>>=◌}
use libretto.Gcp.Api.{Cloud, Call, Allowed}
use libretto.Gcp.Firewalls.{
  member, Ports, record_ports, rem_ports, is_removed, port_loop, no_ports, rule_loop, get_firewall,
  patch, remove_firewall_rules,
}

-- An endpoint of this protocol has the port.
abbrev pub asked : List Endpoint → String → String → Bool
asked [] protocol port = false
asked (endpoint ∷ endpoints) protocol port =
    ((endpoint.protocol == protocol) && member port endpoint.ports) || asked endpoints protocol port

-- The ports of a rule that stay, and the rules that stay.
abbrev pub staying : List Endpoint → String → List String → List String
staying endpoints protocol [] = []
staying endpoints protocol (port ∷ ports) =
    let rest = staying endpoints protocol ports in
    if asked endpoints protocol port then rest else port ∷ rest

abbrev pub remaining : List Endpoint → List Allowed → List Allowed
remaining endpoints [] = []
remaining endpoints (rule ∷ rules) =
    let rest = remaining endpoints rules in
    let ports = staying endpoints rule.ip_protocol rule.ports in
    if no_ports ports then rest else record rule { ports = ports } ∷ rest

or_assoc : (a b c : Bool) → (a || (b || c)) ≡ ((a || b) || c)
or_assoc true b c = refl
or_assoc false b c = refl

or_false : (a : Bool) → (a || false) ≡ a
or_false true = refl
or_false false = refl

-- What the first recursion adds comes last in the second.
or_swap : (a b c : Bool) → (a || (b || c)) ≡ ((b || a) || c)
or_swap true true c = refl
or_swap true false c = refl
or_swap false true c = refl
or_swap false false c = refl

member-append :
    (port : String) (xs ys : List String)
    → member port (xs ++ ys) ≡ (member port xs || member port ys)
unfolding member
member-append port [] ys = refl
member-append port (x ∷ xs) ys = rw (member-append port xs ys) (or_assoc (x == port) _ _)

-- The key that is looked up is this entry's, or not.
found_new :
    (b : Bool) (port : String) (ports : List String)
    → (elim (if b then some ports else none) as (λ x. Bool) [
      | none ↦ false
      | some ps ↦ member port ps
    ])
      ≡ ((b && member port ports) || false)
found_new true port ports = sym (or_false (member port ports))
found_new false port ports = refl

found_same :
    (b : Bool) (port : String) (ports old : List String) (rest : Option (List String))
    → (elim (if b then some (ports ++ old) else rest) as (λ x. Bool) [
      | none ↦ false
      | some ps ↦ member port ps
    ])
      ≡ ((b && member port ports) || (elim (if b then some old else rest) as (λ x. Bool) [
        | none ↦ false
        | some ps ↦ member port ps
      ]))
found_same true port ports old rest = member-append port ports old
found_same false port ports old rest = refl

different :
    (p q protocol : String) → (p == q) ≡ false → (p == protocol) ≡ true → (q == protocol) ≡ false
different p q protocol other e = elim (Bool-cases (q == protocol)) [
  | inl same ↦
      let p≡q : p ≡ q = (eq_iff p protocol).0 e ∙ sym ((eq_iff q protocol).0 same) in
      absurd (ground (arith, (eq_iff p q).1 p≡q))
  | inr unlike ↦ unlike
]

record_ports-is_removed :
    (q : String) (ports : List String) (m : Ports) (protocol port : String)
    → is_removed (record_ports q ports m) protocol port
      ≡ (((q == protocol) && member port ports) || is_removed m protocol port)
unfolding record_ports is_removed
record_ports-is_removed q ports [] protocol port = found_new (q == protocol) port ports
record_ports-is_removed q ports ((p, old) ∷ m) protocol port = elim (Bool-cases (p == q)) [
  | inl same ↦
      rw (same, sym ((eq_iff p q).0 same))
        (found_same (p == protocol) port ports old (lookup protocol m))
  | inr other ↦ elim (Bool-cases (p == protocol)) [
    | inl e ↦ rw (other, is_removed, e, different p q protocol other e) refl
    | inr unlike ↦ rw (other, is_removed, unlike) (record_ports-is_removed q ports m protocol port)
  ]
]

rem_ports-is_removed :
    (endpoints : List Endpoint) (m : Ports) (protocol port : String)
    → is_removed (rem_ports endpoints m) protocol port
      ≡ (asked endpoints protocol port || is_removed m protocol port)
unfolding rem_ports
rem_ports-is_removed [] m protocol port = refl
rem_ports-is_removed (endpoint ∷ endpoints) m protocol port =
    rem_ports-is_removed endpoints (record_ports endpoint.protocol endpoint.ports m) protocol port
    ∙ ap (λ b. asked endpoints protocol port || b)
        (record_ports-is_removed endpoint.protocol endpoint.ports m protocol port)
    ∙ or_swap (asked endpoints protocol port) _ _

-- A round of a loop that keeps its entry or skips it.
round_step :
    {A : Type 0} (b : Bool) (x : A) (front rest : List A) (loop : List A → List A)
    → ((more : List A) → loop more ≡ (more ++ rest))
    → (elim b as (λ b. List A) [ true ↦ loop front | false ↦ loop (front ++ (x ∷ [])) ])
      ≡ (front ++ (if b then rest else x ∷ rest))
round_step true x front rest loop h = h front
round_step false x front rest loop h = h (front ++ (x ∷ [])) ∙ append_assoc front (x ∷ []) rest

module _ (endpoints : List Endpoint) where
  abbrev removed : Ports
  removed = rem_ports endpoints []

  is_removed-asked :
      (protocol port : String) → is_removed removed protocol port ≡ asked endpoints protocol port
  unfolding is_removed
  is_removed-asked protocol port =
      rem_ports-is_removed endpoints [] protocol port ∙ or_false (asked endpoints protocol port)

  port_loop-staying :
      (protocol : String) (front ports : List String)
      → port_loop removed protocol front ports ≡ (front ++ staying endpoints protocol ports)
  unfolding port_loop
  port_loop-staying protocol front [] = sym (append-nil front)
  port_loop-staying protocol front (port ∷ ports) =
      rw (port_loop, is_removed-asked protocol port)
        (round_step (asked endpoints protocol port) port front (staying endpoints protocol ports)
          (λ more. port_loop removed protocol more ports)
          (λ more. port_loop-staying protocol more ports))

  rule_loop-remaining :
      (front rules : List Allowed)
      → rule_loop removed front rules ≡ (front ++ remaining endpoints rules)
  unfolding rule_loop
  rule_loop-remaining front [] = sym (append-nil front)
  rule_loop-remaining front (rule ∷ rules) =
      let ports = port_loop removed rule.ip_protocol [] rule.ports in
      let rest = remaining endpoints rules in
      round_step (no_ports ports) (record rule { ports = ports }) front rest
        (λ more. rule_loop removed more rules) (λ more. rule_loop-remaining more rules)
      ∙ ap (λ ps. front ++ (if no_ports ps then rest else record rule { ports = ps } ∷ rest))
          (port_loop-staying rule.ip_protocol [] rule.ports)

-- removeFirewallRules sends the rules that a filter gives: each rule of the firewall with those of its
-- ports that no endpoint of its protocol has, in the rules' order, without the rules that have no port
-- left. A rule that had no port in the first place, and so allowed them all, is dropped too.
pub remove_firewall_rules-remaining :
    (svc : Cloud) (w : World Vm Call)
    → remove_firewall_rules svc w
      ≡ (get_firewall svc >>= λ rules. patch svc (remaining w.vm.endpoints rules)) w
unfolding remove_firewall_rules get_firewall
remove_firewall_rules-remaining svc w =
    λ i. (get_firewall svc >>= λ rules. patch svc (rule_loop-remaining w.vm.endpoints [] rules i)) w
