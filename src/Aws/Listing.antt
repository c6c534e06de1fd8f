-- ===== src/Aws/Listing.antt =====
-- virtualmachine/aws: the operations that list what a region has, and the filters of their requests
-- (util.go). As in Rules.antt, a `range` loop has one variable.
pub mod Filters
use libretto.Base.{String, Bool, Option, List, ◌∷◌, map}
use libretto.Go.Result.{Result, ok, Reply, ◌>>=◌, deref, collect}
use libretto.Go.Action
use libretto.Go.Action.{lift, wrap, request}
use libretto.Aws.Types.{ℤ, Vm, Region, Zone, Vpc, Subnet, SecurityGroup}
use libretto.Aws.Api.{
  Ec2, Call, Method, Filter, Ec2IpPermission, describe_regions, describe_availability_zones,
  describe_vpcs, describe_subnets, describe_security_groups,
}
use libretto.Aws.Service.{with_service}
use libretto.Aws.Rules.{last_or, to_vm_ip_permissions}

-- The fields that the program reads of the SDK's outputs. A CIDR block association is its block.
pub record RegionOutput : Type 0 where
  pub region_name : Option String
  pub endpoint : Option String

pub record ZoneOutput : Type 0 where
  pub zone_name : Option String
  pub state : Option String
  pub region_name : Option String

pub record VpcOutput : Type 0 where
  pub vpc_id : Option String
  pub state : Option String
  pub is_default : Option Bool
  pub dhcp_options_id : Option String
  pub instance_tenancy : Option String
  pub cidr_block_association_set : List (Option String)
  pub ipv6_cidr_block_association_set : List (Option String)

pub record SubnetOutput : Type 0 where
  pub subnet_id : Option String
  pub state : Option String
  pub vpc_id : Option String
  pub cidr_block : Option String
  pub available_ip_address_count : Option ℤ
  pub availability_zone : Option String
  pub default_for_az : Option Bool
  pub map_public_ip_on_launch : Option Bool
  pub ipv6_cidr_block_association_set : List (Option String)

pub record GroupOutput : Type 0 where
  pub group_id : Option String
  pub group_name : Option String
  pub description : Option String
  pub owner_id : Option String
  pub vpc_id : Option String
  pub ip_permissions_egress : List Ec2IpPermission
  pub ip_permissions : List Ec2IpPermission

-- What EC2 answers to the calls that list.
pub record Catalog : Type 0 where
  pub regions : List Call → Reply (List RegionOutput)
  pub zones : List Call → Reply (List ZoneOutput)
  pub vpcs : List Call → Reply (List VpcOutput)
  pub subnets : List Call → List Filter → Reply (List SubnetOutput)
  pub groups : List Call → List Filter → Reply (List GroupOutput)

-- getFilters: each filter holds the address of the loop's key.
unfoldable pub get_filters : List (String × List (Option String)) → List Filter
unfolding last_or
get_filters m =
    let key = last_or "" (map (λ (e : String × List (Option String)). e.0) m) in
    map (λ (e : String × List (Option String)). record { name = key; values = e.1 }) m

unfoldable pub to_region : RegionOutput → Result Region
to_region r = do
  name ← deref r.region_name
  endpoint ← deref r.endpoint
  ok (record { name = name; region_endpoint = endpoint })

unfoldable pub to_zone : ZoneOutput → Result Zone
to_zone z = do
  name ← deref z.zone_name
  state ← deref z.state
  region ← deref z.region_name
  ok (record { name = name; state = state; region = region })

unfoldable pub to_vpc : VpcOutput → Result Vpc
to_vpc v = do
  v4 ← collect deref v.cidr_block_association_set
  v6 ← collect deref v.ipv6_cidr_block_association_set
  id ← deref v.vpc_id
  state ← deref v.state
  dhcp ← deref v.dhcp_options_id
  tenancy ← deref v.instance_tenancy
  ok (record {
    id = id;
    state = state;
    is_default = v.is_default;
    ipv4_blocks = v4;
    ipv6_blocks = v6;
    dhcp_options_id = dhcp;
    instance_tenancy = tenancy;
  })

unfoldable pub to_subnet : SubnetOutput → Result Subnet
to_subnet s = do
  v6 ← collect deref s.ipv6_cidr_block_association_set
  id ← deref s.subnet_id
  state ← deref s.state
  vpc ← deref s.vpc_id
  block ← deref s.cidr_block
  zone ← deref s.availability_zone
  default ← deref s.default_for_az
  public_ip ← deref s.map_public_ip_on_launch
  ok (record {
    id = id;
    state = state;
    vpc_id = vpc;
    ipv4_block = block;
    ipv6_blocks = v6;
    available_address_count = s.available_ip_address_count;
    availability_zone = zone;
    default_for_az = default;
    map_public_ip_on_launch = public_ip;
  })

unfoldable pub to_security_group : GroupOutput → Result SecurityGroup
to_security_group g = do
  egress ← to_vm_ip_permissions g.ip_permissions_egress
  ingress ← to_vm_ip_permissions g.ip_permissions
  id ← deref g.group_id
  name ← deref g.group_name
  description ← deref g.description
  owner ← deref g.owner_id
  vpc ← deref g.vpc_id
  ok (record {
    id = id;
    name = name;
    description = description;
    owner_id = owner;
    vpc_id = vpc;
    ip_permissions_egress = egress;
    ip_permissions = ingress;
  })

-- A listing: the call, and the conversion of each entry of its output.
abbrev pub listing :
    {A B : Type 0}
    → Ec2
    → String
    → (Vm → Call)
    → (Vm → List Call → Reply (List A))
    → (A → Result B)
    → Method (List B)
listing svc prefix call reply convert =
    Action.◌>>=◌ (with_service svc "Failed to get AWS service: ") λ vm.
      Action.◌>>=◌ (wrap prefix (request (call vm) (reply vm))) λ outs. lift (collect convert outs)

module _ (svc : Ec2) (catalog : Catalog) where
  pub get_region_list : Method (List Region)
  get_region_list =
      listing svc "Failed to get region list: " (λ vm. describe_regions) (λ vm. catalog.regions)
        to_region

  pub get_availability_zone_list : Method (List Zone)
  get_availability_zone_list =
      listing svc "Failed to get availabilityZone list: " (λ vm. describe_availability_zones)
        (λ vm. catalog.zones) to_zone

  pub get_vpc_list : Method (List Vpc)
  get_vpc_list =
      listing svc "Failed to get VPC list: " (λ vm. describe_vpcs) (λ vm. catalog.vpcs) to_vpc

  unfoldable pub get_subnet_list : Method (List Subnet)
  get_subnet_list =
      listing svc "Failed to get Subnet list: " (λ vm. describe_subnets (get_filters vm.filters))
        (λ vm log. catalog.subnets log (get_filters vm.filters)) to_subnet

  pub get_security_group_list : Method (List SecurityGroup)
  get_security_group_list =
      listing svc "Failed to get SecurityGroup list: "
        (λ vm. describe_security_groups (get_filters vm.filters))
        (λ vm log. catalog.groups log (get_filters vm.filters)) to_security_group
