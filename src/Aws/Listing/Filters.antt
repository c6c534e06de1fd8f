-- ===== src/Aws/Listing/Filters.antt =====
-- The filters of a request, and the entries of an answer.
use libretto.Base.{◌≡◌, refl, ap, ◌∙◌, String, Option, some, List, [], ◌∷◌, ◌++◌, map, All, arith}
use mathlib.Core.List.{map-append}
use libretto.Go.Result.{Result, ok, ◌>>=◌, collect, Reply, answer, failure, bind-ok}
use libretto.Go.Action.{World}
use libretto.Aws.Types.{Vm, Subnet}
use libretto.Aws.Api.{Ec2, Call, Filter}
use libretto.Aws.Rules.{last_or}
use libretto.Aws.Rules.Aliasing.{last_or-append, All-map}
use libretto.Aws.Listing.{Catalog, SubnetOutput, get_filters, get_subnet_list, to_subnet}

abbrev Entry : Type 0
Entry = String × List (Option String)

-- Whatever filters the VM has, every filter of the request is on the key that `range` visits last.
pub filters_aliased :
    (m : List Entry) (key : String) (values : List (Option String))
    → All (λ (f : Filter). f.name ≡ key) (get_filters (m ++ (key, values) ∷ []))
unfolding get_filters
filters_aliased m key values =
    All-map _ _
      (λ e.
        ap (last_or "") (map-append (λ (x : Entry). x.0) m ((key, values) ∷ []))
        ∙ last_or-append "" key (map (λ (x : Entry). x.0) m))
      (m ++ (key, values) ∷ [])

collect-map :
    {A B C : Type 0} (f : A → Result B) (g : A → C) (h : B → C)
    → ((x : A) (y : B) → f x ≡ ok y → g x ≡ h y)
    → (xs : List A) (ys : List B) → collect f xs ≡ ok ys
    → map g xs ≡ map h ys
unfolding collect
collect-map f g h same [] ys e = ap (map h) {x = []} (cc)
collect-map f g h same (x ∷ xs) ys e =
    let (y, ey, e1) = bind-ok (f x) (λ b. collect f xs >>= λ bs. ok (b ∷ bs)) e in
    let (zs, ez, e2) = bind-ok (collect f xs) (λ bs. ok (y ∷ bs)) e1 in
    let same_tail = collect-map f g h same xs zs ez in
    let all : y ∷ zs ≡ ys = cc in rw (same x y ey, same_tail) (ap (map h) all)

to_subnet-id : (o : SubnetOutput) (s : Subnet) → to_subnet o ≡ ok s → o.subnet_id ≡ some s.id
unfolding to_subnet
to_subnet-id o s h = ground arith

module _ (svc : Ec2) (catalog : Catalog) (w : World Vm Call) {subnets : List Subnet} where
  subnet_list_answer :
      (r : Reply (List SubnetOutput))
      → catalog.subnets w.log (get_filters w.vm.filters) ≡ r
      → (get_subnet_list svc catalog w).0 ≡ ok subnets
      → (outs : List SubnetOutput) × (r ≡ answer outs) × (collect to_subnet outs ≡ ok subnets)
  unfolding get_subnet_list
  subnet_list_answer (failure e) q h = absurd (ground arith)
  subnet_list_answer (answer outs) q h = (outs, refl, ground arith)

  -- Where GetSubnetList returns subnets, they are those of the answer to the request with the VM's
  -- filters: one for each entry, in its order, with the entry's id.
  pub get_subnet_list-ok :
      (get_subnet_list svc catalog w).0 ≡ ok subnets
      → (outs : List SubnetOutput) × (catalog.subnets w.log (get_filters w.vm.filters)
          ≡ answer outs)
        × (map (λ (o : SubnetOutput). o.subnet_id) outs ≡ map (λ (s : Subnet). some s.id) subnets)
  get_subnet_list-ok h =
      let (outs, q, c) =
        subnet_list_answer (catalog.subnets w.log (get_filters w.vm.filters)) refl h in
      (
        outs,
        q,
        collect-map to_subnet (λ o. o.subnet_id) (λ s. some s.id) to_subnet-id outs subnets c,
      )
