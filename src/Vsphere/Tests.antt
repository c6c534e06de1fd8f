-- ===== src/Vsphere/Tests.antt =====
-- Runs of the model of vSphere, and its theorems at inputs.
mod Inventory
use libretto.Base.{
  ◌≡◌, ◌≢◌, refl, ℕ, Bool, true, false, Option, none, some, List, [], ◌∷◌, arith, All2, subst, sym,
  ◌<◌, ◌==◌, if◌then◌else◌, Among, inl, inr,
}
use libretto.Go.Action.{World}
use libretto.Go.Result.{ok, Reply, answer, collect}
use libretto.Vsphere.Types.{Vm, Mor, Disk}
use libretto.Vsphere.Api.{
  Cloud, Call, MoDatacenter, Device, DeviceSpec, MoVm, edit, remove, cancel, shutdown_guest,
  virtual_disk, file, network,
}
use libretto.Vsphere.Paths.{split_path_to_list, path_of}
use libretto.Vsphere.Paths.Parse.{names, split_path_to_list-names}
use libretto.Vsphere.Paths.RoundTrip.{split_path_to_list-path_of}
use libretto.Vsphere.Session.{setup_session, get_datacenter}
use libretto.Vsphere.Search.{search_folders}
use libretto.Vsphere.Search.Ends.{search_folders-found, IsFetched}
use libretto.Vsphere.Mobs.{find_mob, too_deep, find_mob_within}
use libretto.Vsphere.Mobs.Direct.{find_mob-IsDirect, IsDirect}
use libretto.Vsphere.Mobs.Depth.{find_mob_within-ends}
use libretto.Vsphere.Hosts.{get_vm_location}
use libretto.Vsphere.Hosts.Located.{get_vm_location-IsPlaced, IsPlaced}
use libretto.Vsphere.Devices.{diff_disks, resize_and_delete_vols, file_name}
use libretto.Vsphere.Devices.Diff.{diff_disks-added}
use libretto.Vsphere.Devices.Resize.{resize_and_delete_vols-changes, IsChange}
use libretto.Vsphere.Networks.{reconfigure_networks}
use libretto.Vsphere.Networks.Balance.{reconfigure_networks-IsBalanced, IsBalanced}
use libretto.Vsphere.Power.{shut_down}
use libretto.Vsphere.Power.ShutDown.{searched, IsQuery, IsNotRunning, shut_down-stopped}
use libretto.Vsphere.Destroy.{destroy_vm, destroyed}
use libretto.Vsphere.Destroy.Off.{asked, Gone, destroy_vm-off}
use libretto.Vsphere.Provision.{provision}
use libretto.Vsphere.Provision.Fresh.{IsFresh, provision-cloned}
use libretto.Vsphere.Tests.Inventory.{
  mor, device, boot_disk, card, machine_of, small_cloud, new_vm, web_vm, world, dc,
}

path_read :
    split_path_to_list "vms\\/test\\/rec/rec\\/1/rhel\\/template\\/vm"
    ≡ "vms/test/rec" ∷ "rec/1" ∷ "rhel/template/vm" ∷ []
unfolding split_path_to_list
path_read = refl

split_path_to_list-path_of_example :
    split_path_to_list (path_of ("a/b" ∷ "c" ∷ [])) ≡ "a/b" ∷ "c" ∷ []
split_path_to_list-path_of_example =
    split_path_to_list-path_of ("a/b" ∷ "c" ∷ []) (refl, tt) (λ e. cc)

web_found :
    (search_folders small_cloud 2 "prod/web"
      (mor "Folder" "vms")
      "prod"
      ("web" ∷ [])
      (world web_vm)).0
    ≡ ok (some (machine_of "web"))
unfolding search_folders
web_found = refl

search_folders-found_example :
    (mo : MoVm) × (Path (Option MoVm) (some (machine_of "web")) (some mo))
    × IsFetched small_cloud "web" mo
search_folders-found_example =
    search_folders-found small_cloud 2 "prod/web" (mor "Folder" "vms") "prod" ("web" ∷ [])
      (world web_vm) (omega arith) web_found

host_found :
    (find_mob small_cloud 2 (mor "Folder" "hosts") "esx" (world new_vm)).0
    ≡ ok (mor "ComputeResource" "esx")
unfolding find_mob
host_found = refl

find_mob-IsDirect_example :
    (children : List Mor) × (small_cloud.children_of [] (mor "Folder" "hosts") ≡ answer children)
    × IsDirect small_cloud "esx" children (mor "ComputeResource" "esx")
find_mob-IsDirect_example =
    find_mob-IsDirect small_cloud "esx" 2 (mor "Folder" "hosts") (world new_vm) host_found

host_located :
    (get_vm_location small_cloud 2 new_vm dc (world new_vm)).0
    ≡ ok (record {
      host = some (mor "HostSystem" "host-1");
      resource_pool = mor "ResourcePool" "pool";
      networks = mor "Network" "lan" ∷ [];
    })
unfolding get_vm_location
host_located = refl

get_vm_location-IsPlaced_example : IsPlaced small_cloud new_vm (record {
  host = some (mor "HostSystem" "host-1");
  resource_pool = mor "ResourcePool" "pool";
  networks = mor "Network" "lan" ∷ [];
})
get_vm_location-IsPlaced_example =
    get_vm_location-IsPlaced small_cloud new_vm 2 dc (world new_vm) host_located

abbrev grown : Disk ℕ
grown = record {
  size = 200;
  controller = "";
  provisioning = "";
  datastore = "";
  disk_file = "boot.vmdk";
}

abbrev data_disk : Device
data_disk = device 2001 virtual_disk (file "data.vmdk" none none) 50

abbrev new_specs : List (Option DeviceSpec)
new_specs =
    some (record { operation = edit; device = record boot_disk { capacity_in_kb = 200 } })
    ∷ some (record { operation = remove; device = data_disk })
    ∷ []

disks_resized :
    resize_and_delete_vols small_cloud (boot_disk ∷ card ∷ data_disk ∷ []) (grown ∷ [])
    ≡ ok new_specs
unfolding resize_and_delete_vols
disks_resized = refl

resize_and_delete_vols-changes_example :
    All2 (IsChange small_cloud (grown ∷ [])) (boot_disk ∷ data_disk ∷ []) new_specs
resize_and_delete_vols-changes_example =
    resize_and_delete_vols-changes small_cloud (boot_disk ∷ card ∷ data_disk ∷ []) (grown ∷ [])
      disks_resized

diff_disks-added_example :
    diff_disks (boot_disk ∷ card ∷ data_disk ∷ []) (boot_disk ∷ card ∷ [])
    ≡ collect (λ (d : Device). file_name d.backing) (data_disk ∷ [])
diff_disks-added_example = diff_disks-added (boot_disk ∷ card ∷ []) (data_disk ∷ []) (refl, tt)

abbrev one_edit : List DeviceSpec
one_edit =
    record {
      operation = edit;
      device = record card { backing = network "lan" (some (mor "Network" "lan")) };
    }
    ∷ []

card_edited :
    (reconfigure_networks small_cloud 2 new_vm (mor "VirtualMachine" "base") (world new_vm)).0
    ≡ ok one_edit
unfolding reconfigure_networks
card_edited = refl

reconfigure_networks-IsBalanced_example :
    IsBalanced small_cloud 1 (mor "VirtualMachine" "base") one_edit
reconfigure_networks-IsBalanced_example =
    reconfigure_networks-IsBalanced small_cloud 2 new_vm (mor "VirtualMachine" "base")
      (world new_vm) card_edited

web_stopped : (shut_down small_cloud (world web_vm)).0 ≡ ok tt
unfolding shut_down
web_stopped = refl

shut_down-stopped_example :
    (mo : MoVm) × ((searched small_cloud (world web_vm)).0 ≡ ok mo)
    × (small_cloud.guest_reply (searched small_cloud (world web_vm)).1.log (shutdown_guest mo.self)
        ≡ answer tt)
    × ((u : World (Vm ℕ) Call) × IsQuery small_cloud (world web_vm) mo u
        × (u.vm ≡ web_vm)
        × IsNotRunning small_cloud u)
shut_down-stopped_example = shut_down-stopped small_cloud (world web_vm) web_stopped

web_destroyed : (destroy_vm small_cloud 1 (world web_vm)).0 ≡ ok destroyed
unfolding destroy_vm setup_session
web_destroyed = refl

destroy_vm-off_example :
    (log : List Call) × ((destroy_vm small_cloud 1 (world web_vm)).1.log ≡ cancel ∷ log)
    × Gone small_cloud web_vm (asked small_cloud (world web_vm)) log
destroy_vm-off_example = destroy_vm-off small_cloud (world web_vm) 1 web_destroyed

new_provisioned : (provision small_cloud 2 (world new_vm)).0 ≡ ok tt
unfolding provision
new_provisioned = refl

provision-cloned_example :
    (datacenter : MoDatacenter) × ((get_datacenter small_cloud
        (setup_session small_cloud (world new_vm)).1).0
      ≡ ok datacenter)
    × IsFresh small_cloud 2 new_vm datacenter
        (get_datacenter small_cloud (setup_session small_cloud (world new_vm)).1).1
provision-cloned_example = provision-cloned small_cloud 2 (world new_vm) new_provisioned

-- A server with one folder in another.
abbrev below_hosts : Bool → List Mor
below_hosts true = mor "Folder" "racks" ∷ mor "ComputeResource" "esx" ∷ []
below_hosts false = []

abbrev shelf : Cloud ℕ
shelf = record small_cloud { children_of = λ log m. answer (below_hosts (m.value == "hosts")) }

abbrev level : Bool → ℕ
level true = 1
level false = 0

same-children : {xs ys : List Mor} → Path (Reply (List Mor)) (answer xs) (answer ys) → xs ≡ ys
same-children e = cc

lower :
    (b : Bool) (child : Mor) (children : List Mor)
    → Path (Reply (List Mor)) (answer (below_hosts b)) (answer children)
    → Among child children
    → child.type ≡ "Folder"
    → level (child.value == "hosts") < level b
lower false child children e among folder =
    absurd (subst (Among child) (same-children (sym e)) among)
lower true child children e among folder =
    below child (subst (Among child) (same-children (sym e)) among) folder
  where
    below :
        (c : Mor) → Among c (below_hosts true) → c.type ≡ "Folder" → level (c.value == "hosts") < 1
    below c (inl q) f = subst (λ (m : Mor). level (m.value == "hosts") < 1) (sym q) (omega arith)
    below c (inr (inl q)) f =
        subst (λ (m : Mor). level (m.value == "hosts") < 1) (sym q) (omega arith)
    below c (inr (inr x)) f = elim x [ ]

find_mob_within-ends_example :
    (find_mob_within shelf 2 "esx" (mor "Folder" "hosts") (world new_vm)).0 ≢ ok too_deep
find_mob_within-ends_example =
    find_mob_within-ends shelf "esx" (λ m. level (m.value == "hosts"))
      (λ log folder child children e among kind.
        lower (folder.value == "hosts") child children e among kind)
      2 (mor "Folder" "hosts") (world new_vm) (omega arith)

split_path_to_list-names_example : split_path_to_list "a\\/b/c" ≡ names "a\\/b/c"
split_path_to_list-names_example = split_path_to_list-names "a\\/b/c"
