-- ===== src/Vsphere/Devices.antt =====
-- virtualmachine/vsphere: the virtual disks of a machine (findByVirtualDeviceFileName,
-- resizeAndDeleteVols, diffDisks and CreateDisk of util.go, getDisksInfo and the search of RemoveDisk of
-- vm.go). A nil entry of a list of specs is none.
pub mod Resize
pub mod Diff
use libretto.Base.{
  ℕ, String, Bool, true, false, Option, none, some, List, [], ◌∷◌, ◌<>◌, ◌==◌, ltb, equal, ◌||◌,
  if◌then◌else◌,
}
use libretto.Go.Error.{new}
use libretto.Go.Result.{Result, ◌>>=◌, ok, err, panic}
use libretto.Vsphere.Types.{Disk, Mor}
use libretto.Vsphere.Api.{
  Cloud, Device, DeviceSpec, Kind, virtual_disk, Backing, file, edit, remove,
}

abbrev pub is_disk : Kind → Bool
is_disk virtual_disk = true
is_disk _ = false

-- The assertion that a backing is by a file, and its name.
abbrev pub file_name : Backing → Result String
file_name (file name thin ds) = ok name
file_name _ = panic

module _ {F : Type 0} where
  unfoldable pub find_by_virtual_device_file_name : List (Disk F) → String → Option (Disk F)
  find_by_virtual_device_file_name [] name = none
  find_by_virtual_device_file_name (disk ∷ disks) name =
      let rest = find_by_virtual_device_file_name disks name in
      if disk.disk_file == name then some disk else rest

module _ {F : Type 0} (cloud : Cloud F) where
  -- What becomes of one disk: a resized disk keeps its device, with the new capacity.
  abbrev pub resized : Device → Option (Disk F) → Result (Option DeviceSpec)
  resized device none = ok (some (record { operation = remove; device = device }))
  resized device (some disk) =
      let kb = cloud.in_kb disk.size in
      if ltb kb device.capacity_in_kb
      then err (new "error : Shrinking Virtual Disks is not supported")
      else (if ltb device.capacity_in_kb kb
          then ok
              (some (record { operation = edit; device = record device { capacity_in_kb = kb } }))
          else ok none)

  abbrev pub resize : List (Disk F) → Device → Result (Option DeviceSpec)
  resize disks device = do
    name ← file_name device.backing
    resized device (find_by_virtual_device_file_name disks name)

  unfoldable pub resize_and_delete_vols :
      List Device → List (Disk F) → Result (List (Option DeviceSpec))
  unfolding find_by_virtual_device_file_name
  resize_and_delete_vols [] disks = ok []
  resize_and_delete_vols (device ∷ devices) disks =
      if is_disk device.kind
      then (do
        spec ← resize disks device
        specs ← resize_and_delete_vols devices disks
        ok (spec ∷ specs))
      else resize_and_delete_vols devices disks

  -- The name of a disk's file, where one is given.
  unfoldable pub vmdk_name : String → String
  vmdk_name name =
      if name == "" then name else (if cloud.ext name == ".vmdk" then name else name <> ".vmdk")

  unfoldable pub create_disk : List Device → Device → Mor → String → Bool → Device
  unfolding vmdk_name
  create_disk devices controller ds name thin = cloud.assign devices controller (record {
    key = 0;
    kind = virtual_disk;
    label = "";
    backing = file (vmdk_name name) (some (some thin)) (some ds);
    mac_address = "";
    controller_key = 0;
    unit_number = none;
    capacity_in_kb = 0;
    capacity_in_bytes = 0;
  })

-- A key of the map of devList1.
abbrev pub has_key : ℕ → List Device → Bool
has_key key [] = false
has_key key (device ∷ devices) = equal device.key key || has_key key devices

unfoldable pub diff_disks : List Device → List Device → Result (List String)
diff_disks [] old = ok []
diff_disks (device ∷ devices) old =
    if has_key device.key old
    then diff_disks devices old
    else (do name ← file_name device.backing; names ← diff_disks devices old; ok (name ∷ names))

abbrev pub find_by_key : List Device → ℕ → Option Device
find_by_key [] key = none
find_by_key (device ∷ devices) key =
    if equal device.key key then some device else find_by_key devices key
