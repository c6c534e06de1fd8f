-- ===== src/Vsphere/Devices/Resize.antt =====
-- What resizeAndDeleteVols makes of the disks of a template.
use libretto.Base.{
  All2, ◌≡◌, ◌<◌, String, Bool, true, false, Option, none, some, List, [], ◌∷◌, if◌then◌else◌,
  arith, subst,
}
use libretto.Go.Result.{Result, ◌>>=◌, ok, bind-ok}
use libretto.Vsphere.Types.{Disk}
use libretto.Vsphere.Api.{Cloud, Device, DeviceSpec, edit, remove}
use libretto.Vsphere.Devices.{
  is_disk, file_name, find_by_virtual_device_file_name, resized, resize, resize_and_delete_vols,
}

-- The virtual disks among the devices.
abbrev pub disks_of : List Device → List Device
disks_of [] = []
disks_of (device ∷ devices) =
    if is_disk device.kind then device ∷ disks_of devices else disks_of devices

ok-same : {A : Type 0} {x y : A} → Path (Result A) (ok x) (ok y) → x ≡ y
ok-same h = cc

module _ {F : Type 0} (cloud : Cloud F) where
  -- What the machine's FixedDisks ask for the disk of a file, if they name the file.
  abbrev pub IsResized : Device → Option (Disk F) → Option DeviceSpec → Type 0
  IsResized device none spec = spec ≡ some (record { operation = remove; device = device })
  IsResized device (some disk) none = device.capacity_in_kb ≡ cloud.in_kb disk.size
  IsResized device (some disk) (some spec) =
      (device.capacity_in_kb < cloud.in_kb disk.size)
      × (spec ≡ record {
        operation = edit;
        device = record device { capacity_in_kb = cloud.in_kb disk.size };
      })

  abbrev pub IsChange : List (Disk F) → Device → Option DeviceSpec → Type 0
  IsChange disks device spec =
      (name : String) × (file_name device.backing ≡ ok name)
      × IsResized device (find_by_virtual_device_file_name disks name) spec

  resized-IsResized :
      (device : Device) (disk : Option (Disk F)) (spec : Option DeviceSpec)
      → resized cloud device disk ≡ ok spec
      → IsResized device disk spec
  resized-IsResized device none spec h = cc
  resized-IsResized device (some disk) none h = ground arith
  resized-IsResized device (some disk) (some spec) h = ground arith

  resize-IsChange :
      (disks : List (Disk F)) (device : Device) (spec : Option DeviceSpec)
      → resize cloud disks device ≡ ok spec
      → IsChange disks device spec
  resize-IsChange disks device spec h =
      let (name, e, r) = bind-ok (file_name device.backing) _ h in
      (name, e, resized-IsResized device (find_by_virtual_device_file_name disks name) spec r)

  changes-more :
      (b : Bool) (device : Device) (devices : List Device)
      (rest : Result (List (Option DeviceSpec))) (disks : List (Disk F))
      (specs : List (Option DeviceSpec))
      → (if b then (do spec ← resize cloud disks device; more ← rest; ok (spec ∷ more)) else rest)
        ≡ ok specs
      → ((known : List (Option DeviceSpec)) → rest ≡ ok known → All2 (IsChange disks) devices known)
      → All2 (IsChange disks) (if b then device ∷ devices else devices) specs
  changes-more false device devices rest disks specs h later = later specs h
  changes-more true device devices rest disks specs h later =
      let (spec, e, k) = bind-ok (resize cloud disks device) _ h in
      let (more, e', q) = bind-ok rest _ k in
      subst (All2 (IsChange disks) (device ∷ devices)) (ok-same q)
        (resize-IsChange disks device spec e, later more e')

  -- Where resizeAndDeleteVols returns specs, they stand one by one for the virtual disks of the
  -- template, in order: the spec of a disk whose file is not among the disks asked for removes it, the
  -- spec of a disk that is asked for with more space gives it this space, and the spec of a disk that
  -- is asked for with the space it has is nil. No disk is asked for with less space.
  pub resize_and_delete_vols-changes :
      (devices : List Device) (disks : List (Disk F)) {specs : List (Option DeviceSpec)}
      → resize_and_delete_vols cloud devices disks ≡ ok specs
      → All2 (IsChange disks) (disks_of devices) specs
  unfolding resize_and_delete_vols
  resize_and_delete_vols-changes [] disks h = subst (All2 (IsChange disks) []) (ok-same h) tt
  resize_and_delete_vols-changes (device ∷ devices) disks {specs} h =
      changes-more (is_disk device.kind) device (disks_of devices)
        (resize_and_delete_vols cloud devices disks) disks specs h
        (λ known e. resize_and_delete_vols-changes devices disks e)
