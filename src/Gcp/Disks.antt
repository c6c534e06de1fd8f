-- ===== src/Gcp/Disks.antt =====
-- virtualmachine/gcp: the disks of util.go, with AddNewDisks, DeleteVMDisks and DeleteDisks of vm.go.
use libretto.Base.{
  String, Bool, true, false, Option, none, some, List, [], ◌∷◌, ◌==◌, ◌<>◌, ◌||◌, if◌then◌else◌,
}
use libretto.Go.Error.{Error, new}
use libretto.Go.Result.{Reply, answer, failure}
use libretto.Go.Action.{◌>>=◌, ◌>>◌, get, pure, fail, request, attempt, wrap}
use libretto.Gcp.Types.{Vm, Disk, StorageDevice, device_path_prefix}
use libretto.Gcp.Api.{
  Cloud, query, change, insert_disk, delete_disk, attach_disk, detach_disk, AttachedDisk,
  Attachment, CloudDiskType, CloudImage, Method, Nothing,
}
use libretto.Gcp.Service.{get_service, get_instance, change_zone, wait_for_operation_ready}

-- An image that getImage returns.
usable : Reply (Option CloudImage) → Option CloudImage
usable (failure e) = none
usable (answer none) = none
usable (answer (some image)) = if image.self_link == "" then none else some image

-- The DeviceName of the first attached disk with a source.
unfoldable pub device_of : String → List AttachedDisk → String
device_of link [] = ""
device_of link (disk ∷ disks) =
    let rest = device_of link disks in if disk.source == link then disk.device_name else rest

abbrev pub storage_device : AttachedDisk → StorageDevice
storage_device disk = record {
  name = disk.device_name;
  device_path = device_path_prefix <> disk.device_name;
  boot = some disk.boot;
  auto_delete = some disk.auto_delete;
  interface = disk.interface;
}

unfoldable pub has_disk : String → List Disk → Bool
has_disk name [] = false
has_disk name (disk ∷ disks) = (disk.name == name) || has_disk name disks

-- The end of AddNewDisks: the attached disks of the names that it has added.
unfoldable pub added : List Disk → List AttachedDisk → List StorageDevice
unfolding has_disk
added disks [] = []
added disks (disk ∷ rest) =
    let more = added disks rest in
    if has_disk disk.device_name disks then storage_device disk ∷ more else more

pub volumes : List AttachedDisk → List StorageDevice
volumes [] = []
volumes (disk ∷ rest) = storage_device disk ∷ volumes rest

module _ (svc : Cloud) where
  -- The loop of getImage.
  unfoldable pub first_image : List String → Method (Option CloudImage)
  unfolding usable
  first_image [] = pure none
  first_image (img ∷ projects) =
      let rest = first_image projects in
      get >>= λ vm.
      attempt (request (query "image" (img ∷ vm.source_image ∷ [])) (λ log. svc.get_image log img))
      >>= λ reply. elim (usable reply) [ some image ↦ pure (some image) | none ↦ rest ]

  unfoldable pub get_image : Method CloudImage
  unfolding first_image
  get_image = do
    vm ← get
    found ← first_image vm.image_projects
    elim found [
      | some image ↦ pure image
      | none ↦ fail (
          new (
            "could not find image "
            <> vm.source_image
            <> " in these projects: "
            <> svc.show_list vm.image_projects))
    ]

  -- The SelfLink of a disk.
  unfoldable pub get_disk : String → Method String
  get_disk name = do
    vm ← get
    request (query "disk" (vm.project ∷ vm.zone ∷ name ∷ [])) (λ log. svc.get_disk log name)

  -- "zones/%s/diskTypes/%s"
  abbrev type_url : Vm → Disk → String
  type_url vm disk = "zones/" <> vm.zone <> "/diskTypes/" <> disk.disk_type

  abbrev pub boot_disk : Vm → CloudImage → Disk → Attachment
  boot_disk vm image disk = record {
    type = "PERSISTENT";
    mode = "READ_WRITE";
    kind = "compute#attachedDisk";
    boot = true;
    auto_delete = disk.auto_delete;
    device_name = "";
    source = "";
    initialize = some (image.self_link, disk.disk_size_gb, type_url vm disk);
  }

  abbrev pub data_disk : Vm → Disk → Attachment
  data_disk vm disk = record {
    type = "PERSISTENT";
    mode = "READ_WRITE";
    kind = "";
    boot = false;
    auto_delete = disk.auto_delete;
    device_name = disk.name;
    source = "projects/" <> vm.project <> "/zones/" <> vm.zone <> "/disks/" <> disk.name;
    initialize = none;
  }

  -- The disk that createDisks makes where there is none of the name.
  unfoldable pub insert_missing : Disk → Reply String → Method Nothing
  unfolding wait_for_operation_ready
  insert_missing disk (answer link) = pure tt
  insert_missing disk (failure e) = do
    vm ← get
    let d = insert_disk (record {
      name = disk.name;
      size_gb = disk.disk_size_gb;
      type = type_url vm disk;
      description = "";
    })
    op ←
        wrap ("error while creating disk " <> disk.name <> ": ")
          (request (change vm.project (vm.zone ∷ []) d) (λ log. svc.change_reply log d))
    wrap ("error while waiting for the disk " <> disk.name <> " ready, error: ")
        (wait_for_operation_ready svc op.name)

  -- The loop of createDisks behind the first disk.
  unfoldable pub create_others : List Disk → Method (List Attachment)
  unfolding insert_missing get_disk
  create_others [] = pure []
  create_others (disk ∷ disks) =
      let rest = create_others disks in
      attempt (get_disk disk.name) >>= λ reply. insert_missing disk reply >>= λ done.
      get >>= λ vm. rest >>= λ more. pure (data_disk vm disk ∷ more)

  abbrev with_boot : List Disk → CloudImage → Method (List Attachment)
  with_boot [] image = pure []
  with_boot (disk ∷ disks) image = do
    vm ← get
    more ← create_others disks
    pure (boot_disk vm image disk ∷ more)

  abbrev pub none_given : List Disk → Bool
  none_given [] = true
  none_given (disk ∷ disks) = false

  unfoldable pub create_disks : Method (List Attachment)
  unfolding create_others get_image
  create_disks = do
    vm ← get
    if none_given vm.disks
        then fail (new "no disks were found")
        else (do image ← get_image; with_boot vm.disks image)

  unfoldable pub delete_disk_named : String → Method Nothing
  unfolding change_zone
  delete_disk_named name = change_zone svc (name ∷ []) (delete_disk name)

  -- deleteDisks: it goes on after an error.
  unfoldable pub delete_each : List Disk → Method (List Error)
  unfolding delete_disk_named
  delete_each [] = pure []
  delete_each (disk ∷ disks) =
      let rest = delete_each disks in
      attempt (delete_disk_named disk.name) >>= λ reply.
      rest >>= λ errs. elim reply [ answer a ↦ pure errs | failure e ↦ pure (e ∷ errs) ]

  unfoldable pub get_disk_type : String → Method CloudDiskType
  get_disk_type disk_type = do
    vm ← get
    request (query "disk type" (vm.project ∷ vm.zone ∷ disk_type ∷ []))
        (λ log. svc.get_disk_type log disk_type)

  unfoldable pub create_disk : Disk → Method Nothing
  unfolding get_disk_type change_zone
  create_disk disk = do
    disk_type ← get_disk_type disk.disk_type
    change_zone svc [] (
        insert_disk (record {
          name = disk.name;
          size_gb = disk.disk_size_gb;
          type = disk_type.self_link;
          description = disk.description;
        }))

  unfoldable pub attach : Disk → Method Nothing
  unfolding get_disk change_zone
  attach disk = do
    link ← get_disk disk.name
    vm ← get
    change_zone svc (vm.name ∷ []) (
        attach_disk (record {
          type = "";
          mode = "";
          kind = "";
          boot = false;
          auto_delete = disk.auto_delete;
          device_name = disk.name;
          source = link;
          initialize = none;
        }))

  unfoldable pub detach : Disk → Method Nothing
  unfolding get_disk get_instance device_of change_zone
  detach disk = do
    link ← get_disk disk.name
    instance ← get_instance svc
    vm ← get
    change_zone svc (vm.name ∷ []) (detach_disk (device_of link instance.disks))

  -- The loops of AddNewDisks and DeleteVMDisks.
  unfoldable pub add_each : List Disk → Method Nothing
  unfolding create_disk attach
  add_each [] = pure tt
  add_each (disk ∷ disks) = create_disk disk >> attach disk >> add_each disks

  unfoldable pub remove_each : List Disk → Method Nothing
  unfolding detach delete_disk_named
  remove_each [] = pure tt
  remove_each (disk ∷ disks) = detach disk >> delete_disk_named disk.name >> remove_each disks

  unfoldable pub add_new_disks : Method (List StorageDevice)
  unfolding add_each get_service get_instance added
  add_new_disks = do
    get_service svc
    vm ← get
    add_each vm.disks
    instance ← get_instance svc
    pure (added vm.disks instance.disks)

  unfoldable pub delete_vm_disks : Method Nothing
  unfolding remove_each get_service
  delete_vm_disks = do get_service svc; vm ← get; remove_each vm.disks
