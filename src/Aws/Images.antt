-- ===== src/Aws/Images.antt =====
-- virtualmachine/aws: GetImageList of vm.go and getVMAWSImage of util.go.
use libretto.Base.{String, Bool, Option, none, some, List}
use libretto.Go.Result.{Result, ok, Reply, ◌>>=◌, deref, collect}
use libretto.Aws.Types.{ℤ, Image, EbsBlockVolume}
use libretto.Aws.Api.{Ec2, Call, Method, Filter, describe_images}
use libretto.Aws.Listing.{get_filters, listing}

-- The fields that the program reads of an image of the SDK. A block device mapping is its name and,
-- where it has an Ebs, that one's size and type.
pub record Mapping : Type 0 where
  pub device_name : Option String
  pub ebs : Option (Option ℤ × Option String)

pub record ImageOutput : Type 0 where
  pub id : Option String
  pub name : Option String
  pub description : Option String
  pub state : Option String
  pub owner_id : Option String
  pub owner_alias : Option String
  pub creation_date : Option String
  pub architecture : Option String
  pub platform : Option String
  pub hypervisor : Option String
  pub virtualization_type : Option String
  pub image_type : Option String
  pub kernel_id : Option String
  pub root_device_name : Option String
  pub root_device_type : Option String
  pub public : Option Bool
  pub block_device_mappings : List Mapping

-- The volume of a mapping: its name, and the size and type of its Ebs.
unfoldable pub to_volume : Mapping → Result EbsBlockVolume
to_volume m = do
  name ← deref m.device_name
  let plain : EbsBlockVolume = record {
    device_name = name;
    volume_size = none;
    volume_type = "";
    availability_zone = "";
    volume_id = "";
    snapshot_id = "";
  }
  elim m.ebs [
    | none ↦ ok plain
    | some ebs ↦ deref ebs.1 >>= λ volume_type.
        ok (record plain { volume_size = ebs.0; volume_type = volume_type })
  ]

unfoldable pub get_vm_aws_image : ImageOutput → Result Image
unfolding to_volume
get_vm_aws_image i = do
  volumes ← collect to_volume i.block_device_mappings
  ok (record {
    id = i.id;
    name = i.name;
    description = i.description;
    state = i.state;
    owner_id = i.owner_id;
    owner_alias = i.owner_alias;
    creation_date = i.creation_date;
    architecture = i.architecture;
    platform = i.platform;
    hypervisor = i.hypervisor;
    virtualization_type = i.virtualization_type;
    image_type = i.image_type;
    kernel_id = i.kernel_id;
    root_device_name = i.root_device_name;
    root_device_type = i.root_device_type;
    public = i.public;
    ebs_volumes = volumes;
  })

module _ (svc : Ec2) (images : List Call → List Filter → Reply (List ImageOutput)) where
  unfoldable pub get_image_list : Method (List Image)
  unfolding get_vm_aws_image
  get_image_list =
      listing svc "Failed to get Image list: " (λ vm. describe_images (get_filters vm.filters))
        (λ vm log. images log (get_filters vm.filters)) get_vm_aws_image
