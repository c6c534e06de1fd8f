-- ===== src/Openstack/Images.antt =====
-- virtualmachine/openstack/util.go: the search for an image by its name, and the default structs.
use libretto.Base.{String, List, [], ◌∷◌, ◌≡◌, refl, ◌⊎◌, inl, inr, ◌==◌, if◌then◌else◌, pos, arith}
use libretto.Go.Error.{new}
use libretto.Go.Result.{Result, ok, err, Reply, answer, failure, of_reply}
use libretto.Go.Action.{World, ◌>>=◌, lift, fail, wrap, request}
use libretto.Openstack.Types.{Vm, Volume, ImageMetadata}
use libretto.Openstack.Api.{Call, Method, list_images}

pub new_default_image_metadata : ImageMetadata
new_default_image_metadata = record {
  container_format = "bare";
  disk_format = "qcow2";
  min_disk = pos 10;
  min_ram = pos 1024;
  name = "new-image";
}

pub new_default_volume : Volume
new_default_volume = record {
  id = "";
  device = "/dev/vdb";
  name = "test";
  size = pos 10;
  volume_type = "";
}

-- The tests on the number of images.
unfoldable pub the_image : List String → Result String
the_image [] = ok ""
the_image (id ∷ []) = ok id
the_image (id ∷ other ∷ ids) = err (new "there exists more than one image with the same name")

-- What AllPages returns, and what ExtractImages returns of its page: the ids of the images.
module _ (pages : List Call → String → Reply (Reply (List String))) where
  unfoldable pub find_image_id_by_name : String → Method String
  unfolding the_image
  find_image_id_by_name name = if name == "" then fail (new "empty image name") else do
    page ←
        wrap "error on retrieving image pages: "
          (request (list_images name) (λ log. pages log name))
    ids ← wrap "error on extracting image list: " (lift (of_reply page))
    lift (the_image ids)

  module _ (name : String) (w : World Vm Call) {id : String} where
    found_by :
        (r : Reply (Reply (List String)))
        → pages w.log name ≡ r
        → (find_image_id_by_name name w).0 ≡ ok id
        → (r ≡ answer (answer (id ∷ []))) ⊎ ((r ≡ answer (answer [])) × (id ≡ ""))
    unfolding find_image_id_by_name the_image
    found_by (failure e) h q = absurd (ground arith)
    found_by (answer (failure e)) h q = absurd (ground arith)
    found_by (answer (answer [])) h q = inr (refl, ground arith)
    found_by (answer (answer (x ∷ []))) h q = let same : x ≡ id = ground arith in inl (rw same)
    found_by (answer (answer (x ∷ y ∷ ids))) h q = absurd (ground arith)

    -- Where findImageIDByName returns an id, it is that of the only image with the name, or it is
    -- empty and there is no such image.
    pub find_image_id_by_name-ok :
        (find_image_id_by_name name w).0 ≡ ok id
        → (pages w.log name ≡ answer (answer (id ∷ [])))
          ⊎ ((pages w.log name ≡ answer (answer [])) × (id ≡ ""))
    find_image_id_by_name-ok = found_by (pages w.log name) refl
