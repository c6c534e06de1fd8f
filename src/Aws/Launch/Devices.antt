-- ===== src/Aws/Launch/Devices.antt =====
-- The block devices of the request that Provision sends.
use libretto.Base.{
  ℕ, zero, suc, ◌≡◌, refl, ap, Bool, Option, none, some, List, [], ◌∷◌, ◌++◌, map, length,
  replicate,
}
use libretto.Aws.Types.{Vm, EbsBlockVolume}
use libretto.Aws.Api.{BlockDevice}
use libretto.Aws.Launch.{block_device, devices, run_input}

-- The nil entries of a slice of pointers, and the values of the others.
pub nils {ℓ} : {A : Type ℓ} → List (Option A) → ℕ
nils [] = 0
nils (none ∷ xs) = suc (nils xs)
nils (some x ∷ xs) = nils xs

pub values {ℓ} : {A : Type ℓ} → List (Option A) → List A
values [] = []
values (none ∷ xs) = values xs
values (some x ∷ xs) = x ∷ values xs

nils-padded :
    (n : ℕ) (keep : Bool) (vs : List EbsBlockVolume)
    → nils (replicate n none ++ map (λ v. some (block_device keep v)) vs) ≡ n
unfolding nils
nils-padded zero keep [] = refl
nils-padded zero keep (v ∷ vs) = nils-padded zero keep vs
nils-padded (suc n) keep vs = ap suc (nils-padded n keep vs)

values-padded :
    (n : ℕ) (keep : Bool) (vs : List EbsBlockVolume)
    → map
        (λ (d : BlockDevice). d.volume_size)
        (values (replicate n none ++ map (λ v. some (block_device keep v)) vs))
      ≡ map (λ (v : EbsBlockVolume). v.volume_size) vs
unfolding values block_device
values-padded zero keep [] = refl
values-padded zero keep (v ∷ vs) = ap (λ t. v.volume_size ∷ t) (values-padded zero keep vs)
values-padded (suc n) keep vs = values-padded n keep vs

-- The request for a VM has one nil block device mapping for each of its volumes beside the mappings
-- proper, and these ask for each volume's own size: where that is nil no default is filled in.
pub devices_padded :
    (vm : Vm)
    → let ds = (run_input vm).block_device_mappings in
      (nils ds ≡ length vm.volumes)
      × (map (λ (d : BlockDevice). d.volume_size) (values ds)
          ≡ map (λ (v : EbsBlockVolume). v.volume_size) vm.volumes)
unfolding run_input devices
devices_padded vm = (
  nils-padded (length vm.volumes) vm.keep_root_volume_on_destroy vm.volumes,
  values-padded (length vm.volumes) vm.keep_root_volume_on_destroy vm.volumes,
)
