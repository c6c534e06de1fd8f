-- ===== src/Vsphere/Devices/Diff.antt =====
-- diffDisks finds the files of the devices that were added.
use libretto.Base.{
  All, ◌∙◌, ◌≡◌, refl, ℕ, Bool, true, false, List, [], ◌∷◌, ◌++◌, equal, ◌||◌, arith,
}
use libretto.Go.Result.{collect}
use libretto.Vsphere.Api.{Device}
use libretto.Vsphere.Devices.{file_name, has_key, diff_disks}

-- No device of the list has the key of one that is there.
abbrev pub AreFresh : List Device → List Device → Type 0
AreFresh added old = All (λ (d : Device). has_key d.key old ≡ false) added

diff_disks-fresh :
    (added old : List Device)
    → AreFresh added old
    → diff_disks added old ≡ collect (λ (d : Device). file_name d.backing) added
unfolding diff_disks collect
diff_disks-fresh [] old h = refl
diff_disks-fresh (d ∷ added) old h = rw (h.0, diff_disks-fresh added old h.1) refl

here-or : (n : ℕ) (b : Bool) → (equal n n || b) ≡ true
here-or n b = ground arith

second-or : (a b : Bool) → b ≡ true → (a || b) ≡ true
second-or true b h = refl
second-or false b h = h

abbrev AreKnown : List Device → List Device → Type 0
AreKnown devices old = All (λ (d : Device). has_key d.key old ≡ true) devices

AreKnown-more :
    (d : Device) (devices old : List Device) → AreKnown devices old → AreKnown devices (d ∷ old)
AreKnown-more d [] old h = tt
AreKnown-more d (e ∷ devices) old h =
    (second-or (equal d.key e.key) (has_key e.key old) h.0, AreKnown-more d devices old h.1)

AreKnown-same : (old : List Device) → AreKnown old old
AreKnown-same [] = tt
AreKnown-same (d ∷ old) =
    (here-or d.key (has_key d.key old), AreKnown-more d old old (AreKnown-same old))

diff_disks-known :
    (devices added old : List Device)
    → AreKnown devices old
    → diff_disks (devices ++ added) old ≡ diff_disks added old
unfolding diff_disks
diff_disks-known [] added old h = refl
diff_disks-known (d ∷ devices) added old h = rw h.0 (diff_disks-known devices added old h.1)

-- Where the devices before a change are still there, in front of added ones with keys of their own,
-- diffDisks returns the files of the added ones, in order, and panics where one is not backed by a
-- file.
pub diff_disks-added :
    (old added : List Device)
    → AreFresh added old
    → diff_disks (old ++ added) old ≡ collect (λ (d : Device). file_name d.backing) added
diff_disks-added old added h =
    diff_disks-known old added old (AreKnown-same old) ∙ diff_disks-fresh added old h
