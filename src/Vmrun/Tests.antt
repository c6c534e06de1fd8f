-- ===== src/Vmrun/Tests.antt =====
-- Runs of the model of vmrun.
use libretto.Base.{◌≡◌, refl}
use libretto.Go.Strings.{lines, split}
use libretto.Vmrun.Machines.{without_ethernet}

cards_removed :
    without_ethernet (lines "a = 1\nethernet0.present = \"TRUE\"\nethernet1.x = 2\nb = 2\n")
    ≡ "a = 1\nb = 2\n"
unfolding without_ethernet split
cards_removed = refl
