-- ===== src/Aws/Rules/Loops.antt =====
-- What the loops of toEc2IpPermissions make, without their variables.
use libretto.Base.{◌≡◌, refl, ap, ◌∙◌, String, some, List, [], ◌∷◌, map}
use libretto.Aws.Types.{IpPermission}
use libretto.Aws.Rules.{
  last_or, range_loop, after_loop, alias_all, to_ec2, to_ec2_ip_permissions, protocols,
  no_permission,
}

module _ {A B : Type 0} where
  loop_entries : (body : A → A → B) (xs : List A) (z : A) → (range_loop body xs z).0 ≡ map body xs
  unfolding range_loop
  loop_entries body [] z = refl
  loop_entries body (x ∷ xs) z = ap (λ es. body x ∷ es) (loop_entries body xs x)

  loop_variable : (body : A → A → B) (xs : List A) (z : A) → (range_loop body xs z).1 ≡ last_or z xs
  unfolding range_loop last_or
  loop_variable body [] z = refl
  loop_variable body (x ∷ xs) z = loop_variable body xs x

  entries_read :
      (body : A → A → B) (cell : A) (xs : List A)
      → map (λ (entry : A → B). entry cell) (map body xs) ≡ map (λ (x : A). body x cell) xs
  entries_read body cell [] = refl
  entries_read body cell (x ∷ xs) = ap (λ es. body x cell ∷ es) (entries_read body cell xs)

  -- Each entry reads the variable as the last round left it.
  pub after_loop-map :
      (body : A → A → B) (xs : List A) (z : A)
      → after_loop (range_loop body xs z) ≡ map (λ (x : A). body x (last_or z xs)) xs
  unfolding after_loop
  after_loop-map body xs z =
      ap (λ c. map (λ (entry : A → B). entry c) (range_loop body xs z).0) (loop_variable body xs z)
      ∙ ap (map (λ (entry : A → B). entry (last_or z xs))) (loop_entries body xs z)
      ∙ entries_read body (last_or z xs) xs

pub alias_all-map :
    (rs : List String) → alias_all rs ≡ map (λ (r : String). some (last_or "" rs)) rs
unfolding alias_all
alias_all-map rs = after_loop-map (λ r cell. some cell) rs ""

last_or-protocol :
    (z : IpPermission) (ps : List IpPermission)
    → (last_or z ps).ip_protocol ≡ last_or z.ip_protocol (protocols ps)
unfolding last_or
last_or-protocol z [] = refl
last_or-protocol z (p ∷ ps) = last_or-protocol p ps

pub to_ec2_ip_permissions-map :
    (ps : List IpPermission)
    → to_ec2_ip_permissions ps ≡ map (to_ec2 (last_or "" (protocols ps))) ps
unfolding to_ec2_ip_permissions
to_ec2_ip_permissions-map ps =
    after_loop-map (λ p cell. to_ec2 cell.ip_protocol p) ps no_permission
    ∙ ap (λ v. map (to_ec2 v) ps) (last_or-protocol no_permission ps)
