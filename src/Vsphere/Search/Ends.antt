-- ===== src/Vsphere/Search/Ends.antt =====
-- searchTree ends, and the machine that it returns has the last name of the path.
use libretto.Base.{
  ◌≡◌, refl, ℕ, zero, suc, ◌<◌, ◌≤◌, ◌⊎◌, inl, inr, String, Option, none, some, List, [], ◌∷◌, ◌==◌,
  length, arith, Bool-cases, eq_iff, subst, ◌∙◌,
}
use libretto.Go.Error.{Error}
use libretto.Go.Result.{ok, Reply, answer, failure}
use libretto.Go.Action.{World}
use libretto.Go.Yields.{
  Yields, Succeeds-ok, Yields-pure, Yields-fail, Yields-if, Yields-then, Yields-bind, Yields-reply,
  Yields-attempt, Yields-request,
}
use libretto.Vsphere.Types.{Mor, Vm}
use libretto.Vsphere.Api.{Cloud, Call, Method, MoVm, retrieve}
use libretto.Vsphere.Search.{
  Position, Visit, machine, next, visit, visit_folder, visit_vm, visit_children, go_on,
  search_folders, descend, enter, ask_children, skip_deleted, entered, folder_named, checked,
  vm_named, vm_properties,
}

-- The last name of a path that begins with `name`.
abbrev pub last_name : String → List String → String
last_name name [] = name
last_name name (n ∷ more) = last_name n more

module _ {F : Type 0} (cloud : Cloud F) where
  -- The machine as the server describes it, with this name.
  abbrev pub IsFetched : String → MoVm → Type 0
  IsFetched last mo =
      (cloud.unescape mo.name ≡ answer last)
      × ((self : Mor) × (log : List Call) × (cloud.vm_of log self (vm_properties cloud)
            ≡ answer mo))

  abbrev IsSeen : MoVm → Mor → Type 0
  IsSeen mo self = (log : List Call) × (cloud.vm_of log self (vm_properties cloud) ≡ answer mo)

  -- With the path's last name, and the number of names that are left at the folder.
  module _ (last : String) (bound : ℕ) where
    abbrev IsBehind : Position → Type 0
    IsBehind p =
        (last_name p.name p.more ≡ last)
        × (length p.more ≤ bound)
        × ((p.ref ≡ none) ⊎ (length p.more < bound))

    abbrev IsVisit : Visit → Type 0
    IsVisit (machine mo) = IsFetched last mo
    IsVisit (next p) = IsBehind p

    skip_deleted-IsVisit :
        (p : Position) (e : Error) → IsBehind p → Yields IsVisit (skip_deleted cloud (next p) e)
    skip_deleted-IsVisit p e h =
        Yields-bind _ _ (λ b. Yields-if b _ _ (Yields-pure (next p) h) (Yields-fail e))

    entered-IsVisit :
        (child : Mor) (p : Position) (name : String) (more : List String) (found : String)
        → p.more ≡ name ∷ more
        → IsBehind p
        → IsVisit (entered cloud child p name more found)
    entered-IsVisit child p name more found e h = elim (Bool-cases (found == p.name)) [
      | inl t ↦
          let fits' = subst (λ m. length m ≤ bound) e h.1 in
          rw t (subst (λ m. last_name p.name m ≡ last) e h.0, omega (arith, fits'), inr fits')
      | inr f ↦ rw f h
    ]

    named-IsVisit :
        (child : Mor) (p : Position) (name : String) (more : List String) (r : Reply String)
        → p.more ≡ name ∷ more
        → IsBehind p
        → Yields IsVisit (folder_named cloud child p name more r)
    named-IsVisit child p name more (failure x) e h = skip_deleted-IsVisit p x h
    named-IsVisit child p name more (answer escaped) e h =
        Yields-bind _ _ λ found. Yields-pure _ (entered-IsVisit child p name more found e h)

    folder-IsVisit :
        (child : Mor) (p : Position) (more : List String)
        → p.more ≡ more
        → IsBehind p
        → Yields IsVisit (visit_folder cloud child p more)
    folder-IsVisit child p [] e h = Yields-pure (next p) h
    folder-IsVisit child p (name ∷ more) e h =
        Yields-bind _ _ λ r. named-IsVisit child p name more r e h

    checked-IsVisit :
        (child : Mor) (mo : MoVm) (p : Position) (found : String)
        → p.more ≡ []
        → IsBehind p
        → IsSeen mo child
        → cloud.unescape mo.name ≡ answer found
        → IsVisit (checked cloud mo p found)
    checked-IsVisit child mo p found e h seen q = elim (Bool-cases (found == p.name)) [
      | inl t ↦
          let here = (eq_iff found p.name).0 t ∙ subst (λ m. last_name p.name m ≡ last) e h.0 in
          rw t (subst (λ x. cloud.unescape mo.name ≡ answer x) here q, (child, seen.0, seen.1))
      | inr f ↦ rw f h
    ]

    vm_named-IsVisit :
        (child : Mor) (p : Position) (r : Reply MoVm)
        → p.more ≡ []
        → IsBehind p
        → ((mo : MoVm) → r ≡ answer mo → IsSeen mo child)
        → Yields IsVisit (vm_named cloud p r)
    vm_named-IsVisit child p (failure x) e h seen = skip_deleted-IsVisit p x h
    vm_named-IsVisit child p (answer mo) e h seen =
        Yields-then (λ found. cloud.unescape mo.name ≡ answer found) _ _
          (Yields-reply (cloud.unescape mo.name))
          λ found q. Yields-pure _ (checked-IsVisit child mo p found e h (seen mo refl) q)

    vm-IsVisit :
        (child : Mor) (p : Position) (more : List String)
        → p.more ≡ more
        → IsBehind p
        → Yields IsVisit (visit_vm cloud child p more)
    vm-IsVisit child p (name ∷ more) e h = Yields-pure (next p) h
    vm-IsVisit child p [] e h =
        Yields-then (λ r. (mo : MoVm) → r ≡ answer mo → IsSeen mo child) _ _
          (Yields-attempt (
            Yields-request (retrieve child (vm_properties cloud))
              (λ log. cloud.vm_of log child (vm_properties cloud))))
          λ r seen. vm_named-IsVisit child p r e h seen

    visit-IsVisit : (child : Mor) (p : Position) → IsBehind p → Yields IsVisit (visit cloud child p)
    unfolding visit
    visit-IsVisit child p h =
        Yields-if (child.type == "Folder") _ _ (folder-IsVisit child p p.more refl h) (
          Yields-if (child.type == "VirtualMachine") _ _ (vm-IsVisit child p p.more refl h)
            (Yields-pure (next p) h))

    go_on-IsVisit :
        (rest : Position → Method F Visit) (v : Visit)
        → IsVisit v
        → ((p : Position) → IsBehind p → Yields IsVisit (rest p))
        → Yields IsVisit (go_on cloud rest v)
    go_on-IsVisit rest (machine mo) h y = Yields-pure (machine mo) h
    go_on-IsVisit rest (next p) h y = y p h

    visit_children-IsVisit :
        (children : List Mor) (p : Position)
        → IsBehind p
        → Yields IsVisit (visit_children cloud children p)
    unfolding visit_children
    visit_children-IsVisit [] p h = Yields-pure (next p) h
    visit_children-IsVisit (child ∷ children) p h =
        Yields-then IsVisit (visit cloud child p) _ (visit-IsVisit child p h)
          λ v g. go_on-IsVisit (visit_children cloud children) v g (visit_children-IsVisit children)

  -- What the rounds of searchTree return: a machine with the last name.
  abbrev pub IsFound : String → Option MoVm → Type 0
  IsFound last none = ⊥
  IsFound last (some mo) = IsFetched last mo

  module _ (last path : String) (bound : ℕ)
      (rest : Mor → String → List String → Method F (Option MoVm))
      (later : (mor : Mor) (name : String) (more : List String)
        → length more < bound
        → last_name name more ≡ last
        → Yields (IsFound last) (rest mor name more)) where
    enter-IsFound :
        (p : Position) (ref : Option Mor)
        → p.ref ≡ ref
        → IsBehind last bound p
        → Yields (IsFound last) (enter cloud path rest p ref)
    enter-IsFound p none e h = Yields-fail _
    enter-IsFound p (some mor) e h =
        let fits : length p.more < bound = elim h.2 [ inl x ↦ absurd (cc) | inr l ↦ l ] in
        later mor p.name p.more fits h.0

    descend-IsFound :
        (v : Visit) → IsVisit last bound v → Yields (IsFound last) (descend cloud path rest v)
    descend-IsFound (machine mo) h = Yields-pure (some mo) h
    descend-IsFound (next p) h = enter-IsFound p p.ref refl h

  pub search_folders-IsFound :
      (n : ℕ) (path : String) (mor : Mor) (name : String) (more : List String)
      → length more < n
      → Yields (IsFound (last_name name more)) (search_folders cloud n path mor name more)
  unfolding search_folders
  search_folders-IsFound zero path mor name more h = absurd (omega arith)
  search_folders-IsFound (suc n) path mor name more h =
      Yields-bind (ask_children cloud mor) _ λ children.
        Yields-then (IsVisit (last_name name more) (length more)) (visit_children cloud children _)
          _
          (visit_children-IsVisit (last_name name more) (length more) children
            (record { ref = none; name = name; more = more }) (refl, omega arith, inl refl))
          (descend-IsFound (last_name name more) path (length more) (search_folders cloud n path)
            λ m nm ms lt e.
              subst (λ l. Yields (IsFound l) (search_folders cloud n path m nm ms)) e
                (search_folders-IsFound n path m nm ms (omega (arith, lt, h))))

  found-machine :
      (last : String) (found : Option MoVm)
      → IsFound last found
      → (mo : MoVm) × (found ≡ some mo) × IsFetched last mo
  found-machine last none h = absurd h
  found-machine last (some mo) h = (mo, refl, h)

  -- With more rounds than names are left below a folder, the loop of searchTree does not run out of
  -- them: where it returns no error, it has found a machine that the server describes, whose name,
  -- unescaped, is the last one of the path.
  pub search_folders-found :
      (n : ℕ) (path : String) (mor : Mor) (name : String) (more : List String)
      (w : World (Vm F) Call) {found : Option MoVm}
      → length more < n
      → (search_folders cloud n path mor name more w).0 ≡ ok found
      → (mo : MoVm) × (found ≡ some mo) × IsFetched (last_name name more) mo
  search_folders-found n path mor name more w {found} h e =
      found-machine (last_name name more) found (
        Succeeds-ok (IsFound (last_name name more)) (search_folders cloud n path mor name more w).0
          ((search_folders-IsFound n path mor name more h).at w) e)
