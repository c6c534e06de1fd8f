-- ===== src/Vsphere/Mobs/Direct.antt =====
-- findMob returns objects that stand directly in the folder, and no others.
use libretto.Base.{
  Among, ◌≡◌, refl, ℕ, zero, suc, String, true, List, [], ◌∷◌, ◌==◌, inl, inr, if◌then◌else◌,
  Bool-cases, eq_iff,
}
use libretto.Go.Result.{Result, ok, err, panic, Reply, answer, failure, of_reply}
use libretto.Go.Action.{World, resume, ◌>>=◌, attempt}
use libretto.Go.Yields.{
  Yields, Succeeds-ok, Yields-pure, Yields-fail, Yields-if, Yields-then, Yields-bind,
  Yields-request,
}
use libretto.Vsphere.Types.{Mor, Vm}
use libretto.Vsphere.Api.{Cloud, Call, Method, MoCompute}
use libretto.Vsphere.Mobs.{
  Mob, found, empty, too_deep, is_compute, ask_compute, below, compared, compute_properties,
  find_in, some_in, find_mob_within, outcome_of, find_mob,
}

module _ {F : Type 0} (cloud : Cloud F) (name : String) where
  -- A compute resource with the name, as the server describes one of these children.
  abbrev pub IsDirect : List Mor → Mor → Type 0
  IsDirect children ref =
      (child : Mor) × (cr : MoCompute) × (log : List Call) × Among child children
      × (is_compute child.type ≡ true)
      × (cloud.compute_of log child ≡ answer cr)
      × (cr.name ≡ name)
      × (ref ≡ cr.self)

  abbrev IsDirectMob : List Mor → Mob → Type 0
  IsDirectMob children (found ref) = IsDirect children ref
  IsDirectMob children empty = Unit
  IsDirectMob children too_deep = Unit

  module _ (all : List Mor) (search : Mor → Method F Mob) where
    below-IsDirect :
        (rest : Method F Mob) (r : Reply Mob)
        → Yields (IsDirectMob all) rest
        → Yields (IsDirectMob all) (below cloud rest r)
    below-IsDirect rest (failure e) y = Yields-fail e
    below-IsDirect rest (answer too_deep) y = Yields-pure too_deep tt
    below-IsDirect rest (answer empty) y = y
    below-IsDirect rest (answer (found mor)) y = y

    compared-IsDirect :
        (child : Mor) (rest : Method F Mob) (cr : MoCompute)
        → Among child all
        → is_compute child.type ≡ true
        → (log : List Call) × (cloud.compute_of log child ≡ answer cr)
        → Yields (IsDirectMob all) rest
        → Yields (IsDirectMob all) (compared cloud name rest cr)
    compared-IsDirect child rest cr among kind (log, e) y = elim (Bool-cases (cr.name == name)) [
      | inl t ↦ rw t (
          Yields-pure (found cr.self)
            (child, cr, log, among, kind, e, (eq_iff cr.name name).0 t, refl))
      | inr f ↦ rw f y
    ]

    find_in-IsDirect :
        (children : List Mor)
        → ((mor : Mor) → Among mor children → Among mor all)
        → Yields (IsDirectMob all) (find_in cloud search name children)
    unfolding find_in
    find_in-IsDirect [] within = Yields-fail _
    find_in-IsDirect (child ∷ children) within =
        let rest = find_in-IsDirect children (λ m a. within m (inr a)) in
        Yields-if (child.type == "Folder") _ _
          (Yields-bind (attempt (search child)) _
            λ r. below-IsDirect (find_in cloud search name children) r rest)
          (compute rest)
      where
        compute :
            Yields (IsDirectMob all) (find_in cloud search name children)
            → Yields (IsDirectMob all) (
                if is_compute child.type
                then (do
                  cr ← ask_compute cloud child (compute_properties cloud)
                  compared cloud name (find_in cloud search name children) cr)
                else find_in cloud search name children)
        compute rest = elim (Bool-cases (is_compute child.type)) [
          | inl t ↦ rw t (
              Yields-then (λ cr. (log : List Call) × (cloud.compute_of log child ≡ answer cr))
                (ask_compute cloud child (compute_properties cloud)) _ (Yields-request _ _)
                λ cr seen. compared-IsDirect child _ cr (within child (inl refl)) t seen rest)
          | inr f ↦ rw f rest
        ]

  some_in-IsDirect :
      (search : Mor → Method F Mob) (children : List Mor)
      → Yields (IsDirectMob children) (some_in cloud search name children)
  some_in-IsDirect search [] = Yields-pure empty tt
  some_in-IsDirect search (child ∷ children) =
      find_in-IsDirect (child ∷ children) search (child ∷ children) (λ m a. a)

  listed :
      (search : Mor → Method F Mob) (reply : Reply (List Mor)) (w : World (Vm F) Call) {ref : Mor}
      → (resume (of_reply reply) (some_in cloud search name) w).0 ≡ ok (found ref)
      → (children : List Mor) × (reply ≡ answer children) × IsDirect children ref
  listed search (failure x) w e = absurd (cc)
  listed search (answer children) w e = (
    children,
    refl,
    Succeeds-ok (IsDirectMob children) _ ((some_in-IsDirect search children).at w) e,
  )

  mob_found :
      (r : Result Mob) (w : World (Vm F) Call) {ref : Mor}
      → (resume r (outcome_of cloud) w).0 ≡ ok ref
      → r ≡ ok (found ref)
  mob_found (ok (found mor)) w e = cc
  mob_found (ok empty) w e = absurd (cc)
  mob_found (ok too_deep) w e = absurd (cc)
  mob_found (err x) w e = absurd (cc)
  mob_found panic w e = absurd (cc)

  -- What findMob returns is a compute resource or a cluster with this name that stands directly in the
  -- folder; those in the folders below are never returned.
  pub find_mob-IsDirect :
      (depth : ℕ) (mor : Mor) (w : World (Vm F) Call) {ref : Mor}
      → (find_mob cloud depth mor name w).0 ≡ ok ref
      → (children : List Mor) × (cloud.children_of w.log mor ≡ answer children)
        × IsDirect children ref
  unfolding find_mob find_mob_within
  find_mob-IsDirect zero mor w e = absurd (cc)
  find_mob-IsDirect (suc n) mor w e = listed _ (cloud.children_of w.log mor) _ (mob_found _ _ e)
