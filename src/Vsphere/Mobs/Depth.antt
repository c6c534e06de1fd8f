-- ===== src/Vsphere/Mobs/Depth.antt =====
-- findMob ends in an inventory whose folders stand in a hierarchy.
use libretto.Base.{
  Among, ◌≡◌, ◌≢◌, refl, ℕ, zero, suc, ◌<◌, String, List, [], ◌∷◌, ◌==◌, inl, inr, Bool-cases,
  eq_iff, arith,
}
use libretto.Go.Result.{ok, Reply, answer, failure}
use libretto.Go.Action.{World, attempt}
use libretto.Go.Yields.{
  Yields, Succeeds-ok, Yields-pure, Yields-fail, Yields-if, Yields-then, Yields-bind,
  Yields-request, Yields-attempt,
}
use libretto.Vsphere.Types.{Mor, Vm}
use libretto.Vsphere.Api.{Cloud, Call, Method, MoCompute}
use libretto.Vsphere.Mobs.{
  Mob, found, empty, too_deep, is_compute, ask_compute, below, compared, compute_properties,
  find_in, some_in, find_mob_within,
}

-- The folders among the children of a folder have a lower rank.
abbrev pub IsRanked : {F : Type 0} → Cloud F → (Mor → ℕ) → Type 0
IsRanked cloud rank =
    (log : List Call) (folder child : Mor) (children : List Mor)
    → cloud.children_of log folder ≡ answer children
    → Among child children
    → child.type ≡ "Folder"
    → rank child < rank folder

abbrev IsDone : Mob → Type 0
IsDone mob = mob ≢ too_deep

module _ {F : Type 0} (cloud : Cloud F) (name : String) where
  below-IsDone :
      (rest : Method F Mob) (r : Reply Mob)
      → ((mob : Mob) → r ≡ answer mob → IsDone mob)
      → Yields IsDone rest
      → Yields IsDone (below cloud rest r)
  below-IsDone rest (failure e) h y = Yields-fail e
  below-IsDone rest (answer too_deep) h y = absurd (h too_deep refl refl)
  below-IsDone rest (answer empty) h y = y
  below-IsDone rest (answer (found mor)) h y = y

  compared-IsDone :
      (rest : Method F Mob) (cr : MoCompute)
      → Yields IsDone rest
      → Yields IsDone (compared cloud name rest cr)
  compared-IsDone rest cr y = Yields-if (cr.name == name) _ _ (Yields-pure _ (λ e. cc)) y

  module _ (search : Mor → Method F Mob) where
    find_in-IsDone :
        (children : List Mor)
        → ((child : Mor)
            → Among child children
            → child.type ≡ "Folder"
            → Yields IsDone (search child))
        → Yields IsDone (find_in cloud search name children)
    unfolding find_in
    find_in-IsDone [] h = Yields-fail _
    find_in-IsDone (child ∷ children) h =
        let rest = find_in-IsDone children (λ c a. h c (inr a)) in
        let compute =
          Yields-if (is_compute child.type) _ _
            (Yields-bind (ask_compute cloud child (compute_properties cloud)) _
              λ cr. compared-IsDone (find_in cloud search name children) cr rest)
            rest in
        elim (Bool-cases (child.type == "Folder")) [
          | inl t ↦ rw t (
              Yields-then (λ r. (mob : Mob) → r ≡ answer mob → IsDone mob) (attempt (search child))
                _ (Yields-attempt (h child (inl refl) ((eq_iff child.type "Folder").0 t)))
                λ r k. below-IsDone (find_in cloud search name children) r k rest)
          | inr f ↦ rw f compute
        ]

    some_in-IsDone :
        (children : List Mor)
        → ((child : Mor)
            → Among child children
            → child.type ≡ "Folder"
            → Yields IsDone (search child))
        → Yields IsDone (some_in cloud search name children)
    some_in-IsDone [] h = Yields-pure empty (λ e. cc)
    some_in-IsDone (child ∷ children) h = find_in-IsDone (child ∷ children) h

  find_mob_within-IsDone :
      (rank : Mor → ℕ)
      → IsRanked cloud rank
      → (n : ℕ) (mor : Mor) → rank mor < n
      → Yields IsDone (find_mob_within cloud n name mor)
  unfolding find_mob_within
  find_mob_within-IsDone rank ranked zero mor h = absurd (omega arith)
  find_mob_within-IsDone rank ranked (suc n) mor h =
      Yields-then (λ children. (seen : List Call) × (cloud.children_of seen mor ≡ answer children))
        _ _ (Yields-request _ _)
        λ children known. some_in-IsDone (find_mob_within cloud n name) children λ c among folder.
          find_mob_within-IsDone rank ranked n c
            (omega (arith, h, ranked known.0 mor c children known.1 among folder))

  -- Where the folders of the inventory stand in a hierarchy, by a rank that falls from a folder to the
  -- folders in it, a depth above the rank of the folder suffices: findMob returns.
  pub find_mob_within-ends :
      (rank : Mor → ℕ)
      → IsRanked cloud rank
      → (n : ℕ) (mor : Mor) (w : World (Vm F) Call) → rank mor < n
      → (find_mob_within cloud n name mor w).0 ≢ ok too_deep
  find_mob_within-ends rank ranked n mor w h e =
      Succeeds-ok IsDone _ ((find_mob_within-IsDone rank ranked n mor h).at w) e refl
