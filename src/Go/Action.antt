-- ===== src/Go/Action.antt =====
-- A method of a virtual machine: it reads and writes the machine's struct, and sends calls to a
-- service. What was written and sent before an error or a panic stays.
use libretto.Base.{◌≡◌, refl, List, ◌∷◌, String}
use libretto.Go.Error.{Error, errorf}
use libretto.Go.Result
use libretto.Go.Result.{Result, ok, err, panic, Reply, answer, failure, of_reply}

-- The struct, and the calls sent so far, the last one first. A service answers by a function of the
-- calls that it has seen, so it may answer the same call differently each time.
pub record World (V C : Type 0) : Type 0 where
  pub vm : V
  pub log : List C

abbrev pub Action : Type 0 → Type 0 → Type 0
Action S A = S → Result A × S

module _ {S A B : Type 0} where
  abbrev pub resume : Result A → (A → Action S B) → Action S B
  resume (ok a) f s = f a s
  resume (err e) f s = (err e, s)
  resume panic f s = (panic, s)

  infixl 5 ◌>>=◌ ◌>>◌
  abbrev pub ◌>>=◌ : Action S A → (A → Action S B) → Action S B
  ◌>>=◌ m f s = let r = m s in resume r.0 f r.1

  abbrev pub ◌>>◌ : Action S A → Action S B → Action S B
  m >> n = m >>= λ _. n

module _ {A : Type 0} where
  -- `x, err := f()` where the code goes on to look at `err`.
  abbrev pub outcome : Result A → Result (Reply A)
  outcome (ok a) = ok (answer a)
  outcome (err e) = ok (failure e)
  outcome panic = panic

  -- `if err != nil { return g(err) }`.
  abbrev pub on_error : (Error → Error) → Result A → Result A
  on_error g (ok a) = ok a
  on_error g (err e) = err (g e)
  on_error g panic = panic

module _ {S A : Type 0} where
  abbrev pub pure : A → Action S A
  pure a s = (ok a, s)

  abbrev pub fail : Error → Action S A
  fail e s = (err e, s)

  abbrev pub lift : Result A → Action S A
  lift r s = (r, s)

  abbrev pub attempt : Action S A → Action S (Reply A)
  attempt m s = let r = m s in (outcome r.0, r.1)

  abbrev pub wrap : String → Action S A → Action S A
  wrap prefix m s = let r = m s in (on_error (errorf prefix) r.0, r.1)

-- `if err != nil { return h(err) }` where `h` sends calls itself.
abbrev pub recover : {S A : Type 0} → Result A → (Error → Action S A) → Action S A
recover (ok a) h s = (ok a, s)
recover (err e) h s = h e s
recover panic h s = (panic, s)

abbrev pub on_failure : {S A : Type 0} → Action S A → (Error → Action S A) → Action S A
on_failure m h s = let r = m s in recover r.0 h r.1

-- A test of what an action returned, which does nothing more.
pub resume-lift :
    {S A B : Type 0} (r : Result A) (g : A → Result B) (s : S)
    → resume r (λ a. lift (g a)) s ≡ (Result.◌>>=◌ r g, s)
resume-lift (ok a) g s = refl
resume-lift (err e) g s = refl
resume-lift panic g s = refl

-- A block that succeeds goes through its first statement.
pub resume-ok :
    {S A B : Type 0} (r : Result A) (f : A → Action S B) (s : S) {b : B}
    → (resume r f s).0 ≡ ok b
    → (a : A) × (r ≡ ok a) × ((f a s).0 ≡ ok b)
resume-ok (ok a) f s h = (a, refl, h)
resume-ok (err e) f s h = absurd (cc)
resume-ok panic f s h = absurd (cc)

-- A block after its first statement has returned.
pub resume-run :
    {S A B : Type 0} (r : Result A) (f : A → Action S B) (s : S) {a : A}
    → r ≡ ok a
    → resume r f s ≡ f a s
resume-run r f s e = rw e refl

pub on_error-ok :
    {A : Type 0} (g : Error → Error) (r : Result A) {a : A} → on_error g r ≡ ok a → r ≡ ok a
on_error-ok g (ok b) h = h
on_error-ok g (err e) h = absurd (cc)
on_error-ok g panic h = absurd (cc)

pub of_reply-ok : {A : Type 0} (r : Reply A) {a : A} → of_reply r ≡ ok a → r ≡ answer a
of_reply-ok (answer b) h = cc
of_reply-ok (failure e) h = absurd (cc)

module _ {V C : Type 0} where
  abbrev pub get : Action (World V C) V
  get w = (ok w.vm, w)

  -- The calls so far, on which what a service makes up may depend.
  abbrev pub calls : Action (World V C) (List C)
  calls w = (ok w.log, w)

  abbrev pub put : V → Action (World V C) (Unit {0})
  put v w = (ok tt, record w { vm = v })

  -- A call of the service: it sees the calls before this one.
  abbrev pub send {ℓ} : {A : Type ℓ} → C → (List C → A) → World V C → Result A × World V C
  send c reply w = (ok (reply w.log), record w { log = c ∷ w.log })

  abbrev pub request : {A : Type 0} → C → (List C → Reply A) → Action (World V C) A
  request c reply w = (of_reply (reply w.log), record w { log = c ∷ w.log })

  -- A statement that is only logged, such as time.Sleep.
  abbrev pub note : C → Action (World V C) (Unit {0})
  note c w = (ok tt, record w { log = c ∷ w.log })
