-- ===== src/Go/Yields.antt =====
-- What an action returns when it succeeds: a rule for each way to build an action.
use libretto.Base.{◌≡◌, refl, Bool, true, false, List, String, if◌then◌else◌, subst}
use libretto.Go.Error.{Error}
use libretto.Go.Result.{Result, ok, err, panic, Reply, answer, failure, of_reply}
use libretto.Go.Action.{
  World, request, attempt, outcome, on_error, wrap, Action, ◌>>=◌, resume, pure, fail, lift,
}

abbrev pub Succeeds : {A : Type 0} → (A → Type 0) → Result A → Type 0
Succeeds P (ok a) = P a
Succeeds P (err e) = Unit
Succeeds P panic = Unit

-- Whatever `m` returns satisfies P, from any state.
pub record Yields {S A : Type 0} (P : A → Type 0) (m : Action S A) : Type 0 where
  pub at : (s : S) → Succeeds P (m s).0

pub Succeeds-ok :
    {A : Type 0} (P : A → Type 0) (r : Result A) {a : A} → Succeeds P r → r ≡ ok a → P a
Succeeds-ok P (ok b) h e = let q : b ≡ _ = cc in subst P q h
Succeeds-ok P (err x) h e = absurd (cc)
Succeeds-ok P panic h e = absurd (cc)

module _ {S A : Type 0} {P : A → Type 0} where
  pub Yields-pure : (a : A) → P a → Yields {S = S} P (pure a)
  Yields-pure a p = record { at = λ s. p }

  pub Yields-fail : (e : Error) → Yields {S = S} P (fail e)
  Yields-fail e = record { at = λ s. tt }

  pub Yields-panic : Yields {S = S} P (lift panic)
  Yields-panic = record { at = λ s. tt }

  pub Yields-if :
      (b : Bool) (m n : Action S A) → Yields P m → Yields P n → Yields P (if b then m else n)
  Yields-if true m n ym yn = ym
  Yields-if false m n ym yn = yn

any-Succeeds : {A : Type 0} (r : Result A) → Succeeds (λ a. Unit {0}) r
any-Succeeds (ok a) = tt
any-Succeeds (err e) = tt
any-Succeeds panic = tt

module _ {S A B : Type 0} {P : B → Type 0} where
  resume-Yields :
      (Q : A → Type 0) (r : Result A) (f : A → Action S B) (s : S)
      → Succeeds Q r
      → ((a : A) → Q a → Yields P (f a))
      → Succeeds P (resume r f s).0
  resume-Yields Q (ok a) f s h y = (y a h).at s
  resume-Yields Q (err e) f s h y = tt
  resume-Yields Q panic f s h y = tt

  -- A statement of which something is known.
  pub Yields-then :
      (Q : A → Type 0) (m : Action S A) (f : A → Action S B)
      → Yields Q m
      → ((a : A) → Q a → Yields P (f a))
      → Yields P (m >>= f)
  Yields-then Q m f ym y = record { at = λ s. resume-Yields Q (m s).0 f (m s).1 (ym.at s) y }

  pub Yields-bind :
      (m : Action S A) (f : A → Action S B) → ((a : A) → Yields P (f a)) → Yields P (m >>= f)
  Yields-bind m f y =
      Yields-then (λ a. Unit {0}) m f (record { at = λ s. any-Succeeds (m s).0 }) (λ a _. y a)

map-Succeeds :
    {A : Type 0} (P Q : A → Type 0) (r : Result A)
    → ((a : A) → P a → Q a)
    → Succeeds P r
    → Succeeds Q r
map-Succeeds P Q (ok a) f h = f a h
map-Succeeds P Q (err e) f h = tt
map-Succeeds P Q panic f h = tt

pub Yields-map :
    {S A : Type 0} {P Q : A → Type 0} {m : Action S A}
    → ((a : A) → P a → Q a)
    → Yields P m
    → Yields Q m
Yields-map {P} {Q} {m} f y = record { at = λ s. map-Succeeds P Q (m s).0 f (y.at s) }

both-Succeeds :
    {A : Type 0} (P Q : A → Type 0) (r : Result A)
    → Succeeds P r
    → Succeeds Q r
    → Succeeds (λ a. P a × Q a) r
both-Succeeds P Q (ok a) h k = (h, k)
both-Succeeds P Q (err e) h k = tt
both-Succeeds P Q panic h k = tt

pub Yields-both :
    {S A : Type 0} {P Q : A → Type 0} {m : Action S A}
    → Yields P m
    → Yields Q m
    → Yields (λ a. P a × Q a) m
Yields-both {P} {Q} {m} y z = record { at = λ s. both-Succeeds P Q (m s).0 (y.at s) (z.at s) }

-- A reply that is known.
pub Yields-reply :
    {S A : Type 0} (r : Reply A) → Yields {S = S} (λ a. r ≡ answer a) (lift (of_reply r))
Yields-reply (answer a) = record { at = λ s. refl }
Yields-reply (failure e) = record { at = λ s. tt }

request-Succeeds :
    {A C : Type 0} (reply : List C → Reply A) (log : List C) (r : Reply A)
    → reply log ≡ r
    → Succeeds (λ a. (seen : List C) × (reply seen ≡ answer a)) (of_reply r)
request-Succeeds reply log (answer a) e = (log, e)
request-Succeeds reply log (failure x) e = tt

pub Yields-request :
    {V C A : Type 0} (c : C) (reply : List C → Reply A)
    → Yields {S = World V C} (λ a. (seen : List C) × (reply seen ≡ answer a)) (request c reply)
Yields-request c reply = record { at = λ w. request-Succeeds reply w.log (reply w.log) refl }

attempt-Succeeds :
    {A : Type 0} (P : A → Type 0) (r : Result A)
    → Succeeds P r
    → Succeeds (λ x. (a : A) → x ≡ answer a → P a) (outcome r)
attempt-Succeeds P (ok b) h = λ a e. let q : b ≡ a = cc in subst P q h
attempt-Succeeds P (err x) h = λ a e. absurd (cc)
attempt-Succeeds P panic h = tt

pub Yields-attempt :
    {S A : Type 0} {P : A → Type 0} {m : Action S A}
    → Yields P m
    → Yields (λ r. (a : A) → r ≡ answer a → P a) (attempt m)
Yields-attempt {P} {m} y = record { at = λ s. attempt-Succeeds P (m s).0 (y.at s) }

wrap-Succeeds :
    {A : Type 0} (P : A → Type 0) (g : Error → Error) (r : Result A)
    → Succeeds P r
    → Succeeds P (on_error g r)
wrap-Succeeds P g (ok b) h = h
wrap-Succeeds P g (err x) h = tt
wrap-Succeeds P g panic h = tt

pub Yields-wrap :
    {S A : Type 0} {P : A → Type 0} {m : Action S A} (prefix : String)
    → Yields P m
    → Yields P (wrap prefix m)
Yields-wrap {P} {m} prefix y = record { at = λ s. wrap-Succeeds P _ (m s).0 (y.at s) }

pub Yields-yes : {S A : Type 0} {P : Type 0} (m : Action S A) → P → Yields (λ _. P) m
Yields-yes m p = Yields-map (λ _ _. p) (record { at = λ s. any-Succeeds (m s).0 })

-- The run that a value comes from.
run-Succeeds :
    {S A : Type 0} (m : Action S A) (s : S) (r : Result A)
    → (m s).0 ≡ r
    → Succeeds (λ a. (t : S) × ((m t).0 ≡ ok a)) r
run-Succeeds m s (ok a) e = (s, e)
run-Succeeds m s (err x) e = tt
run-Succeeds m s panic e = tt

pub Yields-run : {S A : Type 0} (m : Action S A) → Yields (λ a. (t : S) × ((m t).0 ≡ ok a)) m
Yields-run m = record { at = λ s. run-Succeeds m s (m s).0 refl }
