-- ===== src/Go/Keeps.antt =====
-- Which actions leave the struct as it is: a rule for each way to build an action.
use libretto.Base.{ℕ, zero, suc, String, Bool, true, false, List, ◌≡◌, refl, ◌∙◌, if◌then◌else◌}
use libretto.Go.Error.{Error}
use libretto.Go.Result.{Result, ok, err, panic, Reply}
use libretto.Go.Action.{
  World, Action, ◌>>=◌, resume, pure, fail, lift, attempt, wrap, get, calls, send, request, note,
}
use libretto.Go.Retry.{Verdict, again, stop, continue_with, retry, retry-suc, retry-zero}

-- `m` does not change the struct, however it ends.
pub record Keeps {V C A : Type 0} (m : Action (World V C) A) : Type 0 where
  pub at : (w : World V C) → (m w).1.vm ≡ w.vm

module _ {V C A : Type 0} where
  pub Keeps-pure : (a : A) → Keeps {V = V} {C = C} (pure a)
  Keeps-pure a = record { at = λ w. refl }

  pub Keeps-fail : (e : Error) → Keeps {V = V} {C = C} {A = A} (fail e)
  Keeps-fail e = record { at = λ w. refl }

  pub Keeps-lift : (r : Result A) → Keeps {V = V} {C = C} (lift r)
  Keeps-lift r = record { at = λ w. refl }

  pub Keeps-send : (c : C) (reply : List C → A) → Keeps {V = V} (send c reply)
  Keeps-send c reply = record { at = λ w. refl }

  pub Keeps-request : (c : C) (reply : List C → Reply A) → Keeps {V = V} (request c reply)
  Keeps-request c reply = record { at = λ w. refl }

  pub Keeps-attempt : (m : Action (World V C) A) → Keeps m → Keeps (attempt m)
  Keeps-attempt m s = record { at = λ w. s.at w }

  pub Keeps-wrap : (p : String) (m : Action (World V C) A) → Keeps m → Keeps (wrap p m)
  Keeps-wrap p m s = record { at = λ w. s.at w }

  pub Keeps-if :
      (b : Bool) (m n : Action (World V C) A) → Keeps m → Keeps n → Keeps (if b then m else n)
  Keeps-if true m n sm sn = sm
  Keeps-if false m n sm sn = sn

module _ {V C : Type 0} where
  pub Keeps-get : Keeps {V = V} {C = C} get
  Keeps-get = record { at = λ w. refl }

  pub Keeps-calls : Keeps {V = V} {C = C} calls
  Keeps-calls = record { at = λ w. refl }

  pub Keeps-note : (c : C) → Keeps {V = V} (note c)
  Keeps-note c = record { at = λ w. refl }

module _ {V C A B : Type 0} where
  resume-Keeps :
      (r : Result A) (f : A → Action (World V C) B) (w : World V C)
      → ((a : A) → Keeps (f a))
      → (resume r f w).1.vm ≡ w.vm
  resume-Keeps (ok a) f w s = (s a).at w
  resume-Keeps (err e) f w s = refl
  resume-Keeps panic f w s = refl

  pub Keeps-bind :
      (m : Action (World V C) A) (f : A → Action (World V C) B)
      → Keeps m
      → ((a : A) → Keeps (f a))
      → Keeps (m >>= f)
  Keeps-bind m f sm sf = record { at = λ w. resume-Keeps (m w).0 f (m w).1 sf ∙ sm.at w }

module _ {V C L A : Type 0} where
  Keeps-continue :
      (rest : L → Action (World V C) A) (v : Verdict L A)
      → ((l : L) → Keeps (rest l))
      → Keeps (continue_with rest v)
  Keeps-continue rest (again l) s = record { at = λ w. (s l).at w }
  Keeps-continue rest (stop a) s = record { at = λ w. refl }

  pub Keeps-retry :
      (body : ℕ → L → Action (World V C) (Verdict L A)) (after : L → Action (World V C) A)
      → ((i : ℕ) (l : L) → Keeps (body i l))
      → ((l : L) → Keeps (after l))
      → (n i : ℕ) (l : L) → Keeps (retry body after n i l)
  Keeps-retry body after sb sa zero i l = record {
    at = λ w. rw (retry-zero body after i l w) ((sa l).at w);
  }
  Keeps-retry body after sb sa (suc n) i l =
      let rest = Keeps-retry body after sb sa n (suc i) in
      let all =
        Keeps-bind (body i l) (continue_with (retry body after n (suc i))) (sb i l)
          (λ v. Keeps-continue _ v rest) in
      record { at = λ w. rw (retry-suc body after n i l w) (all.at w) }

pub ruleset keeps_rules = (
  Keeps-pure, Keeps-fail, Keeps-lift, Keeps-send, Keeps-request, Keeps-attempt, Keeps-wrap,
  Keeps-if, Keeps-get, Keeps-calls, Keeps-note, Keeps-bind, Keeps-retry,
)
