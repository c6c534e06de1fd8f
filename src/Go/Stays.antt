-- ===== src/Go/Stays.antt =====
-- What of the struct an action leaves as it was: a rule for each way to build an action, so that
-- `search` proves a block by its statements.
use libretto.Base.{String, Bool, true, false, List, if◌then◌else◌}
use libretto.Go.Error.{Error}
use libretto.Go.Result.{Result, ok, err, panic, Reply}
use libretto.Go.Action.{
  World, Action, ◌>>=◌, resume, pure, fail, lift, attempt, wrap, get, calls, put, send, request,
  note,
}

-- Where P holds of the struct, it holds after `m`, however `m` ends.
pub record Stays {V C A : Type 0} (P : V → Type 0) (m : Action (World V C) A) : Type 0 where
  pub at : (w : World V C) → P w.vm → P (m w).1.vm

module _ {V C A : Type 0} {P : V → Type 0} where
  pub Stays-pure : (a : A) → Stays {C = C} P (pure a)
  Stays-pure a = record { at = λ w h. h }

  pub Stays-fail : (e : Error) → Stays {C = C} {A = A} P (fail e)
  Stays-fail e = record { at = λ w h. h }

  pub Stays-lift : (r : Result A) → Stays {C = C} P (lift r)
  Stays-lift r = record { at = λ w h. h }

  pub Stays-send : (c : C) (reply : List C → A) → Stays P (send c reply)
  Stays-send c reply = record { at = λ w h. h }

  pub Stays-request : (c : C) (reply : List C → Reply A) → Stays P (request c reply)
  Stays-request c reply = record { at = λ w h. h }

  pub Stays-attempt : (m : Action (World V C) A) → Stays P m → Stays P (attempt m)
  Stays-attempt m s = record { at = λ w h. s.at w h }

  pub Stays-wrap : (p : String) (m : Action (World V C) A) → Stays P m → Stays P (wrap p m)
  Stays-wrap p m s = record { at = λ w h. s.at w h }

  pub Stays-if :
      (b : Bool) (m n : Action (World V C) A) → Stays P m → Stays P n → Stays P (if b then m else n)
  Stays-if true m n sm sn = sm
  Stays-if false m n sm sn = sn

  -- A statement that reads the struct.
  pub Stays-get :
      (f : V → Action (World V C) A) → ((v : V) → P v → Stays P (f v)) → Stays P (get >>= f)
  Stays-get f s = record { at = λ w h. (s w.vm h).at w h }

module _ {V C : Type 0} {P : V → Type 0} where
  pub Stays-calls : Stays {C = C} P calls
  Stays-calls = record { at = λ w h. h }

  pub Stays-put : (v : V) → P v → Stays {C = C} P (put v)
  Stays-put v p = record { at = λ w h. p }

  pub Stays-note : (c : C) → Stays P (note c)
  Stays-note c = record { at = λ w h. h }

module _ {V C A B : Type 0} {P : V → Type 0} where
  resume-Stays :
      (r : Result A) (f : A → Action (World V C) B) (w : World V C)
      → ((a : A) → Stays P (f a))
      → P w.vm
      → P (resume r f w).1.vm
  resume-Stays (ok a) f w s h = (s a).at w h
  resume-Stays (err e) f w s h = h
  resume-Stays panic f w s h = h

  pub Stays-bind :
      (m : Action (World V C) A) (f : A → Action (World V C) B)
      → Stays P m
      → ((a : A) → Stays P (f a))
      → Stays P (m >>= f)
  Stays-bind m f sm sf = record { at = λ w h. resume-Stays (m w).0 f (m w).1 sf (sm.at w h) }

pub ruleset stays_rules = (
  Stays-pure, Stays-fail, Stays-lift, Stays-send, Stays-request, Stays-attempt, Stays-wrap,
  Stays-if, Stays-get, Stays-calls, Stays-put, Stays-note, Stays-bind,
)
