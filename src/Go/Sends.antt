-- ===== src/Go/Sends.antt =====
-- Which calls an action can send: a rule for each way to build an action, so that `search` proves
-- a block by its statements.
use libretto.Base.{ℕ, zero, suc, String, Bool, true, false, List, All, if◌then◌else◌}
use libretto.Go.Error.{Error}
use libretto.Go.Result.{Result, ok, err, panic, Reply}
use libretto.Go.Action.{
  World, Action, ◌>>=◌, resume, pure, fail, lift, attempt, wrap, get, calls, put, send, request,
  note,
}
use libretto.Go.Retry.{Verdict, again, stop, continue_with, retry, retry-suc, retry-zero}

-- Every call that `m` adds to the log satisfies Q.
pub record Sends {V C A : Type 0} (Q : C → Type 0) (m : Action (World V C) A) : Type 0 where
  pub at : (w : World V C) → All Q w.log → All Q (m w).1.log

module _ {V C A : Type 0} {Q : C → Type 0} where
  pub Sends-pure : (a : A) → Sends {V = V} Q (pure a)
  Sends-pure a = record { at = λ w h. h }

  pub Sends-fail : (e : Error) → Sends {V = V} {A = A} Q (fail e)
  Sends-fail e = record { at = λ w h. h }

  pub Sends-lift : (r : Result A) → Sends {V = V} Q (lift r)
  Sends-lift r = record { at = λ w h. h }

  pub Sends-send : (c : C) (reply : List C → A) → Q c → Sends {V = V} Q (send c reply)
  Sends-send c reply q = record { at = λ w h. (q, h) }

  pub Sends-request : (c : C) (reply : List C → Reply A) → Q c → Sends {V = V} Q (request c reply)
  Sends-request c reply q = record { at = λ w h. (q, h) }

  pub Sends-attempt : (m : Action (World V C) A) → Sends Q m → Sends Q (attempt m)
  Sends-attempt m s = record { at = λ w h. s.at w h }

  pub Sends-wrap : (p : String) (m : Action (World V C) A) → Sends Q m → Sends Q (wrap p m)
  Sends-wrap p m s = record { at = λ w h. s.at w h }

  pub Sends-if :
      (b : Bool) (m n : Action (World V C) A) → Sends Q m → Sends Q n → Sends Q (if b then m else n)
  Sends-if true m n sm sn = sm
  Sends-if false m n sm sn = sn

module _ {V C : Type 0} {Q : C → Type 0} where
  pub Sends-get : Sends {V = V} Q get
  Sends-get = record { at = λ w h. h }

  pub Sends-calls : Sends {V = V} Q calls
  Sends-calls = record { at = λ w h. h }

  pub Sends-put : (v : V) → Sends Q (put v)
  Sends-put v = record { at = λ w h. h }

  pub Sends-note : (c : C) → Q c → Sends {V = V} Q (note c)
  Sends-note c q = record { at = λ w h. (q, h) }

module _ {V C A B : Type 0} {Q : C → Type 0} where
  resume-Sends :
      (r : Result A) (f : A → Action (World V C) B) (w : World V C)
      → ((a : A) → Sends Q (f a))
      → All Q w.log
      → All Q (resume r f w).1.log
  resume-Sends (ok a) f w s h = (s a).at w h
  resume-Sends (err e) f w s h = h
  resume-Sends panic f w s h = h

  pub Sends-bind :
      (m : Action (World V C) A) (f : A → Action (World V C) B)
      → Sends Q m
      → ((a : A) → Sends Q (f a))
      → Sends Q (m >>= f)
  Sends-bind m f sm sf = record { at = λ w h. resume-Sends (m w).0 f (m w).1 sf (sm.at w h) }

module _ {V C L A : Type 0} {Q : C → Type 0} where
  Sends-continue :
      (rest : L → Action (World V C) A) (v : Verdict L A)
      → ((l : L) → Sends Q (rest l))
      → Sends Q (continue_with rest v)
  Sends-continue rest (again l) s = record { at = λ w h. (s l).at w h }
  Sends-continue rest (stop a) s = record { at = λ w h. h }

  pub Sends-retry :
      (body : ℕ → L → Action (World V C) (Verdict L A)) (after : L → Action (World V C) A)
      → ((i : ℕ) (l : L) → Sends Q (body i l))
      → ((l : L) → Sends Q (after l))
      → (n i : ℕ) (l : L) → Sends Q (retry body after n i l)
  Sends-retry body after sb sa zero i l = record {
    at = λ w h. rw (retry-zero body after i l w) ((sa l).at w h);
  }
  Sends-retry body after sb sa (suc n) i l =
      let rest = Sends-retry body after sb sa n (suc i) in
      let all =
        Sends-bind (body i l) (continue_with (retry body after n (suc i))) (sb i l)
          (λ v. Sends-continue _ v rest) in
      record { at = λ w h. rw (retry-suc body after n i l w) (all.at w h) }

pub ruleset sends_rules = (
  Sends-pure, Sends-fail, Sends-lift, Sends-send, Sends-request, Sends-attempt, Sends-wrap,
  Sends-if, Sends-get, Sends-calls, Sends-put, Sends-note, Sends-bind, Sends-retry,
)
