-- ===== src/Go/Poll/Loop.antt =====
-- A retry loop that polls: round k sends the same calls whatever they return, and goes on or not by
-- the answers alone. Such a loop ends at its first round that does not go on, or runs out.
use libretto.Base.{ℕ, zero, suc, ◌+◌, ◌<◌, ◌≡◌, refl, sym, subst, List, arith, dec_lt}
use libretto.Go.Error.{Error}
use libretto.Go.Result.{Result, ok, err, panic}
use libretto.Go.Action.{Action, World, resume}
use libretto.Go.Retry.{Verdict, again, stop, continue_with, retry, retry-suc, retry-zero}

-- The calls sent after k rounds, the last one first.
unfoldable pub polled : {C : Type 0} → (ℕ → List C → List C) → ℕ → List C → List C
polled calls zero log = log
polled calls (suc k) log = calls k (polled calls k log)

module _ {C L A : Type 0} (calls : ℕ → List C → List C)
    (verdict : ℕ → List C → Result (Verdict L A)) where
  abbrev pub GoesOn : List C → ℕ → Type 0
  GoesOn log k = (l : L) × (verdict k (polled calls k log) ≡ ok (again l))

  abbrev pub GoesOnBefore : List C → ℕ → Type 0
  GoesOnBefore log k = (j : ℕ) → j < k → GoesOn log j

module _ {V C L A : Type 0} (calls : ℕ → List C → List C)
    (verdict : ℕ → List C → Result (Verdict L A)) where
  -- How a loop of `n` rounds from `w` ends: in a round k after others that went on, or after all.
  pub data Ends (after : L → Action (World V C) A) (n : ℕ) (w : World V C)
      : Result A → World V C → Type 0 where
    returned :
        (k : ℕ) (a : A) {r : Result A} {t : World V C}
        → k < n
        → GoesOnBefore calls verdict w.log k
        → verdict k (polled calls k w.log) ≡ ok (stop a)
        → r ≡ ok a
        → t ≡ record w { log = polled calls (suc k) w.log }
        → Ends after n w r t
    failed :
        (k : ℕ) (e : Error) {r : Result A} {t : World V C}
        → k < n
        → GoesOnBefore calls verdict w.log k
        → verdict k (polled calls k w.log) ≡ err e
        → r ≡ err e
        → t ≡ record w { log = polled calls (suc k) w.log }
        → Ends after n w r t
    crashed :
        (k : ℕ) {r : Result A} {t : World V C}
        → k < n
        → GoesOnBefore calls verdict w.log k
        → verdict k (polled calls k w.log) ≡ panic
        → r ≡ panic
        → t ≡ record w { log = polled calls (suc k) w.log }
        → Ends after n w r t
    ran_out :
        (m : ℕ) (l : L) {r : Result A} {t : World V C}
        → n ≡ suc m
        → GoesOnBefore calls verdict w.log n
        → verdict m (polled calls m w.log) ≡ ok (again l)
        → r ≡ (after l (record w { log = polled calls n w.log })).0
        → t ≡ (after l (record w { log = polled calls n w.log })).1
        → Ends after n w r t

module _ {V C L A : Type 0} (calls : ℕ → List C → List C)
    (verdict : ℕ → List C → Result (Verdict L A)) (body : ℕ → L → Action (World V C) (Verdict L A))
    (after : L → Action (World V C) A)
    (polls : (k : ℕ) (l : L) (w : World V C)
      → body k l w ≡ (verdict k w.log, record w { log = calls k w.log }))
    (n : ℕ) (w : World V C) where
  abbrev at : ℕ → World V C
  at i = record w { log = polled calls i w.log }

  abbrev LoopEnds : Result A × World V C → Type 0
  LoopEnds o = Ends calls verdict after (suc n) w o.0 o.1

  -- The round `i` with `r` rounds after it, by what its verdict is.
  round_ends :
      (r i : ℕ) (v : Result (Verdict L A))
      → i < suc n
      → GoesOnBefore calls verdict w.log i
      → verdict i (polled calls i w.log) ≡ v
      → ((l : L) → v ≡ ok (again l) → LoopEnds (retry body after r (suc i) l (at (suc i))))
      → LoopEnds (resume v (continue_with (retry body after r (suc i))) (at (suc i)))
  round_ends r i (ok (again l)) lt before e rest = rest l refl
  round_ends r i (ok (stop a)) lt before e rest = returned i a lt before e refl refl
  round_ends r i (err x) lt before e rest = failed i x lt before e refl refl
  round_ends r i panic lt before e rest = crashed i lt before e refl refl

  extend :
      (i : ℕ)
      → GoesOnBefore calls verdict w.log i
      → GoesOn calls verdict w.log i
      → GoesOnBefore calls verdict w.log (suc i)
  extend i before now j lt = elim (dec_lt j i) [
    | yes earlier ↦ before j earlier
    | no late ↦ subst (GoesOn calls verdict w.log) (omega arith) now
  ]

  last_round :
      (i : ℕ) (l : L)
      → i ≡ suc n
      → GoesOnBefore calls verdict w.log i
      → ((m : ℕ) → i ≡ suc m → verdict m (polled calls m w.log) ≡ ok (again l))
      → LoopEnds (after l (at i))
  last_round i l e before last =
      subst (λ k. LoopEnds (after l (at k))) (sym e)
        (ran_out n l refl (subst (GoesOnBefore calls verdict w.log) e before) (last n e) refl refl)

  ends_from :
      (r i : ℕ) (l : L)
      → i + r ≡ suc n
      → GoesOnBefore calls verdict w.log i
      → ((m : ℕ) → i ≡ suc m → verdict m (polled calls m w.log) ≡ ok (again l))
      → LoopEnds (retry body after r i l (at i))
  unfolding polled
  ends_from zero i l e before last =
      rw (retry-zero body after i l (at i)) (last_round i l (omega arith) before last)
  ends_from (suc r) i l e before last = rw (retry-suc body after r i l (at i)) (
      rw (polls i l (at i)) (
        round_ends r i (verdict i (polled calls i w.log)) (omega arith) before refl λ m v.
          ends_from r (suc i) m (omega arith) (extend i before (m, v))
            (λ k e'. subst (λ q. verdict q (polled calls q w.log) ≡ ok (again m)) (omega arith) v)))

  pub poll-Ends : (l : L) → LoopEnds (retry body after (suc n) 0 l w)
  unfolding polled
  poll-Ends l =
      ends_from (suc n) 0 l (omega arith) (λ j lt. elim lt [ ]) (λ m e. absurd (omega arith))
