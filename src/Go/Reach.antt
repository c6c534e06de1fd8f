-- ===== src/Go/Reach.antt =====
-- Goroutines that share channels: the states that their steps reach, in any order.
use libretto.Base.{ℕ, suc}

module _ {S : Type 0} (Step : S → S → Type 0) where
  pub data Reach (start : S) : S → Type 0 where
    begin : Reach start start
    later : {s t : S} → Reach start s → Step s t → Reach start t

  -- What holds at the start and is kept by every step.
  pub Reach-invariant :
      {start : S} (P : S → Type 0)
      → P start
      → ((s t : S) → Step s t → P s → P t)
      → (s : S) → Reach start s
      → P s
  Reach-invariant P p keep s begin = p
  Reach-invariant P p keep t (later {s} r step) = keep s t step (Reach-invariant P p keep s r)

  -- A number of steps from one state to another.
  pub data Steps (start : S) : ℕ → S → Type 0 where
    none_yet : Steps start 0 start
    and_then : {n : ℕ} {s t : S} → Steps start n s → Step s t → Steps start (suc n) t

  pub Reach-Steps : {start s t : S} {n : ℕ} → Reach start s → Steps s n t → Reach start t
  Reach-Steps r none_yet = r
  Reach-Steps r (and_then steps step) = later (Reach-Steps r steps) step
