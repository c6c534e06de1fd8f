-- ===== src/Go/Retry.antt =====
-- `for i := 0; i < n; i++ { … }` whose body may `continue` or `return`, and the code after it.
use libretto.Base.{ℕ, zero, suc, ◌≡◌, refl}
use libretto.Go.Result.{Result, ok, err, panic}
use libretto.Go.Action.{Action, ◌>>=◌, resume}

-- The end of a round: the next one, with the locals that the loop carries, or a return.
pub data Verdict (L A : Type 0) : Type 0 where
  again : L → Verdict L A
  stop : A → Verdict L A

abbrev pub continue_with : {S L A : Type 0} → (L → Action S A) → Verdict L A → Action S A
continue_with rest (again l) s = rest l s
continue_with rest (stop a) s = (ok a, s)

module _ {S L A : Type 0} (body : ℕ → L → Action S (Verdict L A)) (after : L → Action S A) where
  -- A loop of `n` more rounds, from round `i`.
  unfoldable pub retry : ℕ → ℕ → L → Action S A
  retry zero i l s = after l s
  retry (suc n) i l s = (body i l >>= continue_with (retry n (suc i))) s

  pub retry-suc :
      (n i : ℕ) (l : L) (s : S)
      → retry (suc n) i l s ≡ (body i l >>= continue_with (retry n (suc i))) s
  unfolding retry
  retry-suc n i l s = refl

  pub retry-zero : (i : ℕ) (l : L) (s : S) → retry 0 i l s ≡ after l s
  unfolding retry
  retry-zero i l s = refl

-- Two loops whose rounds agree wherever the loop may come.
module _ {S L A : Type 0} (body other : ℕ → L → Action S (Verdict L A)) (after : L → Action S A)
    (P : S → Type 0) (agree : (i : ℕ) (l : L) (s : S) → P s → body i l s ≡ other i l s)
    (keep : (i : ℕ) (l : L) (s : S) → P s → P (other i l s).1) where
  continue-same :
      (n i : ℕ) (r : Result (Verdict L A)) (s : S)
      → ((l : L) → retry body after n i l s ≡ retry other after n i l s)
      → resume r (continue_with (retry body after n i)) s
        ≡ resume r (continue_with (retry other after n i)) s
  continue-same n i (ok (again l)) s same = same l
  continue-same n i (ok (stop a)) s same = refl
  continue-same n i (err e) s same = refl
  continue-same n i panic s same = refl

  pub retry-same :
      (n i : ℕ) (l : L) (s : S) → P s → retry body after n i l s ≡ retry other after n i l s
  retry-same zero i l s p = rw (retry-zero body after i l s, retry-zero other after i l s)
  retry-same (suc n) i l s p =
      rw (retry-suc body after n i l s, retry-suc other after n i l s, agree i l s p)
        (continue-same n (suc i) (other i l s).0 (other i l s).1
          λ m. retry-same n (suc i) m (other i l s).1 (keep i l s p))
