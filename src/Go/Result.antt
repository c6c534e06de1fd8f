-- ===== src/Go/Result.antt =====
-- What a Go call ends in: a value, an error beside which the value is not read, or a panic.
use libretto.Base.{◌≡◌, refl, Option, none, some, List, [], ◌∷◌}
use libretto.Go.Error.{Error}

pub data Result {ℓ} (A : Type ℓ) : Type ℓ where
  ok : A → Result A
  err : Error → Result A
  panic : Result A

-- What a call of a service returns: its output, or an error. A service does not panic here.
pub data Reply {ℓ} (A : Type ℓ) : Type ℓ where
  answer : A → Reply A
  failure : Error → Reply A

module _ {ℓ κ} {A : Type ℓ} {B : Type κ} where
  infixl 5 ◌>>=◌
  abbrev pub ◌>>=◌ : Result A → (A → Result B) → Result B
  panic >>= next = panic
  err e >>= next = err e
  ok a >>= next = next a

abbrev pub of_reply {ℓ} : {A : Type ℓ} → Reply A → Result A
of_reply (answer a) = ok a
of_reply (failure e) = err e

-- `*p`: a nil pointer panics.
abbrev pub deref {ℓ} : {A : Type ℓ} → Option A → Result A
deref none = panic
deref (some a) = ok a

-- `xs[0]`: an empty slice panics.
abbrev pub first {ℓ} : {A : Type ℓ} → List A → Result A
first [] = panic
first (x ∷ xs) = ok x

-- A block that succeeds goes through its first statement.
module _ {A B : Type 0} {y : B} where
  pub bind-ok :
      (r : Result A) (next : A → Result B)
      → (r >>= next) ≡ ok y
      → (x : A) × (r ≡ ok x) × (next x ≡ ok y)
  bind-ok panic next e = absurd (cc)
  bind-ok (err x) next e = absurd (cc)
  bind-ok (ok x) next e = (x, refl, e)

-- A loop that appends what each entry is converted to.
unfoldable pub collect {ℓ κ} : {A : Type ℓ} {B : Type κ} → (A → Result B) → List A → Result (List B)
collect f [] = ok []
collect f (x ∷ xs) = do b ← f x; bs ← collect f xs; ok (b ∷ bs)
