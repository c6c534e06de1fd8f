-- ===== src/Util.antt =====
-- util/util.go: the addresses that GetSSH connects to, and random choices. The VM's GetIPs and rand.Intn
-- are parameters.
use libretto.Base.{
  Bool-cases, false, ℕ, zero, suc, ◌+◌, ◌-◌, ◌<◌, ◌≤◌, String, Among, length, equal, ltb, arith,
  if◌then◌else◌, List, [], ◌∷◌, ◌≡◌, ◌≢◌, refl, ◌⊎◌, inl, inr,
}
use libretto.Ssh.{Ip, Options}
use libretto.Go.Error.{Error}
use libretto.Go.Result
use libretto.Go.Result.{Result, ok, err, panic}
use libretto.Machine.{err_vm_no_ip}
use libretto.Go.Action.{Action, ◌>>=◌, pure, fail, wrap, resume, on_error}

abbrev some_ips : {S : Type 0} → List Ip → Action S (List Ip)
some_ips [] = fail err_vm_no_ip
some_ips (ip ∷ ips) = pure (ip ∷ ips)

abbrev given_or : {S : Type 0} → Action S (List Ip) → List Ip → Action S (List Ip)
given_or m (ip ∷ ips) = pure (ip ∷ ips)
given_or m [] = do found ← wrap "Error getting IPs for the VM: " m; some_ips found

unfoldable pub get_vm_ips : {S : Type 0} → Action S (List Ip) → Options → Action S (List Ip)
get_vm_ips get_ips options = given_or get_ips options.ips

wrapped_ok :
    {S : Type 0} (g : Error → Error) (r : Result (List Ip)) (s : S) {ips : List Ip}
    → (resume (on_error g r) some_ips s).0 ≡ ok ips
    → (ips ≢ []) × (r ≡ ok ips)
wrapped_ok g (ok []) s h = absurd (cc)
wrapped_ok g (ok (ip ∷ found)) s h = ((λ e. cc), h)
wrapped_ok g (err e) s h = absurd (cc)
wrapped_ok g panic s h = absurd (cc)

given_ok :
    {S : Type 0} (m : Action S (List Ip)) (given : List Ip) (s : S) {ips : List Ip}
    → (given_or m given s).0 ≡ ok ips
    → (ips ≢ []) × ((given ≡ ips) ⊎ ((given ≡ []) × ((m s).0 ≡ ok ips)))
given_ok m [] s h =
    let (some_ip, found) = wrapped_ok _ (m s).0 (m s).1 h in (some_ip, inr (refl, found))
given_ok m (ip ∷ given) s h = ((λ e. cc), inl (cc))

-- Where GetVMIPs returns addresses, there is at least one, and they are those of the options, or,
-- where the options have none, those that GetIPs returns.
pub get_vm_ips-ok :
    {S : Type 0} (get_ips : Action S (List Ip)) (options : Options) (s : S) {ips : List Ip}
    → (get_vm_ips get_ips options s).0 ≡ ok ips
    → (ips ≢ []) × ((options.ips ≡ ips) ⊎ ((options.ips ≡ []) × ((get_ips s).0 ≡ ok ips)))
unfolding get_vm_ips
get_vm_ips-ok get_ips options s h = given_ok get_ips options.ips s h

-- xs[i].
abbrev pub nth : {A : Type 0} → List A → ℕ → Result A
nth [] i = panic
nth (x ∷ xs) zero = ok x
nth (x ∷ xs) (suc i) = nth xs i

-- With rand.Intn.
unfoldable pub random : (ℕ → ℕ) → ℕ → ℕ → Result ℕ
random intn min max =
    if equal min max
    then ok min
    else (if ltb max min then panic else ok (intn (max - min + 1) + min))

-- The least index is 0.
unfoldable pub choose_random_string : (ℕ → ℕ) → List String → Result String
unfolding random
choose_random_string intn [] = ok ""
choose_random_string intn (s ∷ from) = Result.◌>>=◌ (random intn 0 (length from)) (nth (s ∷ from))

random-within :
    (intn : ℕ → ℕ) (min max : ℕ)
    → ((n : ℕ) → 0 < n → intn n < n)
    → min ≤ max
    → (r : ℕ) × (random intn min max ≡ ok r) × (min ≤ r) × (r ≤ max)
unfolding random
random-within intn min max below h = elim (Bool-cases (equal min max)) [
  | inl e ↦ (min, rw e refl, omega arith, h)
  | inr e ↦
      let ordered : ltb max min ≡ false = ground arith in
      (
        intn (max - min + 1) + min,
        rw (e, ordered) refl,
        omega arith,
        omega (arith, h, below (max - min + 1) (omega arith)),
      )
]

nth-Among :
    {A : Type 0} (xs : List A) (i : ℕ) → i < length xs → (x : A) × (nth xs i ≡ ok x) × Among x xs
nth-Among [] i h = absurd (omega arith)
nth-Among (x ∷ xs) zero h = (x, refl, inl refl)
nth-Among (x ∷ xs) (suc i) h = let (y, e, a) = nth-Among xs i (omega arith) in (y, e, inr a)

-- Where rand.Intn gives a number below its argument, ChooseRandomString does not panic, and it gives a
-- text of the slice, if there is one.
pub choose_random_string-Among :
    (intn : ℕ → ℕ) (s : String) (from : List String)
    → ((n : ℕ) → 0 < n → intn n < n)
    → (t : String) × (choose_random_string intn (s ∷ from) ≡ ok t) × Among t (s ∷ from)
unfolding choose_random_string
choose_random_string-Among intn s from below =
    let (r, e, low, high) = random-within intn 0 (length from) below (omega arith) in
    let (t, e', a) = nth-Among (s ∷ from) r (omega (arith, high)) in (t, rw e e', a)
