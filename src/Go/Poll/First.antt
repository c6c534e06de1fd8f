-- ===== src/Go/Poll/First.antt =====
-- A poll ends as its first decisive round says: the converse of its end's description.
use libretto.Base.{ℕ, suc, ◌<◌, ◌≤◌, ◌≡◌, sym, ◌∙◌, subst, List, arith, dec_lt}
use libretto.Go.Error.{Error}
use libretto.Go.Result.{Result, ok, err, panic}
use libretto.Go.Action.{Action, World}
use libretto.Go.Retry.{Verdict, stop}
use libretto.Go.Poll.Loop.{polled, GoesOn, GoesOnBefore, Ends, returned, failed, crashed, ran_out}

module _ {V C L A : Type 0} (calls : ℕ → List C → List C)
    (verdict : ℕ → List C → Result (Verdict L A)) (after : L → Action (World V C) A) (n : ℕ)
    (w : World V C) where
  first_unique :
      (j k : ℕ)
      → GoesOnBefore calls verdict w.log j
      → ¬ GoesOn calls verdict w.log j
      → GoesOnBefore calls verdict w.log k
      → ¬ GoesOn calls verdict w.log k
      → j ≡ k
  first_unique j k before_j not_j before_k not_k = elim (dec_lt j k) [
    | yes earlier ↦ absurd (not_j (before_k j earlier))
    | no early ↦ elim (dec_lt k j) [
      | yes later ↦ absurd (not_k (before_j k later))
      | no late ↦ omega arith
    ]
  ]

  -- The rounds before k went on, and round k returns: so does the loop, after k + 1 rounds.
  pub Ends-returned :
      {r : Result A} {t : World V C} (k : ℕ) (a : A)
      → Ends calls verdict after n w r t
      → k < n
      → GoesOnBefore calls verdict w.log k
      → verdict k (polled calls k w.log) ≡ ok (stop a)
      → (r ≡ ok a) × (t ≡ record w { log = polled calls (suc k) w.log })
  Ends-returned {r} {t} k a (returned j b lt before v er et) lt_k before_k vk =
      let e = first_unique j k before (λ g. cc (v, g.1)) before_k (λ g. cc (vk, g.1)) in
      let v' = subst (λ m. verdict m (polled calls m w.log) ≡ ok (stop b)) e v in
      (cc, subst (λ m. t ≡ record w { log = polled calls (suc m) w.log }) e et)
  Ends-returned {r} {t} k a (failed j x lt before v er et) lt_k before_k vk =
      let e = first_unique j k before (λ g. cc (v, g.1)) before_k (λ g. cc (vk, g.1)) in
      let v' = subst (λ m. verdict m (polled calls m w.log) ≡ err x) e v in
      (cc, subst (λ m. t ≡ record w { log = polled calls (suc m) w.log }) e et)
  Ends-returned {r} {t} k a (crashed j lt before v er et) lt_k before_k vk =
      let e = first_unique j k before (λ g. cc (v, g.1)) before_k (λ g. cc (vk, g.1)) in
      let v' = subst (λ m. verdict m (polled calls m w.log) ≡ panic) e v in absurd (cc)
  Ends-returned k a (ran_out m l e before v er et) lt_k before_k vk =
      let g = before k lt_k in absurd (cc (vk, g.1))

  -- The rounds before k went on, and round k fails: so does the loop, after k + 1 rounds.
  pub Ends-failed :
      {r : Result A} {t : World V C} (k : ℕ) (x : Error)
      → Ends calls verdict after n w r t
      → k < n
      → GoesOnBefore calls verdict w.log k
      → verdict k (polled calls k w.log) ≡ err x
      → (r ≡ err x) × (t ≡ record w { log = polled calls (suc k) w.log })
  Ends-failed {r} {t} k x (returned j b lt before v er et) lt_k before_k vk =
      let e = first_unique j k before (λ g. cc (v, g.1)) before_k (λ g. cc (vk, g.1)) in
      let v' = subst (λ m. verdict m (polled calls m w.log) ≡ ok (stop b)) e v in
      (cc, subst (λ m. t ≡ record w { log = polled calls (suc m) w.log }) e et)
  Ends-failed {r} {t} k x (failed j y lt before v er et) lt_k before_k vk =
      let e = first_unique j k before (λ g. cc (v, g.1)) before_k (λ g. cc (vk, g.1)) in
      let v' = subst (λ m. verdict m (polled calls m w.log) ≡ err y) e v in
      (cc, subst (λ m. t ≡ record w { log = polled calls (suc m) w.log }) e et)
  Ends-failed {r} {t} k x (crashed j lt before v er et) lt_k before_k vk =
      let e = first_unique j k before (λ g. cc (v, g.1)) before_k (λ g. cc (vk, g.1)) in
      let v' = subst (λ m. verdict m (polled calls m w.log) ≡ panic) e v in absurd (cc)
  Ends-failed k x (ran_out m l e before v er et) lt_k before_k vk =
      let g = before k lt_k in absurd (cc (vk, g.1))

  -- A loop that returns a value does so in a round, unless the code after it returns one.
  pub Ends-ok :
      {r : Result A} {t : World V C} {a : A}
      → Ends calls verdict after n w r t
      → ((l : L) (u : World V C) → ¬ ((after l u).0 ≡ ok a))
      → r ≡ ok a
      → (k : ℕ) × (k < n)
        × GoesOnBefore calls verdict w.log k
        × (verdict k (polled calls k w.log) ≡ ok (stop a))
        × (t ≡ record w { log = polled calls (suc k) w.log })
  Ends-ok (returned j b lt before v er et) never h = (j, lt, before, cc, et)
  Ends-ok (failed j x lt before v er et) never h = absurd (cc)
  Ends-ok (crashed j lt before v er et) never h = absurd (cc)
  Ends-ok (ran_out m l e before v er et) never h =
      absurd (never l (record w { log = polled calls n w.log }) (sym er ∙ h))

  -- However a loop ends, it has run some k of its rounds, if the code after it sends nothing.
  pub Ends-log :
      {r : Result A} {t : World V C}
      → Ends calls verdict after n w r t
      → ((l : L) (u : World V C) → (after l u).1 ≡ u)
      → (k : ℕ) × (k ≤ n) × (t ≡ record w { log = polled calls k w.log })
  Ends-log (returned j b lt before v er et) quiet = (suc j, lt, et)
  Ends-log (failed j x lt before v er et) quiet = (suc j, lt, et)
  Ends-log (crashed j lt before v er et) quiet = (suc j, lt, et)
  Ends-log (ran_out m l e before v er et) quiet =
      (n, omega arith, et ∙ quiet l (record w { log = polled calls n w.log }))
