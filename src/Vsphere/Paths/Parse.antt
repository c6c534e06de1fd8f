-- ===== src/Vsphere/Paths/Parse.antt =====
-- splitPathToList is a parser of one pass, and reads back the paths that getVmsInFolder writes.
use Prim.Native.Char.{Char, char, IsScalar}
use Prim.Native.String.{String, [], ◌∷◌, len}
use Prim.Native.String.append
use Prim.Native.String.len
use mathlib.Core.List.{List, [] as []ᴸ, ◌∷◌ as ◌∷ᴸ◌}
use text.Mathlib.TextPositions.{len_utf8-pos}
use libretto.Base.{
  ℕ, zero, suc, ◌<◌, ◌≤◌, ◌≡◌, refl, Bool, true, false, Option, none, some, ◌<>◌, ◌&&◌, arith,
  subst, sym, ap, ◌∙◌, Bool-cases, inl, inr, if◌then◌else◌,
}
use libretto.Go.Strings.{split, in_front}
use libretto.Vsphere.Paths.{
  slash, is_slash, is_backslash, in_first, split_at_escape, join_last, with_rest, split_path,
  split_path_to_list,
}

-- One pass over the characters: an escaped slash belongs to the name, any other slash ends it.
unfoldable pub names : String → List String
unfolding in_front
names [] = "" ∷ᴸ []ᴸ
names (c ∷ []) = if is_slash c then "" ∷ᴸ "" ∷ᴸ []ᴸ else (c ∷ "") ∷ᴸ []ᴸ
names (c ∷ d ∷ s) = elim (is_backslash c && is_slash d) [
  | true ↦ in_front d (names s)
  | false ↦ elim (is_slash c) [ true ↦ "" ∷ᴸ names (d ∷ s) | false ↦ in_front c (names (d ∷ s)) ]
]

IsSlash-slash : (d : Char) → is_slash d ≡ true → d ≡ slash
IsSlash-slash (char n p) h =
    let e : 47 ≡ n = ground arith in
    subst (λ m. (q : IsScalar m) → char m q ≡ slash) e (λ q. refl) p

-- A list that is not empty.
abbrev Some : List String → Type 0
Some path = (name : String) × (rest : List String) × (path ≡ name ∷ᴸ rest)

in_front-Some : (c : Char) (path : List String) → Some (in_front c path)
unfolding in_front
in_front-Some c []ᴸ = (c ∷ "", []ᴸ, refl)
in_front-Some c (name ∷ᴸ rest) = (c ∷ name, rest, refl)

if-Some : (b : Bool) (p q : List String) → Some p → Some q → Some (if b then p else q)
if-Some true p q some_p some_q = some_p
if-Some false p q some_p some_q = some_q

split-Some : (s : String) → Some (split 47 s)
unfolding split
split-Some [] = ("", []ᴸ, refl)
split-Some (c ∷ s) =
    if-Some (is_slash c) ("" ∷ᴸ split 47 s) (in_front c (split 47 s)) ("", split 47 s, refl)
      (in_front-Some c (split 47 s))

-- The parts of a split text, joined to what is behind an escape.
front-joined :
    (c : Char) (path more : List String)
    → Some path
    → join_last (in_front c path) more ≡ in_front c (join_last path more)
unfolding join_last in_front
front-joined c []ᴸ more (name, rest, e) = absurd (cc)
front-joined c (last ∷ᴸ []ᴸ) []ᴸ _ = refl
front-joined c (last ∷ᴸ []ᴸ) (name ∷ᴸ more) _ =
    ap (λ t. t ∷ᴸ more) (append.cons c last ("/" <> name))
front-joined c (s ∷ᴸ t ∷ᴸ path) more _ = refl

next-joined :
    (path more : List String) → Some path → join_last ("" ∷ᴸ path) more ≡ "" ∷ᴸ join_last path more
unfolding join_last
next-joined []ᴸ more (name, rest, e) = absurd (cc)
next-joined (t ∷ᴸ path) more _ = refl

slash-text : (s : String) → Path String ("" <> ("/" <> s)) (slash ∷ s)
slash-text s = append.nil ("/" <> s) ∙ append.cons slash [] s ∙ ap (λ t. slash ∷ t) (append.nil s)

escaped-joined :
    (d : Char) (path : List String)
    → Some path
    → is_slash d ≡ true
    → join_last ("" ∷ᴸ []ᴸ) path ≡ in_front d path
unfolding join_last in_front
escaped-joined d []ᴸ (name, rest, e) h = absurd (cc)
escaped-joined d (name ∷ᴸ path) _ h =
    ap (λ t. t ∷ᴸ path) (slash-text name) ∙ ap (λ c. (c ∷ name) ∷ᴸ path) (sym (IsSlash-slash d h))

-- The clauses of `names` and of SplitN on a text of two characters or more.
module _ (c d : Char) (s : String) where
  pub names-escape :
      (is_backslash c && is_slash d) ≡ true → names (c ∷ d ∷ s) ≡ in_front d (names s)
  unfolding names
  names-escape h = rw (h, names) refl

  pub names-slash :
      (is_backslash c && is_slash d) ≡ false
      → is_slash c ≡ true
      → names (c ∷ d ∷ s) ≡ "" ∷ᴸ names (d ∷ s)
  unfolding names
  names-slash h e = rw (h, e, names) refl

  pub names-plain :
      (is_backslash c && is_slash d) ≡ false
      → is_slash c ≡ false
      → names (c ∷ d ∷ s) ≡ in_front c (names (d ∷ s))
  unfolding names
  names-plain h e = rw (h, e, names) refl

  split_at-escape :
      (is_backslash c && is_slash d) ≡ true → split_at_escape (c ∷ d ∷ s) ≡ ("", some s)
  unfolding split_at_escape
  split_at-escape h = rw (h, split_at_escape) refl

  split_at-other :
      (is_backslash c && is_slash d) ≡ false
      → split_at_escape (c ∷ d ∷ s) ≡ in_first c (split_at_escape (d ∷ s))
  unfolding split_at_escape
  split_at-other h = rw (h, split_at_escape) refl

names-Some : (s : String) → Some (names s)
unfolding names
names-Some [] = ("", []ᴸ, refl)
names-Some (c ∷ []) =
    if-Some (is_slash c) ("" ∷ᴸ "" ∷ᴸ []ᴸ) ((c ∷ "") ∷ᴸ []ᴸ) ("", "" ∷ᴸ []ᴸ, refl)
      (c ∷ "", []ᴸ, refl)
names-Some (c ∷ d ∷ s) = elim (Bool-cases (is_backslash c && is_slash d)) [
  | inl e ↦ rw (names-escape c d s e) (in_front-Some d (names s))
  | inr e ↦ elim (Bool-cases (is_slash c)) [
    | inl e' ↦ rw (names-slash c d s e e') ("", names (d ∷ s), refl)
    | inr e' ↦ rw (names-plain c d s e e') (in_front-Some c (names (d ∷ s)))
  ]
]

after_first :
    (f : String → List String) (c : Char) (r : String × Option String)
    → with_rest f (in_first c r)
      ≡ (if is_slash c then "" ∷ᴸ with_rest f r else in_front c (with_rest f r))
unfolding split
after_first f c (a, none) = elim (Bool-cases (is_slash c)) [ inl e ↦ rw e refl | inr e ↦ rw e refl ]
after_first f c (a, some rest) = elim (Bool-cases (is_slash c)) [
  | inl e ↦ rw e (next-joined (split 47 a) (f rest) (split-Some a))
  | inr e ↦ rw e (front-joined c (split 47 a) (f rest) (split-Some a))
]

second : (a b : Bool) → (a && b) ≡ true → b ≡ true
second true b h = h
second false b h = absurd (cc)

-- The step of splitPathToList on the text from here on, where the calls on shorter texts agree.
module _ (n : ℕ) (shorter : (t : String) → len t < n → split_path n t ≡ names t) where
  rest-names : (s : String) → len s ≤ n → with_rest (split_path n) (split_at_escape s) ≡ names s
  unfolding split_at_escape split names in_front
  rest-names [] h = refl
  rest-names (c ∷ []) h = refl
  rest-names (c ∷ d ∷ s) h = elim (Bool-cases (is_backslash c && is_slash d)) [
    | inl e ↦
        let known = shorter s (omega (arith, len.cons c (d ∷ s), len.cons d s, len_utf8-pos c)) in
        rw (split_at-escape c d s e, names-escape c d s e, known)
          (escaped-joined d (names s) (names-Some s) (second (is_backslash c) (is_slash d) e))
    | inr e ↦
        let rest = rest-names (d ∷ s) (omega (arith, len.cons c (d ∷ s), len_utf8-pos c)) in
        let here = split_at-other c d s e in
        elim (Bool-cases (is_slash c)) [
          | inl e' ↦
              rw (here, after_first (split_path n) c (split_at_escape (d ∷ s)), rest, e')
                (sym (names-slash c d s e e'))
          | inr e' ↦
              rw (here, after_first (split_path n) c (split_at_escape (d ∷ s)), rest, e')
                (sym (names-plain c d s e e'))
        ]
  ]

split_path-names : (n : ℕ) (s : String) → len s < n → split_path n s ≡ names s
unfolding split_path
split_path-names zero s h = absurd (omega arith)
split_path-names (suc n) s h = rest-names n (split_path-names n) s (omega arith)

-- splitPathToList, which splits at the first escaped slash and calls itself on the rest, gives the
-- names of one pass in which an escaped slash belongs to a name and any other slash ends it.
pub split_path_to_list-names : (path : String) → split_path_to_list path ≡ names path
unfolding split_path_to_list
split_path_to_list-names path = split_path-names (suc (len path)) path (omega arith)
