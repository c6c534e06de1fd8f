-- ===== src/Vsphere/Paths/RoundTrip.antt =====
-- The paths that getVmsInFolder writes are read back by splitPathToList.
use Prim.Native.Char.{Char}
use Prim.Native.String.{String, [], ◌∷◌}
use Prim.Native.String.append
use mathlib.Core.List.{List, [] as []ᴸ, ◌∷◌ as ◌∷ᴸ◌}
use text.Mathlib.TextLemmas.{append-nil as append_nil}
use libretto.Base.{
  ◌≡◌, ◌≢◌, refl, Bool, true, false, ◌<>◌, ◌&&◌, ap, sym, ◌∙◌, Bool-cases, inl, inr, if◌then◌else◌,
}
use libretto.Go.Strings.{in_front}
use libretto.Vsphere.Paths.{
  slash, backslash, is_slash, is_backslash, split_path_to_list, escape, path_of,
}
use libretto.Vsphere.Paths.Parse.{names, names-escape, names-plain, split_path_to_list-names}

-- The last character, where there is one.
abbrev pub EndsIn : (Char → Type 0) → String → Type 0
EndsIn P [] = Unit
EndsIn P (c ∷ []) = P c
EndsIn P (c ∷ d ∷ s) = EndsIn P (d ∷ s)

abbrev pub IsOpen : Char → Type 0
IsOpen c = is_backslash c ≡ false

-- No name but the last ends in a backslash.
abbrev pub AreFolders : List String → Type 0
AreFolders []ᴸ = Unit
AreFolders (name ∷ᴸ []ᴸ) = Unit
AreFolders (folder ∷ᴸ name ∷ᴸ path) = EndsIn IsOpen folder × AreFolders (name ∷ᴸ path)

second_false : (a b : Bool) → b ≡ false → (a && b) ≡ false
second_false true b h = h
second_false false b h = refl

-- An escaped name in front of a text.
escape_onto : String → String → String
escape_onto [] t = t
escape_onto (c ∷ s) t =
    let rest = escape_onto s t in if is_slash c then backslash ∷ c ∷ rest else c ∷ rest

escape_onto-escape : (name t : String) → escape_onto name t ≡ escape name <> t
unfolding escape_onto escape
escape_onto-escape [] t = sym (append.nil t)
escape_onto-escape (c ∷ s) t = elim (Bool-cases (is_slash c)) [
  | inl e ↦
      rw (e, escape_onto-escape s t)
        (sym (
          append.cons backslash (c ∷ escape s) t
          ∙ ap (λ r. backslash ∷ r) (append.cons c (escape s) t)))
  | inr e ↦ rw (e, escape_onto-escape s t) (sym (append.cons c (escape s) t))
]

module _ (P : Char → Type 0) (t : String) (rest : List String) (start : names t ≡ "" ∷ᴸ rest)
    (single : (c : Char) → is_slash c ≡ false → P c → names (c ∷ t) ≡ (c ∷ "") ∷ᴸ rest) where
  -- Behind a character that is no slash comes the end or a character that is no slash.
  front :
      (c d : Char) (s : String)
      → is_slash c ≡ false
      → names (c ∷ escape_onto (d ∷ s) t) ≡ in_front c (names (escape_onto (d ∷ s) t))
  unfolding escape_onto
  front c d s h = elim (Bool-cases (is_slash d)) [
    | inl e ↦ rw e (names-plain c backslash _ (second_false (is_backslash c) false refl) h)
    | inr e ↦ rw e (names-plain c d _ (second_false (is_backslash c) (is_slash d) e) h)
  ]

  escaped :
      (c : Char) (s : String)
      → is_slash c ≡ true
      → names (escape_onto (c ∷ s) t) ≡ in_front c (names (escape_onto s t))
  unfolding escape_onto
  escaped c s e = rw e (names-escape backslash c _ e)

  names-written : (name : String) → EndsIn P name → names (escape_onto name t) ≡ name ∷ᴸ rest
  unfolding escape_onto in_front
  names-written [] h = start
  names-written (c ∷ []) h = elim (Bool-cases (is_slash c)) [
    | inl e ↦ escaped c [] e ∙ rw start refl
    | inr e ↦ rw e (single c e h)
  ]
  names-written (c ∷ d ∷ s) h = elim (Bool-cases (is_slash c)) [
    | inl e ↦ escaped c (d ∷ s) e ∙ ap (in_front c) (names-written (d ∷ s) h)
    | inr e ↦ rw e (front c d s e ∙ ap (in_front c) (names-written (d ∷ s) h))
  ]

names-single : (c : Char) → is_slash c ≡ false → Unit {0} → names (c ∷ "") ≡ (c ∷ "") ∷ᴸ []ᴸ
unfolding names
names-single c e h = rw (e, names) refl

names-behind : (s : String) → names (slash ∷ s) ≡ "" ∷ᴸ names s
unfolding names
names-behind [] = refl
names-behind (d ∷ s) = refl

names-open :
    (s : String) (c : Char)
    → is_slash c ≡ false
    → IsOpen c
    → names (c ∷ slash ∷ s) ≡ (c ∷ "") ∷ᴸ names s
unfolding in_front
names-open s c e h = names-plain c slash s (rw h refl) e ∙ ap (in_front c) (names-behind s)

EndsIn-any : (name : String) → EndsIn (λ c. Unit {0}) name
EndsIn-any [] = tt
EndsIn-any (c ∷ []) = tt
EndsIn-any (c ∷ d ∷ s) = EndsIn-any (d ∷ s)

names-name : (name : String) → names (escape name) ≡ name ∷ᴸ []ᴸ
unfolding names
names-name name =
    ap names (sym (escape_onto-escape name "" ∙ append_nil (escape name)))
    ∙ names-written (λ c. Unit {0}) "" []ᴸ refl names-single name (EndsIn-any name)

names-folder :
    (name path : String)
    → EndsIn IsOpen name
    → names (escape name <> ("/" <> path)) ≡ name ∷ᴸ names path
names-folder name path h =
    ap (λ t. names (escape name <> t))
      (append.cons slash [] path ∙ ap (λ t. slash ∷ t) (append.nil path))
    ∙ ap names (sym (escape_onto-escape name (slash ∷ path)))
    ∙ names-written IsOpen (slash ∷ path) (names path) (names-behind path) (names-open path) name h

names-path : (path : List String) → AreFolders path → path ≢ []ᴸ → names (path_of path) ≡ path
unfolding path_of
names-path []ᴸ h some = absurd (some refl)
names-path (name ∷ᴸ []ᴸ) h some = names-name name
names-path (folder ∷ᴸ name ∷ᴸ path) h some =
    names-folder folder (path_of (name ∷ᴸ path)) h.0
    ∙ ap (λ t. folder ∷ᴸ t) (names-path (name ∷ᴸ path) h.1 (λ e. cc))

-- splitPathToList reads back the names from the path that getVmsInFolder writes for them, where no
-- name but the last ends in a backslash and there is a name.
pub split_path_to_list-path_of :
    (path : List String) → AreFolders path → path ≢ []ᴸ → split_path_to_list (path_of path) ≡ path
split_path_to_list-path_of path h some =
    split_path_to_list-names (path_of path) ∙ names-path path h some
