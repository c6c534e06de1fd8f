-- ===== src/Vsphere/Paths.antt =====
-- virtualmachine/vsphere/util.go: splitPathToList, and the escape of a slash in getVmsInFolder.
pub mod Parse
pub mod RoundTrip
use Prim.Native.Char.{Char, char, code}
use Prim.Native.String.{String, [], ◌∷◌, len}
use mathlib.Core.List.{List, ◌++◌, [] as []ᴸ, ◌∷◌ as ◌∷ᴸ◌}
use libretto.Base.{
  ℕ, zero, suc, Bool, true, false, Option, none, some, equal, ◌<>◌, ◌&&◌, if◌then◌else◌,
}
use libretto.Go.Strings.{split}

abbrev pub slash : Char
slash = char 47 tt

abbrev pub backslash : Char
backslash = char 92 tt

abbrev pub is_slash : Char → Bool
is_slash c = equal (code c) 47

abbrev pub is_backslash : Char → Bool
is_backslash c = equal (code c) 92

abbrev pub in_first : Char → String × Option String → String × Option String
in_first c (s, rest) = (c ∷ s, rest)

-- strings.SplitN(path, "\\/", 2): the text before the first escaped slash, and the one behind it.
unfoldable pub split_at_escape : String → String × Option String
split_at_escape [] = ("", none)
split_at_escape (c ∷ []) = (c ∷ "", none)
split_at_escape (c ∷ d ∷ s) = elim (is_backslash c && is_slash d) [
  | true ↦ ("", some s)
  | false ↦ in_first c (split_at_escape (d ∷ s))
]

-- `pathList[lPathList-1] += "/" + morePathList[0]`, and the rest of morePathList behind it.
unfoldable pub join_last : List String → List String → List String
join_last []ᴸ more = more
join_last (last ∷ᴸ []ᴸ) []ᴸ = last ∷ᴸ []ᴸ
join_last (last ∷ᴸ []ᴸ) (name ∷ᴸ more) = (last <> "/" <> name) ∷ᴸ more
join_last (s ∷ᴸ t ∷ᴸ path) more = s ∷ᴸ join_last (t ∷ᴸ path) more

abbrev pub with_rest : (String → List String) → String × Option String → List String
with_rest f (before, none) = split 47 before
with_rest f (before, some rest) = join_last (split 47 before) (f rest)

-- With `n` calls of itself left.
unfoldable pub split_path : ℕ → String → List String
unfolding split_at_escape join_last split
split_path zero path = []ᴸ
split_path (suc n) path = with_rest (split_path n) (split_at_escape path)

-- A call for each character is enough.
unfoldable pub split_path_to_list : String → List String
unfolding split_path
split_path_to_list path = split_path (suc (len path)) path

-- strings.Replace(name, "/", "\\/", -1).
unfoldable pub escape : String → String
escape [] = ""
escape (c ∷ s) = let rest = escape s in if is_slash c then backslash ∷ c ∷ rest else c ∷ rest

-- The path of a machine or template that getVmsInFolder lists, from the names on the way to it.
unfoldable pub path_of : List String → String
unfolding escape
path_of []ᴸ = ""
path_of (name ∷ᴸ []ᴸ) = escape name
path_of (folder ∷ᴸ name ∷ᴸ names) = escape folder <> "/" <> path_of (name ∷ᴸ names)
