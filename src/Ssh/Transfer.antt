-- ===== src/Ssh/Transfer.antt =====
-- ssh/ssh.go: the first line of a transfer, which Upload writes and Download reads.
use Prim.Native.Char.{Char, char, code}
use Prim.Native.String.{String, [], ◌∷◌, len}
use Prim.Native.String.append
use mathlib.Core.List.{List, [] as []ᴸ, ◌∷◌ as ◌∷ᴸ◌}
use text.Mathlib.Text.{starts_with}
use text.Mathlib.TextLemmas.{append_assoc}
use text.Mathlib.TextPositions.{starts_with-append, len-append}
use libretto.Base.{
  ℕ, Bool, true, false, ◌≡◌, refl, equal, not, ◌&&◌, ◌<>◌, if◌then◌else◌, ap, sym, ◌∙◌,
}
use libretto.Go.Error.{Error, new}
use libretto.Go.Result.{Result, err, Reply, of_reply}
use libretto.Go.Strings.{split, in_front}

abbrev pub err_ssh_invalid_message_length : Error
err_ssh_invalid_message_length = new "Invalid message length"

-- Download: the length in the line s; strconv.ParseInt is a parameter.
unfoldable pub length_of : (String → Reply ℕ) → List String → Result ℕ
length_of parse_int []ᴸ = err err_ssh_invalid_message_length
length_of parse_int (a ∷ᴸ []ᴸ) = err err_ssh_invalid_message_length
length_of parse_int (a ∷ᴸ b ∷ᴸ []ᴸ) = err err_ssh_invalid_message_length
length_of parse_int (a ∷ᴸ b ∷ᴸ c ∷ᴸ []ᴸ) =
    if equal (len a) 5 && starts_with a "C"
    then of_reply (parse_int b)
    else err err_ssh_invalid_message_length
length_of parse_int (a ∷ᴸ b ∷ᴸ c ∷ᴸ d ∷ᴸ rest) = err err_ssh_invalid_message_length

unfoldable pub download_length : (String → Reply ℕ) → String → Result ℕ
unfolding length_of split
download_length parse_int line = length_of parse_int (split 32 line)

-- Upload: "C%#o %d %s\n" of the mode, the length and the name; the two numbers as they are printed.
unfoldable pub header : String → String → String → String
header mode length name = "C" <> mode <> " " <> length <> " " <> name <> "\n"

-- No character of the text is the separator.
unfoldable pub lacks : ℕ → String → Bool
lacks sep [] = true
lacks sep (c ∷ s) = not (equal (code c) sep) && lacks sep s

both : (a b : Bool) → (not a && b) ≡ true → (a ≡ false) × (b ≡ true)
both true b h = absurd (cc)
both false b h = (refl, h)

split-none : (sep : ℕ) (s : String) → lacks sep s ≡ true → split sep s ≡ s ∷ᴸ []ᴸ
unfolding split lacks in_front
split-none sep [] h = refl
split-none sep (c ∷ s) h =
    let (other, rest) = both (equal (code c) sep) (lacks sep s) h in
    rw (other, split-none sep s rest) refl

split-at :
    (sep : ℕ) (s : String) (c : Char) (rest : String)
    → lacks sep s ≡ true
    → equal (code c) sep ≡ true
    → split sep (s <> (c ∷ rest)) ≡ s ∷ᴸ split sep rest
unfolding split lacks in_front
split-at sep [] c rest h e = rw (append.nil (c ∷ rest), e) refl
split-at sep (d ∷ s) c rest h e =
    let (other, free) = both (equal (code d) sep) (lacks sep s) h in
    rw (append.cons d s (c ∷ rest), other, split-at sep s c rest free e) refl

abbrev space : Char
space = char 32 tt

blank : (s : String) → Path String (" " <> s) (space ∷ s)
blank s = append.cons space [] s ∙ ap (λ t. space ∷ t) (append.nil s)

fields :
    (a b c : String)
    → lacks 32 a ≡ true
    → lacks 32 b ≡ true
    → lacks 32 c ≡ true
    → split 32 (a <> " " <> b <> " " <> c) ≡ a ∷ᴸ b ∷ᴸ c ∷ᴸ []ᴸ
fields a b c ha hb hc =
    rw
      (
        blank c,
        blank (b <> (space ∷ c)),
        split-at 32 a space (b <> (space ∷ c)) ha refl,
        split-at 32 b space c hb refl,
        split-none 32 c hc,
      )
      refl

lacks-C : (sep : ℕ) (s : String) → equal 67 sep ≡ false → lacks sep ("C" <> s) ≡ lacks sep s
unfolding lacks
lacks-C sep s e = rw (append.cons (char 67 tt) [] s, append.nil s, e) refl

-- Download reads the length back from the line that Upload sends, if the mode is printed in four
-- characters, and neither it nor the length nor the name has a blank in it.
pub download_length-header :
    (parse_int : String → Reply ℕ) (mode length name : String)
    → len mode ≡ 4
    → lacks 32 mode ≡ true
    → lacks 32 length ≡ true
    → lacks 32 (name <> "\n") ≡ true
    → download_length parse_int (header mode length name) ≡ of_reply (parse_int length)
unfolding download_length header length_of
download_length-header parse_int mode length name four hm hl hn =
    rw
      (
        sym (append_assoc "C" mode (" " <> length <> " " <> name <> "\n")),
        fields ("C" <> mode) length (name <> "\n") (lacks-C 32 mode refl ∙ hm) hl hn,
        len-append "C" mode,
        four,
        starts_with-append "C" mode,
      )
      refl
