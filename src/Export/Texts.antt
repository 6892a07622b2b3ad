-- ===== src/Export/Texts.antt =====
-- The functions of src/lib/umlExport.ts that make a user's text safe inside a diagram file.
use Prim.Native.Nat.{ℕ}
use Prim.Native.Char.{Char, code}
use Prim.Native.String.{String, [], ◌∷◌}
use mathlib.Core.Bool.{Bool, ◌&&◌, ◌||◌}
use davy_jones.Prelude.{ltb, leb, nat_eq, if◌then◌else◌}
use davy_jones.Prelude.Text.{concat, of_char, has_char, expand}

-- the class `[a-zA-Z0-9_]`
abbrev pub is_word : ℕ → Bool
is_word n =
    (leb b'a' n && leb n b'z')
    || (leb b'A' n && leb n b'Z')
    || (leb b'0' n && leb n b'9')
    || nat_eq n b'_'

-- The expression has no `u` flag: a character beyond the first plane is two code units, and each of
-- them is replaced.
abbrev pub word_char : Char → String
word_char c = if is_word (code c) then of_char c else if ltb (code c) 65536 then "_" else "__"

unfoldable pub sanitize_id : String → String
unfolding expand
sanitize_id id = expand word_char id

-- the class `["\n\r]`
abbrev pub blank_char : Char → String
blank_char c = if has_char "\"\n\r" (code c) then " " else of_char c

-- `replace(/^[!@]/, "_")`
unfoldable pub mask_first : String → String
unfolding has_char
mask_first [] = ""
mask_first (c ∷ s) = if has_char "!@" (code c) then concat "_" s else c ∷ s

unfoldable pub plant_uml_safe : String → String
unfolding expand mask_first
plant_uml_safe s = mask_first (expand blank_char s)

-- the replacement of one character by a text
abbrev pub swap : ℕ → String → Char → String
swap n t c = if nat_eq (code c) n then t else of_char c

unfoldable pub xml_escape : String → String
unfolding expand
xml_escape s = expand (swap b'\'' "&apos;") (
    expand (swap b'"' "&quot;")
      (expand (swap b'>' "&gt;") (expand (swap b'<' "&lt;") (expand (swap b'&' "&amp;") s))))

unfoldable pub drawio_label : String → String
unfolding xml_escape expand
drawio_label s = expand (swap b'\n' "&#10;") (xml_escape s)
