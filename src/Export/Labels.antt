-- ===== src/Export/Labels.antt =====
-- `drawioLabel` of src/lib/umlExport.ts against an XML reader's view of an attribute in double quotes.
use Prim.Native.Char.{Char, code}
use Prim.Native.String.{[], ◌∷◌}
use mathlib.Core.Option
use text.Mathlib.TextEquality.{Char-path}
use davy_jones.Prelude.{
  ℕ, String, Bool, true, false, not, ◌&&◌, ◌||◌, leb, ◌≡◌, refl, arith, Option, none, some, ◌==◌,
  nat_eq, Bool-cases, inl, inr, if◌then◌else◌,
}
use davy_jones.Prelude.Text.{concat, of_char, has_char, AllChars, expand, expand-concat, concat-nil}
use davy_jones.Export.Texts.{xml_escape, drawio_label}

-- the character references that a document may use without a declaration, and the line feed's
abbrev pub reference : String → Option Char
reference name =
    if name == "amp"
    then some "&"
    else if name == "lt"
    then some "<"
    else if name == "gt"
    then some ">"
    else if name == "quot"
    then some "\""
    else if name == "apos"
    then some "'"
    else if name == "#10"
    then some "\n"
    else none

-- a character that an XML 1.0 document may have
abbrev pub is_xml_char : ℕ → Bool
is_xml_char n =
    has_char "\t\n\r" n || (leb 32 n && leb n 55295) || (leb 57344 n && leb n 65533) || leb 65536 n

-- What the reader makes of the value of an attribute: `none` where the document is not well-formed (a
-- character that it may not have, a loose & or <, an unknown reference) or the value ends early. White space that is not escaped reads as a space. In a reference, the
-- name so far is kept.
unfoldable pub read_value : Option String → String → Option String
unfolding concat has_char
read_value none [] = some ""
read_value (some name) [] = none
read_value (some name) (c ∷ s) =
    let more = read_value (some (concat name (of_char c))) s in
    let after = read_value none s in
    if nat_eq (code c) b';'
    then elim (reference name) [ none ↦ none | some d ↦ Option.map (◌∷◌ d) after ]
    else more
read_value none (c ∷ s) =
    let inside = read_value (some "") s in
    let after = read_value none s in
    if not (is_xml_char (code c))
    then none
    else if nat_eq (code c) b'&'
    then inside
    else if has_char "<\"" (code c)
    then none
    else if has_char "\n\r\t" (code c)
    then Option.map (◌∷◌ " ") after
    else Option.map (◌∷◌ c) after

-- the text with a carriage return or a tab read as a space
abbrev pub flat_char : Char → String
flat_char c = if has_char "\r\t" (code c) then " " else of_char c

label-cons :
    (c : Char) (s : String)
    → drawio_label (c ∷ s) ≡ concat (drawio_label (of_char c)) (drawio_label s)
unfolding drawio_label xml_escape expand concat
label-cons c s = simp (expand-concat, concat-nil)

-- a character that no part of the escaping touches
label_plain :
    (c : Char)
    → nat_eq (code c) b'&' ≡ false
    → nat_eq (code c) b'<' ≡ false
    → nat_eq (code c) b'>' ≡ false
    → nat_eq (code c) b'"' ≡ false
    → nat_eq (code c) b'\'' ≡ false
    → nat_eq (code c) b'\n' ≡ false
    → drawio_label (of_char c) ≡ of_char c
unfolding drawio_label xml_escape expand concat
label_plain c amp lt gt quot apos feed = simp (amp, lt, gt, quot, apos, feed)

not_markup :
    (c : Char)
    → nat_eq (code c) b'<' ≡ false
    → nat_eq (code c) b'"' ≡ false
    → has_char "<\"" (code c) ≡ false
unfolding has_char
not_markup c lt quot = ground arith

blanks :
    (c : Char)
    → nat_eq (code c) b'\n' ≡ false
    → has_char "\n\r\t" (code c) ≡ has_char "\r\t" (code c)
unfolding has_char
blanks c feed = ground arith

-- what the reader does with one escaped character
abbrev ReadsBack : Char → Type 0
ReadsBack c =
    (t : String)
    → read_value none (concat (drawio_label (of_char c)) t)
      ≡ Option.map (concat (flat_char c)) (read_value none t)

plain-ReadsBack :
    (c : Char)
    → is_xml_char (code c) ≡ true
    → nat_eq (code c) b'&' ≡ false
    → nat_eq (code c) b'<' ≡ false
    → nat_eq (code c) b'>' ≡ false
    → nat_eq (code c) b'"' ≡ false
    → nat_eq (code c) b'\'' ≡ false
    → nat_eq (code c) b'\n' ≡ false
    → ReadsBack c
unfolding read_value concat
plain-ReadsBack c legal amp lt gt quot apos feed t =
    rw (label_plain c amp lt gt quot apos feed, legal, amp, not_markup c lt quot, blanks c feed)
      (elim (Bool-cases (has_char "\r\t" (code c))) [ inl e ↦ rw e refl | inr e ↦ rw e refl ])

amp-ReadsBack : ReadsBack "&"
unfolding read_value drawio_label xml_escape concat expand has_char
amp-ReadsBack t = refl

lt-ReadsBack : ReadsBack "<"
unfolding read_value drawio_label xml_escape concat expand has_char
lt-ReadsBack t = refl

gt-ReadsBack : ReadsBack ">"
unfolding read_value drawio_label xml_escape concat expand has_char
gt-ReadsBack t = refl

quot-ReadsBack : ReadsBack "\""
unfolding read_value drawio_label xml_escape concat expand has_char
quot-ReadsBack t = refl

apos-ReadsBack : ReadsBack "'"
unfolding read_value drawio_label xml_escape concat expand has_char
apos-ReadsBack t = refl

feed-ReadsBack : ReadsBack "\n"
unfolding read_value drawio_label xml_escape concat expand has_char
feed-ReadsBack t = refl

char-ReadsBack : (c : Char) → is_xml_char (code c) ≡ true → ReadsBack c
char-ReadsBack c legal = elim (Bool-cases (nat_eq (code c) b'&')) [
  | inl e ↦ rw (Char-path c "&" (ground arith)) amp-ReadsBack
  | inr amp ↦ elim (Bool-cases (nat_eq (code c) b'<')) [
    | inl e ↦ rw (Char-path c "<" (ground arith)) lt-ReadsBack
    | inr lt ↦ elim (Bool-cases (nat_eq (code c) b'>')) [
      | inl e ↦ rw (Char-path c ">" (ground arith)) gt-ReadsBack
      | inr gt ↦ elim (Bool-cases (nat_eq (code c) b'"')) [
        | inl e ↦ rw (Char-path c "\"" (ground arith)) quot-ReadsBack
        | inr quot ↦ elim (Bool-cases (nat_eq (code c) b'\'')) [
          | inl e ↦ rw (Char-path c "'" (ground arith)) apos-ReadsBack
          | inr apos ↦ elim (Bool-cases (nat_eq (code c) b'\n')) [
            | inl e ↦ rw (Char-path c "\n" (ground arith)) feed-ReadsBack
            | inr feed ↦ plain-ReadsBack c legal amp lt gt quot apos feed
          ]
        ]
      ]
    ]
  ]
]

-- What a reader of the exported document gets from a label is the label itself, with a space for each
-- carriage return and each tab. Each of its characters is one that an XML document may have, which
-- excludes most control characters.
pub read_value-drawio_label :
    (s : String)
    → AllChars (λ n. is_xml_char n ≡ true) s
    → read_value none (drawio_label s) ≡ some (expand flat_char s)
unfolding expand
read_value-drawio_label [] h = unfold read_value drawio_label xml_escape in refl
read_value-drawio_label (c ∷ s) h =
    rw (label-cons c s, char-ReadsBack c h.0 (drawio_label s), read_value-drawio_label s h.1) refl
