-- ===== src/Prelude/Encoding.antt =====
-- Percent encoding, by `encodeURIComponent` and by `URLSearchParams`: a character that is not kept
-- becomes the bytes of its UTF-8 form, each as % and two hexadecimal digits.
use Prim.Native.Nat.{ℕ, zero, suc, ◌+◌, ◌/◌, ◌%◌}
use Prim.Native.Char.{Char, code}
use Prim.Native.String.{String, [], ◌∷◌}
use mathlib.Core.Bool.{Bool, ◌&&◌, ◌||◌}
use davy_jones.Prelude.Tests.{ltb, leb, nat_eq, if◌then◌else◌}
use davy_jones.Prelude.Text.{concat, of_char, expand, has_char}

abbrev nth : String → ℕ → String
nth [] n = ""
nth (c ∷ s) zero = of_char c
nth (c ∷ s) (suc n) = nth s n

-- one byte
unfoldable pub escape : ℕ → String
unfolding concat
escape b = concat "%" (concat (nth "0123456789ABCDEF" (b / 16)) (nth "0123456789ABCDEF" (b % 16)))

-- the bytes of a character, escaped
unfoldable pub escape_utf8 : ℕ → String
unfolding escape concat
escape_utf8 n =
    if ltb n 128
    then escape n
    else if ltb n 2048
    then concat (escape (192 + n / 64)) (escape (128 + n % 64))
    else if ltb n 65536
    then concat (escape (224 + n / 4096))
        (concat (escape (128 + n / 64 % 64)) (escape (128 + n % 64)))
    else concat (escape (240 + n / 262144)) (
        concat (escape (128 + n / 4096 % 64))
          (concat (escape (128 + n / 64 % 64)) (escape (128 + n % 64))))

is_alphanumeric : ℕ → Bool
is_alphanumeric n = leb 48 n && leb n 57 || leb 65 n && leb n 90 || leb 97 n && leb n 122

uri_char : Char → String
unfolding is_alphanumeric escape_utf8
uri_char c =
    if is_alphanumeric (code c) || has_char "-_.!~*'()" (code c)
    then of_char c
    else escape_utf8 (code c)

-- `encodeURIComponent(s)`
unfoldable pub encode_uri_component : String → String
unfolding uri_char expand
encode_uri_component s = expand uri_char s

form_char : Char → String
unfolding is_alphanumeric escape_utf8
form_char c =
    if nat_eq (code c) 32
    then "+"
    else if is_alphanumeric (code c) || has_char "*-._" (code c)
    then of_char c
    else escape_utf8 (code c)

-- a value in the text of a `URLSearchParams`
unfoldable pub form_encode : String → String
unfolding form_char expand
form_encode s = expand form_char s
