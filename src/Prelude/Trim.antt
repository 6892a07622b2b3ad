-- ===== src/Prelude/Trim.antt =====
-- `s.trim()` of JavaScript and `strings.TrimSpace(s)` of Go: both cut white space at the two ends,
-- and differ in what they take for white space.
use Prim.Native.Nat.{ℕ}
use Prim.Native.Char.{Char, code}
use Prim.Native.String.{String, [], ◌∷◌}
use mathlib.Core.Path.{◌≡◌, refl, sym, ◌∙◌}
use mathlib.Core.Logic.{inl, inr}
use native.Mathlib.Omega.{arith}
use mathlib.Core.Bool.{Bool, true, false, ◌&&◌, ◌||◌, false≢true}
use text.Mathlib.Text.{◌==◌}
use text.Mathlib.TextEquality.{eq_iff}
use davy_jones.Prelude.Tests.{nat_eq, leb, if◌then◌else◌, Bool-cases}
use davy_jones.Prelude.Text.{has_char}

-- what the two languages agree on
common_space : ℕ → Bool
common_space n =
    leb 9 n && leb n 13
    || nat_eq n 32
    || nat_eq n 160
    || nat_eq n 5760
    || leb 8192 n && leb n 8202
    || nat_eq n 8232
    || nat_eq n 8233
    || nat_eq n 8239
    || nat_eq n 8287
    || nat_eq n 12288

-- JavaScript counts the byte order mark, Go the next line.
unfoldable pub is_js_space : ℕ → Bool
unfolding common_space
is_js_space n = common_space n || nat_eq n 65279

unfoldable pub is_go_space : ℕ → Bool
unfolding common_space
is_go_space n = common_space n || nat_eq n 133

module _ (space : ℕ → Bool) where
  trim_start : String → String
  trim_start [] = ""
  trim_start (c ∷ s) = let rest = trim_start s in if space (code c) then rest else c ∷ s

  unfoldable pub is_blank : String → Bool
  is_blank [] = true
  is_blank (c ∷ s) = space (code c) && is_blank s

  trim_end : String → String
  unfolding is_blank
  trim_end [] = ""
  trim_end (c ∷ s) = let rest = trim_end s in if space (code c) && is_blank s then "" else c ∷ rest

  unfoldable pub trim_by : String → String
  unfolding trim_start trim_end
  trim_by s = trim_end (trim_start s)

pub cons-not_empty : (c : Char) (s : String) → (c ∷ s == "") ≡ false
cons-not_empty c s = elim (Bool-cases (c ∷ s == "")) [
  | inl e ↦ let same : c ∷ s ≡ "" = (eq_iff (c ∷ s) "").0 e in cc
  | inr e ↦ e
]

module _ (space : ℕ → Bool) where
  -- Nothing is left exactly when every character is a space.
  trim_by-is_blank : (s : String) → (trim_by space s == "") ≡ is_blank space s
  unfolding trim_by trim_start trim_end is_blank
  trim_by-is_blank [] = refl
  trim_by-is_blank (c ∷ s) = elim (Bool-cases (space (code c))) [
    | inl e ↦ rw e (trim_by-is_blank s)
    | inr e ↦ rw (e, e) (cons-not_empty c (trim_end space s))
  ]

-- `s.trim()`
unfoldable pub trim : String → String
unfolding trim_by is_js_space
trim s = trim_by is_js_space s

-- `strings.TrimSpace(s)`
unfoldable pub trim_space : String → String
unfolding trim_by is_go_space
trim_space s = trim_by is_go_space s

pub trim-is_blank : (s : String) → (trim s == "") ≡ is_blank is_js_space s
unfolding trim
trim-is_blank s = trim_by-is_blank is_js_space s

pub trim_space-is_blank : (s : String) → (trim_space s == "") ≡ is_blank is_go_space s
unfolding trim_space
trim_space-is_blank s = trim_by-is_blank is_go_space s

-- the one character that Go cuts and JavaScript keeps
abbrev pub next_line : ℕ
next_line = 133

space_go_js : (n : ℕ) → nat_eq n next_line ≡ false → is_go_space n ≡ true → is_js_space n ≡ true
unfolding is_go_space is_js_space
space_go_js n e h = ground arith

blank_go_js :
    (s : String)
    → has_char s next_line ≡ false
    → is_blank is_go_space s ≡ true
    → is_blank is_js_space s ≡ true
unfolding is_blank has_char
blank_go_js [] e h = refl
blank_go_js (c ∷ s) e h = ground (arith, space_go_js (code c), blank_go_js s)

-- What is not blank in the browser is not blank on the server, unless it has a next-line character.
pub trim_space_of_trim :
    (s : String)
    → has_char s next_line ≡ false
    → (trim s == "") ≡ false
    → (trim_space s == "") ≡ false
trim_space_of_trim s e h = elim (Bool-cases (trim_space s == "")) [
  | inl b ↦
      let blank : is_blank is_js_space s ≡ true =
        blank_go_js s e (sym (trim_space-is_blank s) ∙ b) in
      absurd (false≢true (sym h ∙ trim-is_blank s ∙ blank))
  | inr b ↦ b
]
