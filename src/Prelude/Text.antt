-- ===== src/Prelude/Text.antt =====
-- Strings by clauses: `concat` for `+`, `template` for template literals, `expand` for a global
-- `replace` of single characters, and predicates on the characters.
use Prim.Native.Nat.{ℕ}
use Prim.Native.Char.{Char, code}
use Prim.Native.String.{String, [], ◌∷◌}
use mathlib.Core.Path.{◌≡◌, refl, sym, ap, ◌∙◌}
use mathlib.Core.Bool.{Bool, true, false, ◌&&◌, ◌||◌}
use mathlib.Core.List.{List}
use mathlib.Core.Option.{Option, none, some}
use text.Mathlib.TextLemmas.{tail-eq_of_cons-eq}
use davy_jones.Prelude.Tests.{nat_eq}

-- `s + t`
unfoldable pub concat : String → String → String
concat [] t = t
concat (c ∷ s) t = c ∷ concat s t

-- a template literal: its pieces, in order
unfoldable pub template : List String → String
unfolding concat
template List.[] = ""
template (List.◌∷◌ s r) = concat s (template r)

-- `parts.join(sep)`
unfoldable pub join : String → List String → String
unfolding concat
join sep List.[] = ""
join sep (List.◌∷◌ s List.[]) = s
join sep (List.◌∷◌ s (List.◌∷◌ t r)) = concat s (concat sep (join sep (List.◌∷◌ t r)))

-- a text of one character
abbrev pub of_char : Char → String
of_char c = c ∷ []

-- `c` is one of the characters of `s`.
unfoldable pub has_char : String → ℕ → Bool
has_char [] n = false
has_char (c ∷ s) n = nat_eq (code c) n || has_char s n

-- each character replaced by a text
unfoldable pub expand : (Char → String) → String → String
unfolding concat
expand f [] = ""
expand f (c ∷ s) = concat (f c) (expand f s)

-- `s.startsWith(t)`
unfoldable pub starts_with : String → String → Bool
starts_with [] s = true
starts_with (c ∷ t) [] = false
starts_with (c ∷ t) (d ∷ s) = nat_eq (code c) (code d) && starts_with t s

-- `s.includes(t)`
unfoldable pub includes : String → String → Bool
unfolding starts_with
includes t [] = starts_with t []
includes t (d ∷ s) = starts_with t (d ∷ s) || includes t s

-- Truthiness of an optional string: `undefined` and `""` are falsy.
abbrev pub truthy : Option String → Bool
truthy none = false
truthy (some s) = elim s [ [] ↦ false | _ ∷ _ ↦ true ]

-- Every character satisfies `P`.
abbrev pub AllChars : (ℕ → Type 0) → String → Type 0
AllChars P [] = Unit
AllChars P (c ∷ s) = P (code c) × AllChars P s

pub concat-nil : (s : String) → concat s "" ≡ s
unfolding concat
concat-nil [] = refl
concat-nil (c ∷ s) = ap (λ (t : String). c ∷ t) (concat-nil s)

pub concat_assoc : (s t u : String) → concat (concat s t) u ≡ concat s (concat t u)
unfolding concat
concat_assoc [] t u = refl
concat_assoc (c ∷ s) t u = ap (λ (v : String). c ∷ v) (concat_assoc s t u)

pub concat_cancel_left : (s t u : String) → concat s t ≡ concat s u → t ≡ u
unfolding concat
concat_cancel_left [] t u e = e
concat_cancel_left (c ∷ s) t u e = concat_cancel_left s t u (tail-eq_of_cons-eq e)

pub expand-concat :
    (f : Char → String) (s t : String) → expand f (concat s t) ≡ concat (expand f s) (expand f t)
unfolding expand concat
expand-concat f [] t = refl
expand-concat f (c ∷ s) t =
    ap (concat (f c)) (expand-concat f s t) ∙ sym (concat_assoc (f c) (expand f s) (expand f t))

pub AllChars-concat :
    (P : ℕ → Type 0) (s t : String) → AllChars P s → AllChars P t → AllChars P (concat s t)
unfolding concat
AllChars-concat P [] t h k = k
AllChars-concat P (c ∷ s) t h k = (h.0, AllChars-concat P s t h.1 k)

-- What holds of every replacement's characters holds of the whole result.
pub AllChars-expand :
    (P : ℕ → Type 0) (f : Char → String)
    → ((c : Char) → AllChars P (f c))
    → (s : String) → AllChars P (expand f s)
unfolding expand
AllChars-expand P f h [] = tt
AllChars-expand P f h (c ∷ s) = AllChars-concat P (f c) (expand f s) (h c) (AllChars-expand P f h s)
