-- ===== src/Prelude/Split.antt =====
-- JavaScript's `split` at a single character against `join`, and texts without a character.
use Prim.Native.Nat.{ℕ}
use Prim.Native.Char.{Char, code}
use Prim.Native.String.{String, [], ◌∷◌}
use mathlib.Core.Path.{◌≡◌, refl, sym, ap, ◌∙◌}
use mathlib.Core.Logic.{◌≢◌, inl, inr}
use mathlib.Core.Bool.{false, ◌||◌, false≢true}
use mathlib.Core.List.{List}
use native.Mathlib.Omega.{arith}
use text.Mathlib.TextEquality.{Char-path}
use davy_jones.Prelude.Tests.{nat_eq, if◌then◌else◌, Bool-cases}
use davy_jones.Prelude.Lists.{All, any}
use davy_jones.Prelude.Text.{concat, template, join, of_char, has_char, expand}

-- a character in front of the first piece
unfoldable pub put_head : Char → List String → List String
put_head c List.[] = List.◌∷◌ (of_char c) List.[]
put_head c (List.◌∷◌ s r) = List.◌∷◌ (c ∷ s) r

-- `s.split(sep)` for a separator of one character, given by its code
unfoldable pub split : ℕ → String → List String
unfolding put_head
split n [] = List.◌∷◌ "" List.[]
split n (c ∷ s) =
    let rest = split n s in if nat_eq (code c) n then List.◌∷◌ "" rest else put_head c rest

pub has_char-concat :
    (s t : String) (n : ℕ) → has_char (concat s t) n ≡ (has_char s n || has_char t n)
unfolding has_char concat
has_char-concat [] t n = refl
has_char-concat (c ∷ s) t n = ground (arith, has_char-concat s t n)

pub has_char-template :
    (r : List String) (n : ℕ) → has_char (template r) n ≡ any (λ s. has_char s n) r
unfolding template has_char
has_char-template List.[] n = refl
has_char-template (List.◌∷◌ s r) n =
    has_char-concat s (template r) n ∙ ap (λ b. has_char s n || b) (has_char-template r n)

pub has_char-expand :
    (f : Char → String) (n : ℕ)
    → ((c : Char) → has_char (f c) n ≡ false)
    → (s : String) → has_char (expand f s) n ≡ false
unfolding expand has_char
has_char-expand f n h [] = refl
has_char-expand f n h (c ∷ s) =
    has_char-concat (f c) (expand f s) n ∙ rw (h c, has_char-expand f n h s)

pub split_piece : (n : ℕ) (s : String) → has_char s n ≡ false → split n s ≡ List.◌∷◌ s List.[]
unfolding split has_char put_head
split_piece n [] h = refl
split_piece n (c ∷ s) h = elim (Bool-cases (nat_eq (code c) n)) [
  | inl e ↦ absurd (false≢true (sym h ∙ rw e))
  | inr e ↦ let rest : has_char s n ≡ false = rw e at h in rw (e, split_piece n s rest)
]

pub split_first :
    (sep : Char) (s t : String)
    → has_char s (code sep) ≡ false
    → split (code sep) (concat s (sep ∷ t)) ≡ List.◌∷◌ s (split (code sep) t)
unfolding split has_char put_head concat
split_first sep [] t h = ground arith
split_first sep (c ∷ s) t h = elim (Bool-cases (nat_eq (code c) (code sep))) [
  | inl e ↦ absurd (false≢true (sym h ∙ rw e))
  | inr e ↦ let rest : has_char s (code sep) ≡ false = rw e at h in rw (e, split_first sep s t rest)
]

-- Pieces without the separator come back.
pub split-join :
    (sep : Char) (s : String) (r : List String)
    → All (λ t. has_char t (code sep) ≡ false) (List.◌∷◌ s r)
    → split (code sep) (join (of_char sep) (List.◌∷◌ s r)) ≡ List.◌∷◌ s r
unfolding join concat
split-join sep s List.[] h = split_piece (code sep) s h.0
split-join sep s (List.◌∷◌ t r) h =
    split_first sep s (join (of_char sep) (List.◌∷◌ t r)) h.0
    ∙ ap (List.◌∷◌ s) (split-join sep t r h.1)

-- Pieces that are not empty and have no separator.
abbrev pub IsPiece : Char → String → Type 0
IsPiece sep s = (has_char s (code sep) ≡ false) × (s ≢ "")

IsPiece-has_char :
    (sep : Char) (r : List String)
    → All (IsPiece sep) r
    → All (λ t. has_char t (code sep) ≡ false) r
IsPiece-has_char sep List.[] h = tt
IsPiece-has_char sep (List.◌∷◌ s r) h = (h.0.0, IsPiece-has_char sep r h.1)

-- Of such pieces `join` forgets nothing.
pub join-injective :
    (sep : Char) (r q : List String)
    → All (IsPiece sep) r
    → All (IsPiece sep) q
    → join (of_char sep) r ≡ join (of_char sep) q
    → r ≡ q
unfolding split join
join-injective sep List.[] List.[] h k e = refl
join-injective sep List.[] (List.◌∷◌ t q) h k e =
    let same : List.◌∷◌ "" List.[] ≡ List.◌∷◌ t q =
      ap (split (code sep)) e ∙ split-join sep t q (IsPiece-has_char sep (List.◌∷◌ t q) k) in
    let empty : t ≡ "" = cc in absurd (k.0.1 empty)
join-injective sep (List.◌∷◌ s r) List.[] h k e =
    let same : List.◌∷◌ "" List.[] ≡ List.◌∷◌ s r =
      ap (split (code sep)) (sym e) ∙ split-join sep s r (IsPiece-has_char sep (List.◌∷◌ s r) h) in
    let empty : s ≡ "" = cc in absurd (h.0.1 empty)
join-injective sep (List.◌∷◌ s r) (List.◌∷◌ t q) h k e =
    sym (split-join sep s r (IsPiece-has_char sep (List.◌∷◌ s r) h))
    ∙ ap (split (code sep)) e
    ∙ split-join sep t q (IsPiece-has_char sep (List.◌∷◌ t q) k)

join-put_head :
    (sep : String) (c : Char) (s : String) (r : List String)
    → join sep (put_head c (List.◌∷◌ s r)) ≡ c ∷ join sep (List.◌∷◌ s r)
unfolding join put_head concat
join-put_head sep c s List.[] = refl
join-put_head sep c s (List.◌∷◌ t r) = refl

-- what `split` gives, which is never empty
split-cases : (n : ℕ) (s : String) → (t : String) × (r : List String) × (split n s ≡ List.◌∷◌ t r)
unfolding split put_head
split-cases n [] = (_, _, refl)
split-cases n (c ∷ s) = elim (Bool-cases (nat_eq (code c) n)) [
  | inl e ↦ ("", split n s, rw e)
  | inr e ↦ let (t, r, q) = split-cases n s in (c ∷ t, r, rw (e, q))
]

-- The pieces of a text joined again are the text.
pub join-split : (sep : Char) (s : String) → join (of_char sep) (split (code sep) s) ≡ s
unfolding split join concat
join-split sep [] = refl
join-split sep (c ∷ s) =
    let (t, r, q) = split-cases (code sep) s in
    let again : join (of_char sep) (List.◌∷◌ t r) ≡ s = sym (rw q) ∙ join-split sep s in
    elim (Bool-cases (nat_eq (code c) (code sep))) [
      | inl e ↦ rw (e, q, again, Char-path c sep (ground arith)) refl
      | inr e ↦ rw (e, q) (join-put_head (of_char sep) c t r ∙ ap (λ (u : String). c ∷ u) again)
    ]
