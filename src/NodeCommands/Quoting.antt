-- ===== src/NodeCommands/Quoting.antt =====
-- `q` and `rx` of src/lib/nodeCommands.ts against the shell's and the regular expression's reading.
use Prim.Native.Char.{code}
use Prim.Native.String.{[], ◌∷◌}
use mathlib.Core.List.{List}
use mathlib.Core.Option
use text.Mathlib.TextEquality.{Char-path}
use davy_jones.Prelude.{
  ℕ, String, true, false, Option, some, ◌≡◌, refl, ap, arith, nat_eq, Bool-cases, inl, inr,
}
use davy_jones.Prelude.Text.{concat, has_char, expand}
use davy_jones.NodeCommands.{q_char, rx, rx_char, regex_specials}
use davy_jones.NodeCommands.Shell.{quoted, bare, put, scan, literal, literal_from}

-- a text at the front of the first word
pub put_all : String → Option (List String) → Option (List String)
put_all [] r = r
put_all (c ∷ s) r = put c (put_all s r)

pub put_all-some :
    (s w : String) (ws : List String)
    → put_all s (some (List.◌∷◌ w ws)) ≡ some (List.◌∷◌ (concat s w) ws)
unfolding put_all put concat
put_all-some [] w ws = refl
put_all-some (c ∷ s) w ws = rw (put_all-some s w ws)

-- The shell reads the quoted form as the text itself, whatever it holds, and goes on behind it.
pub scan-q :
    (s rest : String)
    → scan quoted (concat (expand q_char s) (concat "'" rest)) ≡ put_all s (scan bare rest)
unfolding scan put_all concat expand
scan-q [] rest = refl
scan-q (c ∷ s) rest = elim (Bool-cases (nat_eq (code c) b'\'')) [
  | inl e ↦ rw (Char-path c "'" (ground arith)) (ap (put "'") (scan-q s rest))
  | inr e ↦ rw (e, e) (ap (put c) (scan-q s rest))
]

backslash_special : (n : ℕ) → nat_eq n b'\\' ≡ true → has_char regex_specials n ≡ false → ⊥
unfolding has_char
backslash_special n h e =
    let same : n ≡ b'\\' = ground arith in
    let clash : has_char regex_specials b'\\' ≡ false = rw same at e in cc

not_backslash : (n : ℕ) → has_char regex_specials n ≡ false → nat_eq n b'\\' ≡ false
not_backslash n e = elim (Bool-cases (nat_eq n b'\\')) [
  | inl h ↦ absurd (backslash_special n h e)
  | inr h ↦ h
]

literal_from-rx : (s : String) → literal_from false (expand rx_char s) ≡ some s
unfolding literal_from concat expand has_char
literal_from-rx [] = refl
literal_from-rx (c ∷ s) = elim (Bool-cases (has_char regex_specials (code c))) [
  | inl e ↦ rw e (ap (Option.map (◌∷◌ c)) (literal_from-rx s))
  | inr e ↦ rw (e, not_backslash (code c) e, e) (ap (Option.map (◌∷◌ c)) (literal_from-rx s))
]

-- A text that `rx` has escaped matches itself and nothing else.
pub literal-rx : (s : String) → literal (rx s) ≡ some s
unfolding literal rx
literal-rx s = literal_from-rx s
