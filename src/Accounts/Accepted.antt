-- ===== src/Accounts/Accepted.antt =====
-- src/components/Auth/LoginScreen.tsx against backend/auth.go: the first account.
use davy_jones.Prelude.{
  String, ◌==◌, ◌≡◌, ◌≤◌, refl, sym, ◌∙◌, arith, true, false, Option, none, some, ltb, nat_eq, inl,
  inr, eq_iff, Bool-cases,
}
use davy_jones.Prelude.Text.{has_char}
use davy_jones.Prelude.Trim.{trim, trim_space, next_line, trim_space_of_trim}
use davy_jones.Accounts.Lengths.{utf16_length, utf8_length, utf16_length-le-utf8_length}
use davy_jones.Accounts.SignIn.{
  State, complaint, set_up, proceed, handle_submit, validate_credentials,
}

passed-complaint :
    (s : State)
    → complaint true s ≡ none
    → (nat_eq (utf16_length (trim s.username)) 0 ≡ false)
      × (ltb (utf16_length s.password) 6 ≡ false)
      × ((s.password == s.confirm) ≡ true)
unfolding complaint
passed-complaint s h = ground arith

not_empty-length : (t : String) → nat_eq (utf16_length t) 0 ≡ false → (t == "") ≡ false
unfolding utf16_length
not_empty-length t h = elim (Bool-cases (t == "")) [
  | inl e ↦ let empty : t ≡ "" = (eq_iff t "").0 e in let clash : true ≡ false = rw empty at h in cc
  | inr e ↦ e
]

proceed-passed :
    (found : Option String) (s : State) (u p : String)
    → (proceed true found s).1 ≡ some (set_up u p)
    → (found ≡ none) × (s.username ≡ u) × (s.password ≡ p)
unfolding proceed
proceed-passed (some message) s u p h = cc
proceed-passed none s u p h = (refl, cc, cc)

accepted :
    (s : State)
    → complaint true s ≡ none
    → has_char s.username next_line ≡ false
    → utf8_length s.username ≤ 64
    → validate_credentials s.username s.password ≡ none
unfolding validate_credentials
accepted s h plain short =
    let (name, long, same) = passed-complaint s h in
    let there : (trim_space s.username == "") ≡ false =
      trim_space_of_trim s.username plain (not_empty-length (trim s.username) name) in
    rw there (ground (arith, utf16_length-le-utf8_length s.password))

-- An account that the setup screen sends has its password typed twice, and the server accepts its
-- values, though it counts bytes where the screen counts UTF-16 units. The username has no next-line
-- character, which only the server takes for white space, and at most 64 bytes, which only the server
-- checks.
pub handle_submit-validate_credentials :
    (s : State) (u p : String)
    → (handle_submit true s).1 ≡ some (set_up u p)
    → has_char u next_line ≡ false
    → utf8_length u ≤ 64
    → (validate_credentials u p ≡ none) × (s.password ≡ p) × (s.confirm ≡ p)
unfolding handle_submit
handle_submit-validate_credentials s u p h plain short =
    let (passed, name, word) = proceed-passed (complaint true s) s u p h in
    let (long, enough, same) = passed-complaint s passed in
    let twice : s.password ≡ s.confirm = (eq_iff s.password s.confirm).0 same in
    (
      rw (sym name, sym word) (accepted s passed (rw (sym name) at plain) (rw (sym name) at short)),
      word,
      sym twice ∙ word,
    )
