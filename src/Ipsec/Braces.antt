-- ===== src/Ipsec/Braces.antt =====
-- src/components/Layout/IpsecCredentialForm.tsx: no value that the form sends contains "{{".
use davy_jones.Prelude.{
  String, ◌==◌, ◌≡◌, refl, sym, Bool, true, false, not, ◌||◌, Option, none, some, inl, inr, List,
  [], ◌∷◌, All, Bool-cases,
}
use davy_jones.Prelude.Text.{includes}
use davy_jones.Ipsec.Keys.{Form, Payload}
use davy_jones.Ipsec.{
  State, Submission, refused, update, create, handle_submit, labelled, first_braced,
  find_brace_field, payload_of,
}
use davy_jones.Ipsec.Payloads.{sent, payload_of_lem}
use davy_jones.Ipsec.Verdicts.{stopped, created, updated, verdict}

abbrev pub IsClean : String → Type 0
IsClean v = includes "{{" v ≡ false

abbrev CleanPairs : List (String × String) → Type 0
CleanPairs l = All (λ (q : String × String). IsClean q.1) l

-- every text of the form but its name
abbrev pub IsCleanForm : Form → Type 0
unfolding labelled
IsCleanForm f = All (λ (q : String × String). IsClean q.1) (labelled f)

first_braced-CleanPairs : (l : List (String × String)) → first_braced l ≡ none → CleanPairs l
unfolding first_braced
first_braced-CleanPairs [] h = tt
first_braced-CleanPairs ((label, v) ∷ l) h = elim (Bool-cases (includes "{{" v)) [
  | inl b ↦ let found : some label ≡ none = rw b at h in cc
  | inr b ↦ (b, first_braced-CleanPairs l (rw b at h))
]

CleanPairs-first_braced : (l : List (String × String)) → CleanPairs l → first_braced l ≡ none
unfolding first_braced
CleanPairs-first_braced [] h = refl
CleanPairs-first_braced ((label, v) ∷ l) h = rw (h.0) (CleanPairs-first_braced l h.1)

pub find_brace_field-IsCleanForm : (f : Form) → find_brace_field f ≡ none → IsCleanForm f
unfolding find_brace_field labelled
find_brace_field-IsCleanForm f h = first_braced-CleanPairs (labelled f) h

pub IsCleanForm-find_brace_field : (f : Form) → IsCleanForm f → find_brace_field f ≡ none
unfolding find_brace_field labelled
IsCleanForm-find_brace_field f h = CleanPairs-first_braced (labelled f) h

-- what a submit sends, if it makes a request
abbrev pub payload_in : Submission → Option Payload
payload_in (refused s) = none
payload_in (update id p s) = some p
payload_in (create p s) = some p

abbrev CleanOption : Option String → Type 0
CleanOption none = Unit
CleanOption (some v) = IsClean v

-- every text of the payload but the name
abbrev pub IsCleanPayload : Payload → Type 0
IsCleanPayload p = All CleanOption (
    p.psk ∷ p.certificate ∷ p.private_key ∷ p.passphrase ∷ p.gateway_cert ∷ p.local_id ∷ p.remote_id
    ∷ p.username ∷ p.password ∷ p.ike_proposal ∷ p.esp_proposal ∷ p.remote_ts ∷ p.local_ts ∷ [])

sent-CleanOption : (editing : Bool) (v : String) → IsClean v → CleanOption (sent editing v)
sent-CleanOption editing v h = elim (Bool-cases (not (v == "") || not editing)) [
  | inl b ↦ rw b h
  | inr b ↦ rw b tt
]

payload_of-IsCleanPayload :
    (editing : Bool) (f : Form) → IsCleanForm f → IsCleanPayload (payload_of editing f)
unfolding labelled
payload_of-IsCleanPayload editing f h =
    let (psk, (certificate, (key, (phrase, (gateway, (lid, (rid, (user, (word, rest))))))))) = h in
    rw (payload_of_lem editing f) (
      sent-CleanOption editing f.psk psk,
      (
        sent-CleanOption editing f.certificate certificate,
        (
          sent-CleanOption editing f.private_key key,
          (
            sent-CleanOption editing f.passphrase phrase,
            (gateway, (lid, (rid, (user, (sent-CleanOption editing f.password word, rest))))),
          ),
        ),
      ),
    )

-- A submit sends nothing that contains "{{", whatever the form holds; the name alone is not checked.
pub handle_submit-IsCleanPayload :
    (s : State) (p : Payload) → payload_in (handle_submit s) ≡ some p → IsCleanPayload p
handle_submit-IsCleanPayload s p h = elim (verdict s) [
  | stopped message e ↦ let nothing : none ≡ some p = rw e at h in cc
  | created braces complete fresh e ↦
      let same : some (payload_of false s.form) ≡ some p = rw e at h in
      let one : payload_of false s.form ≡ p = cc in
      rw (sym one)
        (payload_of-IsCleanPayload false s.form (find_brace_field-IsCleanForm s.form braces))
  | updated id f t braces e ↦
      let same : some (payload_of true s.form) ≡ some p = rw e at h in
      let one : payload_of true s.form ≡ p = cc in
      rw (sym one)
        (payload_of-IsCleanPayload true s.form (find_brace_field-IsCleanForm s.form braces))
]
