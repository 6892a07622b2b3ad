-- ===== src/Forms/Reopened.antt =====
-- src/components/Layout/AddResourcesPanel.tsx: a resource that is opened in its form and saved unchanged
-- stays as it is, up to optional values that are empty or zero.
use Prim.Native.String as Chars
use davy_jones.Prelude.{
  ℕ, String, ◌==◌, ◌≡◌, refl, sym, ap, ◌∙◌, arith, Bool, true, false, Option, none, some, or_else,
  nat_eq, inl, inr, ◌&&◌, Bool-cases, eq_iff, if◌then◌else◌,
}
use davy_jones.Prelude.Text.{truthy}
use davy_jones.Prelude.Trim.{trim-is_blank, is_blank, is_js_space}
use davy_jones.Prelude.Decimal.{decimal}
use davy_jones.Types.{Host, Credential}
use davy_jones.Forms.{Draft, save, update, or_undefined}
use davy_jones.Forms.Hosts as Hosts
use davy_jones.Forms.Hosts.{HostForm, HostPayload, port_text, host_payload}
use davy_jones.Forms.Credentials.{
  CredentialPayload, State, start_edit, handle_submit, missing_auth, credential_payload, is_broken,
}

-- an optional text, with "" for a missing one
abbrev pub filled : Option String → Option String
filled none = none
filled (some s) = or_undefined s

filled_lem : (o : Option String) → or_undefined (or_else o "") ≡ filled o
filled_lem none = refl
filled_lem (some s) = refl

abbrev pub nonzero : Option ℕ → Option ℕ
nonzero none = none
nonzero (some n) = if nat_eq n 0 then none else some n

save-update :
    {P : Type 0} (id : String) (p : P) → (id == "") ≡ false → save (some id) p ≡ update id p
unfolding save
save-update id p h = rw h refl

-- the values of a host, as the form sends them
abbrev pub host_values : Host → HostPayload
host_values h = record {
  name = h.name;
  ip = h.ip;
  credential_id = h.credential_id;
  vpn_id = filled h.vpn_id;
  port = nonzero h.port;
}

module _ (number : String → ℕ) where
  port-port_text :
      (o : Option ℕ)
      → number "" ≡ 0
      → ((n : ℕ) → number (decimal n) ≡ n)
      → (if port_text o == "" then none else some (number (port_text o))) ≡ nonzero o
  unfolding port_text
  port-port_text none empty reads = refl
  port-port_text (some n) empty reads = elim (Bool-cases (nat_eq n 0)) [
    | inl e ↦ rw e refl
    | inr e ↦ elim (Bool-cases (decimal n == "")) [
      | inl f ↦
          let zero : n ≡ 0 = sym (reads n) ∙ ap number ((eq_iff (decimal n) "").0 f) ∙ empty in
          absurd (ground arith)
      | inr f ↦ rw (e, f, reads n) refl
    ]
  ]

  -- A host that is opened in its form and saved is sent as it is, but for a VPN id "" and a port 0,
  -- which become missing. `Number` reads the digits of a number, and "" as 0.
  pub submit-start_edit :
      (h : Host) (d : Draft HostForm)
      → number "" ≡ 0
      → ((n : ℕ) → number (decimal n) ≡ n)
      → (h.id == "") ≡ false
      → Hosts.submit number (Hosts.start_edit h d) ≡ update h.id (host_values h)
  unfolding Hosts.submit Hosts.start_edit host_payload
  submit-start_edit h d empty reads id =
      rw (filled_lem h.vpn_id, port-port_text h.port empty reads)
        (save-update h.id (host_values h) id)

-- the values of a credential, as the form sends them
abbrev pub credential_values : Credential → CredentialPayload
credential_values c = record {
  name = c.name;
  username = c.username;
  password = filled c.password;
  private_key = filled c.private_key;
  passphrase = filled c.passphrase;
}

-- neither the password nor the private key has a character that is no white space
abbrev pub has_no_auth : Credential → Bool
has_no_auth c =
    is_blank is_js_space (or_else c.password "") && is_blank is_js_space (or_else c.private_key "")

payload-start_edit :
    (c : Credential) (s : State)
    → credential_payload (start_edit c s).draft.form ≡ credential_values c
unfolding credential_payload start_edit
payload-start_edit c s =
    rw (filled_lem c.password, filled_lem c.private_key, filled_lem c.passphrase) refl

missing_auth-start_edit :
    (c : Credential) (s : State) → missing_auth (start_edit c s).draft.form ≡ has_no_auth c
unfolding missing_auth start_edit
missing_auth-start_edit c s =
    rw (trim-is_blank (or_else c.password ""), trim-is_blank (or_else c.private_key "")) refl

start_edit-id : (c : Credential) (s : State) → (start_edit c s).draft.editing_id ≡ some c.id
unfolding start_edit
start_edit-id c s = refl

-- A credential that is opened in its form and saved is sent as it is, but for optional texts "", which
-- become missing; it is refused when its password and its private key are both missing or blank.
pub handle_submit-start_edit :
    (c : Credential) (s : State)
    → (c.id == "") ≡ false
    → (handle_submit (start_edit c s)).1
      ≡ (if has_no_auth c then none else some (update c.id (credential_values c)))
unfolding handle_submit
handle_submit-start_edit c s id = elim (Bool-cases (has_no_auth c)) [
  | inl e ↦ rw (missing_auth-start_edit c s, e) refl
  | inr e ↦
      rw (missing_auth-start_edit c s, e, start_edit-id c s, payload-start_edit c s)
        (ap some (save-update c.id (credential_values c) id))
]

blank_of_truthy :
    (o : Option String) → truthy o ≡ false → is_blank is_js_space (or_else o "") ≡ true
unfolding is_blank
blank_of_truthy none h = refl
blank_of_truthy (some Chars.[]) h = refl
blank_of_truthy (some (Chars.◌∷◌ c t)) h = cc

-- What the list marks as broken, the form refuses to save unchanged.
pub is_broken-has_no_auth : (c : Credential) → is_broken c ≡ true → has_no_auth c ≡ true
unfolding is_broken
is_broken-has_no_auth c h =
    ground (arith, blank_of_truthy c.password, blank_of_truthy c.private_key)
