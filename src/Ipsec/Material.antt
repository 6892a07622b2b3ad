-- ===== src/Ipsec/Material.antt =====
-- src/components/Layout/IpsecCredentialForm.tsx with backend/ipsec.go: what the form lets pass as a new
-- profile, the server accepts.
use davy_jones.Prelude.{String, ◌≡◌, refl, sym, arith, false, none, some, All, [], ◌∷◌}
use davy_jones.Prelude.Text.{has_char, includes, starts_with}
use davy_jones.Prelude.Trim.{next_line, trim_space_of_trim}
use davy_jones.Types.{IpsecIkeMode, ikev2_eap, ikev2_psk, ikev1_xauth, ikev2_cert}
use davy_jones.Ipsec.Keys.{Form, Payload}
use davy_jones.Ipsec.Server.{Stored, merge, check_mode, validate, is_missing, texts}
use davy_jones.Ipsec.Payloads.{sent, payload_of_lem}
use davy_jones.Ipsec.Braces.{IsClean, IsCleanForm, find_brace_field-IsCleanForm}
use davy_jones.Ipsec.Records.{parts-validate}
use davy_jones.Ipsec.Verdicts.{verdict, stopped, created, updated}
use davy_jones.Ipsec.{State, create, handle_submit, missing, missing_for, payload_of, labelled}
use davy_jones.Ipsec.Modes.{mode_of, ike_value}

-- the server's zero value, into which the body of a create is decoded
abbrev pub zero_value : Stored
zero_value = record {
  id = "";
  name = "";
  ike_mode = "";
  ike_version = 0;
  psk = "";
  certificate = "";
  private_key = "";
  passphrase = "";
  gateway_cert = "";
  local_id = "";
  remote_id = "";
  group = "";
  username = "";
  password = "";
  ike_proposal = "";
  esp_proposal = "";
  remote_ts = "";
  local_ts = "";
  userland = false;
  project_id = "";
}

-- the record of the form's values, for a mode
abbrev pub stored_as : IpsecIkeMode → Form → Stored
stored_as m f = record zero_value {
  name = f.name;
  ike_mode = ike_value m;
  psk = f.psk;
  certificate = f.certificate;
  private_key = f.private_key;
  passphrase = f.passphrase;
  gateway_cert = f.gateway_cert;
  local_id = f.local_id;
  remote_id = f.remote_id;
  username = f.username;
  password = f.password;
  ike_proposal = f.ike_proposal;
  esp_proposal = f.esp_proposal;
  remote_ts = f.remote_ts;
  local_ts = f.local_ts;
  userland = f.userland;
}

sent_new : (v : String) → sent false v ≡ some v
sent_new v = ground arith

merge-create : (f : Form) → merge (payload_of false f) zero_value ≡ stored_as f.ike_mode f
unfolding merge
merge-create f = rw (payload_of_lem false f) (simp (sent_new))

-- none of the texts that a mode may need has the character that Go trims and JavaScript does not
abbrev pub NoNextLine : Form → Type 0
NoNextLine f =
    All (λ (t : String). has_char t next_line ≡ false)
      (f.psk ∷ f.username ∷ f.password ∷ f.certificate ∷ f.private_key ∷ [])

check_mode-missing_for :
    (m : IpsecIkeMode) (f : Form)
    → NoNextLine f
    → missing_for (mode_of m) f ≡ none
    → check_mode (stored_as m f) ≡ none
unfolding missing_for mode_of check_mode ike_value
check_mode-missing_for ikev2_eap f (p, (u, (w, (c, (k, _))))) h =
    ground (arith, trim_space_of_trim f.username u, trim_space_of_trim f.password w)
check_mode-missing_for ikev2_psk f (p, (u, (w, (c, (k, _))))) h =
    ground (arith, trim_space_of_trim f.psk p)
check_mode-missing_for ikev1_xauth f (p, (u, (w, (c, (k, _))))) h = ground (
  arith,
  trim_space_of_trim f.psk p,
  trim_space_of_trim f.username u,
  trim_space_of_trim f.password w,
)
check_mode-missing_for ikev2_cert f (p, (u, (w, (c, (k, _))))) h =
    ground (arith, trim_space_of_trim f.certificate c, trim_space_of_trim f.private_key k)

stored_as-IsClean :
    (m : IpsecIkeMode) (f : Form) → IsCleanForm f → All IsClean (texts (stored_as m f))
unfolding labelled includes starts_with
stored_as-IsClean m f h =
    let (
      psk,
      (
        cert,
        (key, (phrase, (gateway, (lid, (rid, (user, (word, (ike, (esp, (rts, (lts, _))))))))))),
      ),
    ) =
      h in
    (
      psk,
      (
        lid,
        (
          rid,
          (
            refl,
            (user, (word, (ike, (esp, (phrase, (cert, (key, (gateway, (rts, (lts, tt)))))))))),
          ),
        ),
      ),
    )

-- What the form sends as a new profile the server accepts, whatever the mode, when the name is not
-- blank and the key, the login and the certificates hold no next-line character (which Go takes for
-- white space and JavaScript does not).
pub create-validate :
    (s s' : State) (p : Payload)
    → handle_submit s ≡ create p s'
    → is_missing s.form.name ≡ false
    → NoNextLine s.form
    → validate (merge p zero_value) ≡ none
create-validate s s' p h name plain = elim (verdict s) [
  | stopped message e ↦ cc
  | updated id f t braces e ↦ cc
  | created braces complete fresh e ↦
      let same : payload_of false s.form ≡ p = cc in
      rw (sym same, merge-create s.form)
        (parts-validate (stored_as s.form.ike_mode s.form) name
          (check_mode-missing_for s.form.ike_mode s.form plain (unfold missing in complete)) refl
          (stored_as-IsClean s.form.ike_mode s.form (find_brace_field-IsCleanForm s.form braces)))
]
