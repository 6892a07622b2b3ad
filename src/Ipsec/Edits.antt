-- ===== src/Ipsec/Edits.antt =====
-- src/components/Layout/IpsecCredentialForm.tsx with the merge of backend/handlers_ipsec.go: what an
-- edit of a profile changes on the server.
use davy_jones.Prelude.{
  String, ◌==◌, ◌≡◌, refl, sym, eq_iff, Bool, true, false, some, none, or_else, inl, inr,
  Bool-cases, if◌then◌else◌,
}
use davy_jones.Types.{IpsecIkeMode}
use davy_jones.Ipsec.Keys.{
  Form, TextKey, set_text, name_key, psk_key, certificate_key, private_key_key, passphrase_key,
  gateway_cert_key, local_id_key, remote_id_key, username_key, password_key, ike_proposal_key,
  esp_proposal_key, remote_ts_key, local_ts_key,
}
use davy_jones.Ipsec.Server.{Stored, redact, omit_empty, to_json, merge}
use davy_jones.Ipsec.Payloads.{payload_of_lem}
use davy_jones.Ipsec.{State, start_edit, payload_of}
use davy_jones.Ipsec.Modes.{ike_value}

-- the stored record with one text changed
unfoldable pub with_text : TextKey → String → Stored → Stored
with_text name_key v c = record c { name = v }
with_text psk_key v c = record c { psk = v }
with_text certificate_key v c = record c { certificate = v }
with_text private_key_key v c = record c { private_key = v }
with_text passphrase_key v c = record c { passphrase = v }
with_text gateway_cert_key v c = record c { gateway_cert = v }
with_text local_id_key v c = record c { local_id = v }
with_text remote_id_key v c = record c { remote_id = v }
with_text username_key v c = record c { username = v }
with_text password_key v c = record c { password = v }
with_text ike_proposal_key v c = record c { ike_proposal = v }
with_text esp_proposal_key v c = record c { esp_proposal = v }
with_text remote_ts_key v c = record c { remote_ts = v }
with_text local_ts_key v c = record c { local_ts = v }

or_else-omit_empty : (t : String) → or_else (omit_empty t) "" ≡ t
or_else-omit_empty t = elim (Bool-cases (t == "")) [
  | inl e ↦ rw e (sym ((eq_iff t "").0 e))
  | inr e ↦ rw e refl
]

or_else_flag : (b : Bool) → or_else (if b then some true else none) false ≡ b
or_else_flag true = refl
or_else_flag false = refl

-- what the form shows of a stored record
abbrev pub shown : IpsecIkeMode → Stored → Form
shown m c = record {
  name = c.name;
  ike_mode = m;
  psk = "";
  certificate = "";
  private_key = "";
  passphrase = "";
  gateway_cert = c.gateway_cert;
  local_id = c.local_id;
  remote_id = c.remote_id;
  username = c.username;
  password = "";
  ike_proposal = c.ike_proposal;
  esp_proposal = c.esp_proposal;
  remote_ts = c.remote_ts;
  local_ts = c.local_ts;
  userland = c.userland;
}

read_back :
    (m : IpsecIkeMode) (c : Stored)
    → record {
      name = c.name;
      ike_mode = m;
      psk = "";
      certificate = "";
      private_key = "";
      passphrase = "";
      gateway_cert = or_else (omit_empty c.gateway_cert) "";
      local_id = or_else (omit_empty c.local_id) "";
      remote_id = or_else (omit_empty c.remote_id) "";
      username = or_else (omit_empty c.username) "";
      password = "";
      ike_proposal = or_else (omit_empty c.ike_proposal) "";
      esp_proposal = or_else (omit_empty c.esp_proposal) "";
      remote_ts = or_else (omit_empty c.remote_ts) "";
      local_ts = or_else (omit_empty c.local_ts) "";
      userland = or_else (if c.userland then some true else none) false;
    }
      ≡ shown m c
read_back m c = simp (or_else-omit_empty, or_else_flag)

-- the answer of the server to an account that may read secrets, or may not
abbrev pub answer_for : Bool → Stored → Stored
answer_for true c = c
answer_for false c = redact c

pub start_edit-shown :
    (secrets : Bool) (m : IpsecIkeMode) (c : Stored) (s : State)
    → (start_edit (to_json m (answer_for secrets c)) s).form ≡ shown m c
unfolding start_edit to_json redact
start_edit-shown true m c s = read_back m c
start_edit-shown false m c s = read_back m c

-- Blank and secret: then the form leaves the key out.
abbrev pub is_secret : TextKey → Bool
is_secret name_key = false
is_secret psk_key = true
is_secret certificate_key = true
is_secret private_key_key = true
is_secret passphrase_key = true
is_secret gateway_cert_key = false
is_secret local_id_key = false
is_secret remote_id_key = false
is_secret username_key = false
is_secret password_key = true
is_secret ike_proposal_key = false
is_secret esp_proposal_key = false
is_secret remote_ts_key = false
is_secret local_ts_key = false

pub merge-set_text :
    (m : IpsecIkeMode) (c : Stored) (k : TextKey) (v : String)
    → (is_secret k ≡ true → (v == "") ≡ false)
    → merge (payload_of true (set_text k v (shown m c))) c
      ≡ with_text k v (record c { ike_mode = ike_value m })
unfolding merge set_text with_text
merge-set_text m c name_key v h = rw (payload_of_lem true (record (shown m c) { name = v })) refl
merge-set_text m c psk_key v h =
    rw (payload_of_lem true (record (shown m c) { psk = v }), h refl) refl
merge-set_text m c certificate_key v h =
    rw (payload_of_lem true (record (shown m c) { certificate = v }), h refl) refl
merge-set_text m c private_key_key v h =
    rw (payload_of_lem true (record (shown m c) { private_key = v }), h refl) refl
merge-set_text m c passphrase_key v h =
    rw (payload_of_lem true (record (shown m c) { passphrase = v }), h refl) refl
merge-set_text m c gateway_cert_key v h =
    rw (payload_of_lem true (record (shown m c) { gateway_cert = v })) refl
merge-set_text m c local_id_key v h =
    rw (payload_of_lem true (record (shown m c) { local_id = v })) refl
merge-set_text m c remote_id_key v h =
    rw (payload_of_lem true (record (shown m c) { remote_id = v })) refl
merge-set_text m c username_key v h =
    rw (payload_of_lem true (record (shown m c) { username = v })) refl
merge-set_text m c password_key v h =
    rw (payload_of_lem true (record (shown m c) { password = v }), h refl) refl
merge-set_text m c ike_proposal_key v h =
    rw (payload_of_lem true (record (shown m c) { ike_proposal = v })) refl
merge-set_text m c esp_proposal_key v h =
    rw (payload_of_lem true (record (shown m c) { esp_proposal = v })) refl
merge-set_text m c remote_ts_key v h =
    rw (payload_of_lem true (record (shown m c) { remote_ts = v })) refl
merge-set_text m c local_ts_key v h =
    rw (payload_of_lem true (record (shown m c) { local_ts = v })) refl
