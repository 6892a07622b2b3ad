-- ===== src/Ipsec.antt =====
-- src/components/Layout/IpsecCredentialForm.tsx, with `IKE_MODES` of src/types.ts: the form for IPsec
-- profiles. Its state is a record; a submit refuses the form, or makes a request whose answer the
-- form then takes.
pub mod Modes
pub mod Keys
pub mod Server
pub mod Verdicts
pub mod Payloads
pub mod Braces
pub mod CleanForms
pub mod Material
pub mod Edits
pub mod Records
pub mod Saves
pub mod Tests
use davy_jones.Prelude.{
  String, ◌==◌, Bool, true, false, not, ◌&&◌, ◌||◌, Option, none, some, or_else, List, [], ◌∷◌,
  find, if◌then◌else◌,
}
use davy_jones.Prelude.Text.{template, includes, truthy}
use davy_jones.Prelude.Trim.{trim}
use davy_jones.Types.{IpsecIkeMode, ikev2_eap, ikev2_psk, ikev1_xauth, ikev2_cert, IpsecCredential}
use davy_jones.Auth.{Answer, returned, thrown}
use davy_jones.Ipsec.Keys.{Form, TextKey, text_of, set_text, secret_fields, Payload, put}
use davy_jones.Ipsec.Modes.{
  Needs, IkeMode, eap_mode, psk_mode, xauth_mode, cert_mode, ike_modes, ike_value, mode_of,
}

abbrev pub empty_form : Form
empty_form = record {
  name = "";
  ike_mode = ikev2_eap;
  psk = "";
  certificate = "";
  private_key = "";
  passphrase = "";
  gateway_cert = "";
  local_id = "";
  remote_id = "";
  username = "";
  password = "";
  ike_proposal = "";
  esp_proposal = "";
  remote_ts = "";
  local_ts = "";
  userland = false;
}

-- the array `labelled`
unfoldable pub labelled : Form → List (String × String)
labelled f =
    ("Pre-shared key", f.psk)
    ∷ ("Client certificate", f.certificate)
    ∷ ("Client private key", f.private_key)
    ∷ ("Key passphrase", f.passphrase)
    ∷ ("Gateway certificate", f.gateway_cert)
    ∷ ("Local ID", f.local_id)
    ∷ ("Remote ID", f.remote_id)
    ∷ ("Username", f.username)
    ∷ ("Password", f.password)
    ∷ ("IKE proposal", f.ike_proposal)
    ∷ ("ESP proposal", f.esp_proposal)
    ∷ ("Remote traffic selector", f.remote_ts)
    ∷ ("Local traffic selector", f.local_ts)
    ∷ []

-- `labelled.find(([, v]) => v.includes("{{"))?.[0] ?? null`
unfoldable pub first_braced : List (String × String) → Option String
first_braced [] = none
first_braced ((label, v) ∷ rest) =
    let later = first_braced rest in if includes "{{" v then some label else later

unfoldable pub find_brace_field : Form → Option String
unfolding labelled first_braced
find_brace_field f = first_braced (labelled f)

pub record State : Type 0 where
  pub form : Form
  pub editing_id : Option String
  pub error : Option String

abbrev pub opened : State
opened = record { form = empty_form; editing_id = none; error = none }

-- `set` of a text field, from its input
unfoldable pub set_field : TextKey → String → State → State
unfolding set_text
set_field key value s = record s { form = set_text key value s.form }

unfoldable pub start_edit : IpsecCredential → State → State
start_edit c s = record {
  editing_id = some c.id;
  error = none;
  form = record {
    name = c.name;
    ike_mode = c.ike_mode;
    psk = "";
    certificate = "";
    private_key = "";
    passphrase = "";
    password = "";
    gateway_cert = or_else c.gateway_cert "";
    local_id = or_else c.local_id "";
    remote_id = or_else c.remote_id "";
    username = or_else c.username "";
    ike_proposal = or_else c.ike_proposal "";
    esp_proposal = or_else c.esp_proposal "";
    remote_ts = or_else c.remote_ts "";
    local_ts = or_else c.local_ts "";
    userland = or_else c.userland false;
  };
}

unfoldable pub cancel_edit : State → State
cancel_edit s = record { form = empty_form; editing_id = none; error = none }

-- the `trim()` tests of a create for the needs of a mode: the message of the first that fails
unfoldable pub missing_for : IkeMode → Form → Option String
unfolding template
missing_for mode f =
    if mode.needs.psk && trim f.psk == ""
    then some (template (mode.label ∷ " needs a pre-shared key." ∷ []))
    else if mode.needs.login && (trim f.username == "" || trim f.password == "")
    then some (template (mode.label ∷ " needs both a username and a password." ∷ []))
    else if mode.needs.client_cert && (trim f.certificate == "" || trim f.private_key == "")
    then some (template (mode.label ∷ " needs both a client certificate and a private key." ∷ []))
    else none

unfoldable pub missing : Form → Option String
unfolding mode_of missing_for
missing f = missing_for (mode_of f.ike_mode) f

abbrev pub base_payload : Form → Payload
base_payload f = record {
  name = some f.name;
  ike_mode = some f.ike_mode;
  psk = none;
  certificate = none;
  private_key = none;
  passphrase = none;
  password = none;
  gateway_cert = some f.gateway_cert;
  local_id = some f.local_id;
  remote_id = some f.remote_id;
  username = some f.username;
  ike_proposal = some f.ike_proposal;
  esp_proposal = some f.esp_proposal;
  remote_ts = some f.remote_ts;
  local_ts = some f.local_ts;
  userland = some f.userland;
}

-- the loop over `SECRET_FIELDS`
unfoldable pub add_secrets : Bool → Form → List TextKey → Payload → Payload
unfolding text_of put
add_secrets editing f [] p = p
add_secrets editing f (key ∷ keys) p =
    let value = text_of key f in
    add_secrets editing f keys (if not (value == "") || not editing then put key value p else p)

unfoldable pub payload_of : Bool → Form → Payload
unfolding add_secrets
payload_of editing f = add_secrets editing f secret_fields (base_payload f)

-- What a submit comes to: the state with a message, or the state and the request of it.
pub data Submission : Type 0 where
  refused : State → Submission
  update : String → Payload → State → Submission
  create : Payload → State → Submission

-- `editingId ? onUpdate(editingId, payload) : onCreate(payload)`
unfoldable pub request : Option String → State → Submission
unfolding payload_of
request none s = create (payload_of false s.form) s
request (some id) s =
    if id == "" then create (payload_of false s.form) s else update id (payload_of true s.form) s

unfoldable pub check_material : Option String → State → Submission
unfolding request
check_material (some message) s = refused (record s { error = some message })
check_material none s = request s.editing_id (record s { error = none })

-- the test for braces has failed with a label, or not
unfoldable pub check_braces : Option String → State → Submission
unfolding check_material missing template
check_braces (some label) s =
    refused (record s { error = some (template (label ∷ " must not contain \"{{\"." ∷ [])) })
check_braces none s = check_material (if truthy s.editing_id then none else missing s.form) s

-- `handleSubmit` up to its `await`
unfoldable pub handle_submit : State → Submission
unfolding check_braces find_brace_field
handle_submit s = check_braces (find_brace_field s.form) s

-- `handleSubmit` behind its `await`, on the state at that time
unfoldable pub settle : Answer (Unit {0}) → State → State
settle (returned _) s = record s { editing_id = none; form = empty_form }
settle (thrown e) s = record s { error = some e }

-- The gateway authenticates with a certificate in these modes.
unfoldable pub uses_gateway_cert : IpsecIkeMode → Bool
unfolding ike_value
uses_gateway_cert m = ike_value m == "ikev2-eap" || ike_value m == "ikev2-cert"

-- `IKE_MODES.find(…)?.value ?? c.ikeMode`
unfoldable pub known_value : Option IkeMode → IpsecCredential → String
unfolding ike_value
known_value (some k) c = ike_value k.value
known_value none c = ike_value c.ike_mode

-- the second line of a profile in the list
unfoldable pub profile_note : IpsecCredential → String
unfolding known_value ike_value template
profile_note c =
    let label =
      known_value (find (λ (k : IkeMode). ike_value k.value == ike_value c.ike_mode) ike_modes) c in
    template (
      label
      ∷ (if truthy c.remote_ts
          then template (" · " ∷ or_else c.remote_ts "" ∷ [])
          else " · full tunnel")
      ∷ [])

-- the note behind the labels of the secret fields
unfoldable pub secret_hint : State → String
secret_hint s = if truthy s.editing_id then " — blank keeps the stored value" else ""
