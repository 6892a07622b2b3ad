-- ===== src/Ipsec/Server.antt =====
-- backend/ipsec.go and backend/handlers_ipsec.go: the record that the server stores, what it returns
-- of it, the merge of an update and the checks of a record.
use davy_jones.Prelude.{
  ℕ, String, ◌==◌, Bool, true, not, ◌&&◌, ◌||◌, Option, none, some, or_else, List, [], ◌∷◌, any,
  nat_eq, if◌then◌else◌,
}
use davy_jones.Prelude.Text.{includes}
use davy_jones.Prelude.Trim.{trim_space}
use davy_jones.Types.{IpsecIkeMode, IpsecCredential}
use davy_jones.Ipsec.Keys.{Payload}
use davy_jones.Ipsec.Modes.{ike_value}

-- `IpsecCredential` of the server: a missing value is `""`, `0` or `false`. The superseded `authMode`
-- is read only on load, before these operations.
pub record Stored : Type 0 where
  pub id : String
  pub name : String
  pub ike_mode : String
  pub ike_version : ℕ
  pub psk : String
  pub certificate : String
  pub private_key : String
  pub passphrase : String
  pub gateway_cert : String
  pub local_id : String
  pub remote_id : String
  pub group : String
  pub username : String
  pub password : String
  pub ike_proposal : String
  pub esp_proposal : String
  pub remote_ts : String
  pub local_ts : String
  pub userland : Bool
  pub project_id : String

unfoldable pub redact : Stored → Stored
redact c = record c { psk = ""; private_key = ""; passphrase = ""; password = ""; certificate = "" }

-- `omitempty`
abbrev pub omit_empty : String → Option String
omit_empty s = if s == "" then none else some s

-- The JSON of a record, as the interface reads it; `m` is its mode.
unfoldable pub to_json : IpsecIkeMode → Stored → IpsecCredential
to_json m c = record {
  id = c.id;
  name = c.name;
  ike_mode = m;
  ike_version = if nat_eq c.ike_version 0 then none else some c.ike_version;
  psk = omit_empty c.psk;
  certificate = omit_empty c.certificate;
  private_key = omit_empty c.private_key;
  passphrase = omit_empty c.passphrase;
  gateway_cert = omit_empty c.gateway_cert;
  local_id = omit_empty c.local_id;
  remote_id = omit_empty c.remote_id;
  group = omit_empty c.group;
  username = omit_empty c.username;
  password = omit_empty c.password;
  ike_proposal = omit_empty c.ike_proposal;
  esp_proposal = omit_empty c.esp_proposal;
  remote_ts = omit_empty c.remote_ts;
  local_ts = omit_empty c.local_ts;
  userland = if c.userland then some true else none;
  project_id = omit_empty c.project_id;
}

abbrev mode_or : Option IpsecIkeMode → String → String
mode_or none old = old
mode_or (some m) old = ike_value m

-- `json.Unmarshal(body, &updated)`: a key that is absent keeps its value.
unfoldable pub merge : Payload → Stored → Stored
merge p c = record c {
  name = or_else p.name c.name;
  ike_mode = mode_or p.ike_mode c.ike_mode;
  psk = or_else p.psk c.psk;
  certificate = or_else p.certificate c.certificate;
  private_key = or_else p.private_key c.private_key;
  passphrase = or_else p.passphrase c.passphrase;
  gateway_cert = or_else p.gateway_cert c.gateway_cert;
  local_id = or_else p.local_id c.local_id;
  remote_id = or_else p.remote_id c.remote_id;
  username = or_else p.username c.username;
  password = or_else p.password c.password;
  ike_proposal = or_else p.ike_proposal c.ike_proposal;
  esp_proposal = or_else p.esp_proposal c.esp_proposal;
  remote_ts = or_else p.remote_ts c.remote_ts;
  local_ts = or_else p.local_ts c.local_ts;
  userland = or_else p.userland c.userland;
}

-- `strings.TrimSpace(s) == ""`
abbrev pub is_missing : String → Bool
is_missing s = trim_space s == ""

-- the `switch` on the mode: the material without which it cannot authenticate
unfoldable pub check_mode : Stored → Option String
check_mode c =
    if c.ike_mode == "ikev2-eap"
    then if is_missing c.username || is_missing c.password
      then some "username and password are both required for IKEv2 EAP"
      else none
    else if c.ike_mode == "ikev2-psk"
    then if is_missing c.psk then some "pre-shared key is required for IKEv2 PSK" else none
    else if c.ike_mode == "ikev1-xauth"
    then if is_missing c.psk
      then some "group pre-shared key is required for IKEv1 XAuth"
      else if is_missing c.username || is_missing c.password
      then some "XAuth username and password are both required for IKEv1 XAuth"
      else none
    else if c.ike_mode == "ikev2-cert"
    then if is_missing c.certificate || is_missing c.private_key
      then some
          "client certificate and private key are both required for IKEv2 certificate authentication"
      else none
    else some "ikeMode must be one of: ikev2-eap, ikev2-psk, ikev1-xauth, ikev2-cert"

-- the values of the map that is searched for `{{`
abbrev pub texts : Stored → List String
texts c =
    c.psk ∷ c.local_id ∷ c.remote_id ∷ c.group ∷ c.username ∷ c.password ∷ c.ike_proposal
    ∷ c.esp_proposal ∷ c.passphrase ∷ c.certificate ∷ c.private_key ∷ c.gateway_cert ∷ c.remote_ts
    ∷ c.local_ts ∷ []

abbrev pub and_then : Option String → Option String → Option String
and_then (some e) later = some e
and_then none later = later

-- `validateIpsecCredential`. The order of Go's map is not fixed, so which label its last message names
-- is not modelled.
unfoldable pub validate : Stored → Option String
unfolding check_mode
validate c =
    if is_missing c.name
    then some "name is required"
    else and_then (check_mode c) (
        if not (nat_eq c.ike_version 0)
          && not (nat_eq c.ike_version 1)
          && not (nat_eq c.ike_version 2)
        then some "ikeVersion must be 1 or 2"
        else if any (includes "{{") (texts c)
        then some "a value must not contain \"{{\""
        else none)
