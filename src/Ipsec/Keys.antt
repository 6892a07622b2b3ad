-- ===== src/Ipsec/Keys.antt =====
-- src/components/Layout/IpsecCredentialForm.tsx: the fields of the form and of the payload, and `set`.
-- A text field is addressed by its key, as `form[key]`.
use davy_jones.Prelude.{String, Bool, Option, some, List, [], ◌∷◌}
use davy_jones.Types.{IpsecIkeMode}

-- `FormState`
pub record Form : Type 0 where
  pub name : String
  pub ike_mode : IpsecIkeMode
  pub psk : String
  pub certificate : String
  pub private_key : String
  pub passphrase : String
  pub gateway_cert : String
  pub local_id : String
  pub remote_id : String
  pub username : String
  pub password : String
  pub ike_proposal : String
  pub esp_proposal : String
  pub remote_ts : String
  pub local_ts : String
  pub userland : Bool

-- `Partial<Omit<IpsecCredential, "id">>`, the fields that the form ever sets
pub record Payload : Type 0 where
  pub name : Option String
  pub ike_mode : Option IpsecIkeMode
  pub psk : Option String
  pub certificate : Option String
  pub private_key : Option String
  pub passphrase : Option String
  pub gateway_cert : Option String
  pub local_id : Option String
  pub remote_id : Option String
  pub username : Option String
  pub password : Option String
  pub ike_proposal : Option String
  pub esp_proposal : Option String
  pub remote_ts : Option String
  pub local_ts : Option String
  pub userland : Option Bool

-- the keys of the text fields
pub data TextKey : Type 0 where
  name_key psk_key certificate_key private_key_key passphrase_key gateway_cert_key local_id_key
        remote_id_key username_key password_key ike_proposal_key esp_proposal_key remote_ts_key
        local_ts_key :
      TextKey

-- `SECRET_FIELDS`
abbrev pub secret_fields : List TextKey
secret_fields = psk_key ∷ certificate_key ∷ private_key_key ∷ passphrase_key ∷ password_key ∷ []

-- `form[key]`
unfoldable pub text_of : TextKey → Form → String
text_of name_key f = f.name
text_of psk_key f = f.psk
text_of certificate_key f = f.certificate
text_of private_key_key f = f.private_key
text_of passphrase_key f = f.passphrase
text_of gateway_cert_key f = f.gateway_cert
text_of local_id_key f = f.local_id
text_of remote_id_key f = f.remote_id
text_of username_key f = f.username
text_of password_key f = f.password
text_of ike_proposal_key f = f.ike_proposal
text_of esp_proposal_key f = f.esp_proposal
text_of remote_ts_key f = f.remote_ts
text_of local_ts_key f = f.local_ts

-- `set(key, value)` of a text field
unfoldable pub set_text : TextKey → String → Form → Form
set_text name_key v f = record f { name = v }
set_text psk_key v f = record f { psk = v }
set_text certificate_key v f = record f { certificate = v }
set_text private_key_key v f = record f { private_key = v }
set_text passphrase_key v f = record f { passphrase = v }
set_text gateway_cert_key v f = record f { gateway_cert = v }
set_text local_id_key v f = record f { local_id = v }
set_text remote_id_key v f = record f { remote_id = v }
set_text username_key v f = record f { username = v }
set_text password_key v f = record f { password = v }
set_text ike_proposal_key v f = record f { ike_proposal = v }
set_text esp_proposal_key v f = record f { esp_proposal = v }
set_text remote_ts_key v f = record f { remote_ts = v }
set_text local_ts_key v f = record f { local_ts = v }

-- `set("ikeMode", value)`
unfoldable pub set_ike_mode : IpsecIkeMode → Form → Form
set_ike_mode m f = record f { ike_mode = m }

-- `set("userland", value)`
unfoldable pub set_userland : Bool → Form → Form
set_userland b f = record f { userland = b }

-- `payload[key] = value`
unfoldable pub put : TextKey → String → Payload → Payload
put name_key v p = record p { name = some v }
put psk_key v p = record p { psk = some v }
put certificate_key v p = record p { certificate = some v }
put private_key_key v p = record p { private_key = some v }
put passphrase_key v p = record p { passphrase = some v }
put gateway_cert_key v p = record p { gateway_cert = some v }
put local_id_key v p = record p { local_id = some v }
put remote_id_key v p = record p { remote_id = some v }
put username_key v p = record p { username = some v }
put password_key v p = record p { password = some v }
put ike_proposal_key v p = record p { ike_proposal = some v }
put esp_proposal_key v p = record p { esp_proposal = some v }
put remote_ts_key v p = record p { remote_ts = some v }
put local_ts_key v p = record p { local_ts = some v }
