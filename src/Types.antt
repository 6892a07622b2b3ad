-- ===== src/Types.antt =====
-- src/types.ts: the resources that the server stores and the interface draws. An optional field is
-- an `Option`; identifiers, names and secrets are texts. A network port is a natural number.
use davy_jones.Prelude.{ℕ, String, Bool, Option, List}

pub data ClientCertificate : Type 0 where
  no_certificate local smartcard : ClientCertificate

pub record Vpn : Type 0 where
  pub id : String
  pub name : String
  pub image : String
  pub container_name : String
  pub command : String
  pub remote_gateway : String
  pub port : ℕ
  pub client_certificate : ClientCertificate
  pub credential_id : Option String
  pub project_id : Option String
  pub shared_project_ids : Option (List String)
  pub idle_timeout_minutes : Option ℕ

pub record Host : Type 0 where
  pub id : String
  pub name : String
  pub ip : String
  pub credential_id : String
  pub vpn_id : Option String
  pub port : Option ℕ
  pub project_id : Option String

pub record Service : Type 0 where
  pub id : String
  pub name : String
  pub kind : String
  pub host_id : String
  pub project_id : Option String

pub record Credential : Type 0 where
  pub id : String
  pub name : String
  pub username : String
  pub password : Option String
  pub private_key : Option String
  pub passphrase : Option String
  pub project_id : Option String

pub data IpsecIkeMode : Type 0 where
  ikev2_eap ikev2_psk ikev1_xauth ikev2_cert : IpsecIkeMode

pub record IpsecCredential : Type 0 where
  pub id : String
  pub name : String
  pub ike_mode : IpsecIkeMode
  pub ike_version : Option ℕ
  pub psk : Option String
  pub certificate : Option String
  pub private_key : Option String
  pub passphrase : Option String
  pub gateway_cert : Option String
  pub local_id : Option String
  pub remote_id : Option String
  pub group : Option String
  pub username : Option String
  pub password : Option String
  pub ike_proposal : Option String
  pub esp_proposal : Option String
  pub remote_ts : Option String
  pub local_ts : Option String
  pub userland : Option Bool
  pub project_id : Option String

pub record Project : Type 0 where
  pub id : String
  pub name : String
  pub description : Option String
  pub member_ids : Option (List String)
  pub created_at : String

pub data Role : Type 0 where
  admin readwrite read write : Role

pub record SavedCommand : Type 0 where
  pub id : String
  pub host_id : String
  pub name : String
  pub command : String

pub record User : Type 0 where
  pub id : String
  pub username : String
  pub role : Role
  pub created_at : String

pub record ServiceStatus : Type 0 where
  pub name : String
  pub running : Bool
  pub state : String
  pub nodes : Option (List String)
  pub on_this_host : Bool
  pub found : Bool

pub record SealStatus : Type 0 where
  pub initialized : Bool
  pub sealed : Bool
  pub progress : ℕ
  pub threshold : ℕ
  pub total_shares : ℕ

pub record TerminalTab : Type 0 where
  pub id : String
  pub host_id : String
  pub host_name : String
  pub command : Option String
  pub label : String

pub data NodeKind : Type 0 where
  vpn host service : NodeKind

pub record SelectedNode : Type 0 where
  pub kind : NodeKind
  pub id : String

-- usePingStatus.ts
pub data PingStatus : Type 0 where
  online offline checking : PingStatus
