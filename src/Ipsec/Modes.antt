-- ===== src/Ipsec/Modes.antt =====
-- src/types.ts: `IKE_MODES`, the ways to authenticate and what each needs.
use davy_jones.Prelude.{String, ◌==◌, Bool, true, false, or_else, List, [], ◌∷◌, find}
use davy_jones.Types.{IpsecIkeMode, ikev2_eap, ikev2_psk, ikev1_xauth, ikev2_cert}

-- A need that the source leaves out is `false`.
pub record Needs : Type 0 where
  pub psk : Bool
  pub login : Bool
  pub client_cert : Bool

pub record IkeMode : Type 0 where
  pub value : IpsecIkeMode
  pub label : String
  pub hint : String
  pub needs : Needs

abbrev pub eap_mode : IkeMode
eap_mode = record {
  value = ikev2_eap;
  label = "IKEv2 + EAP (username / password)";
  hint =
      "The gateway proves itself with a certificate; you authenticate with a login. The usual corporate setup, and this image's default.";
  needs = record { psk = false; login = true; client_cert = false };
}

abbrev pub psk_mode : IkeMode
psk_mode = record {
  value = ikev2_psk;
  label = "IKEv2 + pre-shared key";
  hint = "A single shared secret both ends hold. No certificates involved.";
  needs = record { psk = true; login = false; client_cert = false };
}

abbrev pub xauth_mode : IkeMode
xauth_mode = record {
  value = ikev1_xauth;
  label = "IKEv1 + XAuth (group secret + login)";
  hint =
      "The legacy Cisco / FortiGate style: a group pre-shared key, plus a per-user login carried over XAuth.";
  needs = record { psk = true; login = true; client_cert = false };
}

abbrev pub cert_mode : IkeMode
cert_mode = record {
  value = ikev2_cert;
  label = "IKEv2 + client certificate";
  hint = "You authenticate with an X.509 keypair rather than a secret.";
  needs = record { psk = false; login = false; client_cert = true };
}

abbrev pub ike_modes : List IkeMode
ike_modes = eap_mode ∷ psk_mode ∷ xauth_mode ∷ cert_mode ∷ []

-- the members of the union type, as the texts that they are
unfoldable pub ike_value : IpsecIkeMode → String
ike_value ikev2_eap = "ikev2-eap"
ike_value ikev2_psk = "ikev2-psk"
ike_value ikev1_xauth = "ikev1-xauth"
ike_value ikev2_cert = "ikev2-cert"

-- `mode`
unfoldable pub mode_of : IpsecIkeMode → IkeMode
unfolding ike_value
mode_of m = or_else (find (λ (k : IkeMode). ike_value k.value == ike_value m) ike_modes) eap_mode
