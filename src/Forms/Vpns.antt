-- ===== src/Forms/Vpns.antt =====
-- src/components/Layout/AddResourcesPanel.tsx, `VpnForm`: its state, the presets and everything but the
-- submit.
use davy_jones.Prelude.{
  ℕ, String, ◌==◌, Bool, not, Option, none, some, or_else, List, [], ◌∷◌, ◌++◌, filter, any, find,
  if◌then◌else◌,
}
use davy_jones.Prelude.Integers.{ℤ}
use davy_jones.Types.{Vpn, ClientCertificate, no_certificate, Project}
use davy_jones.Auth.{Answer, returned, thrown}

-- the template of a container's command, and a preset of image, command and port
pub record Preset : Type 0 where
  pub label : String
  pub image : String
  pub command : String
  pub port : ℕ

abbrev pub default_vpn_command : String
default_vpn_command =
    "docker run -d --name {{container}} --net=host --privileged -e VPN_HOST={{host}} -e VPN_PORT={{port}} -e VPN_USER={{user}} -e VPN_PASS={{pass}} {{image}}"

abbrev pub fortivpn : Preset
fortivpn = record {
  label = "FortiClient VPN (openfortivpn)";
  image = "davy-jones-forticlient-vpn:latest";
  command =
      "docker run -d -i --name {{container}} --net=host --privileged --device=/dev/net/tun -e VPN_HOST={{host}} -e VPN_PORT={{port}} -e VPN_USER={{user}} -e VPN_PASS={{pass}} {{image}}";
  port = 443;
}

abbrev pub ipsec : Preset
ipsec = record {
  label = "IPsec / IKEv2 (strongSwan)";
  image = "davy-jones-ipsec-vpn:latest";
  command =
      "docker run -d --name {{container}} --net=host --privileged --device=/dev/net/tun -e VPN_HOST={{host}} -e VPN_PORT={{port}} -e VPN_IKE_MODE={{ipsecIkeMode}} -e VPN_USER={{ipsecUser}} -e VPN_PASS={{ipsecPass}} -e VPN_PSK={{ipsecPsk}} -e VPN_LOCAL_ID={{ipsecLocalId}} -e VPN_REMOTE_ID={{ipsecRemoteId}} -e VPN_GATEWAY_CERT={{ipsecGatewayCertB64}} -e VPN_CLIENT_CERT={{ipsecCertB64}} -e VPN_CLIENT_KEY={{ipsecKeyB64}} -e VPN_IKE_PROPOSALS={{ipsecIkeProposal}} -e VPN_ESP_PROPOSALS={{ipsecEspProposal}} -e VPN_REMOTE_TS={{ipsecRemoteTs}} -e VPN_LOCAL_TS={{ipsecLocalTs}} -e VPN_USERLAND={{ipsecUserland}} {{image}}";
  port = 500;
}

-- `VPN_PRESETS[key]`
unfoldable pub preset : String → Option Preset
preset key =
    if key == "fortivpn" then some fortivpn else if key == "ipsec" then some ipsec else none

pub record VpnForm : Type 0 where
  pub name : String
  pub image : String
  pub container_name : String
  pub command : String
  pub remote_gateway : String
  pub port : ℕ
  pub client_certificate : ClientCertificate
  pub credential_id : String
  pub project_id : Option String
  pub shared_project_ids : List String
  pub idle_timeout_minutes : ℕ

abbrev pub empty_vpn_form : VpnForm
empty_vpn_form = record {
  name = "";
  image = "";
  container_name = "";
  command = default_vpn_command;
  remote_gateway = "";
  port = 10443;
  client_certificate = no_certificate;
  credential_id = "";
  project_id = none;
  shared_project_ids = [];
  idle_timeout_minutes = 15;
}

-- `CommandResult`
pub record CommandResult : Type 0 where
  pub stdout : String
  pub stderr : String
  pub exit_code : ℤ
  pub error : Option String

pub record State : Type 0 where
  pub form : VpnForm
  pub editing_id : Option String
  pub preset_key : String
  pub container_result : Option CommandResult
  pub ipsec_credential_id : String

abbrev pub opened : State
opened = record {
  form = empty_vpn_form;
  editing_id = none;
  preset_key = "";
  container_result = none;
  ipsec_credential_id = "";
}

unfoldable pub fill_in : Option Preset → VpnForm → VpnForm
fill_in none f = f
fill_in (some p) f = record f { image = p.image; command = p.command; port = p.port }

unfoldable pub apply_preset : String → State → State
unfolding preset fill_in
apply_preset key s = record s { preset_key = key; form = fill_in (preset key) s.form }

-- `startEdit` up to its request for the binding of the VPN
unfoldable pub start_edit : Vpn → State → State
start_edit v s = record s {
  editing_id = some v.id;
  preset_key = "";
  form = record {
    name = v.name;
    image = v.image;
    container_name = v.container_name;
    command = v.command;
    remote_gateway = v.remote_gateway;
    port = v.port;
    client_certificate = v.client_certificate;
    credential_id = or_else v.credential_id "";
    project_id = v.project_id;
    shared_project_ids = or_else v.shared_project_ids [];
    idle_timeout_minutes = or_else v.idle_timeout_minutes 0;
  };
  ipsec_credential_id = "";
}

-- The answer to that request: `.then` with `b.credentialId`, or `.catch`. Nothing tells for which VPN it
-- was asked.
unfoldable pub settle_binding : Answer (Option String) → State → State
settle_binding (returned b) s = record s { ipsec_credential_id = or_else b "" }
settle_binding (thrown e) s = record s { ipsec_credential_id = "" }

unfoldable pub select_profile : String → State → State
select_profile id s = record s { ipsec_credential_id = id }

-- the list that `toggleShare` makes
unfoldable pub toggled : String → List String → List String
toggled id ids = if any (λ i. i == id) ids then filter (λ i. not (i == id)) ids else ids ++ id ∷ []

unfoldable pub toggle_share : String → State → State
unfolding toggled
toggle_share id s =
    let f = s.form in
    record s { form = record f { shared_project_ids = toggled id f.shared_project_ids } }

unfoldable pub cancel_edit : State → State
cancel_edit s = record s {
  editing_id = none;
  preset_key = "";
  form = empty_vpn_form;
  ipsec_credential_id = "";
}

-- `ownerId` and `shareable`
unfoldable pub owner_id : State → String → String
owner_id s active = or_else s.form.project_id active

unfoldable pub shareable : State → String → List Project → List Project
unfolding owner_id
shareable s active projects = filter (λ (p : Project). not (p.id == owner_id s active)) projects

abbrev name_or : Option Project → String
name_or none = "Unassigned"
name_or (some p) = p.name

unfoldable pub owner_name : List Project → String → String
owner_name projects id = name_or (find (λ (p : Project). p.id == id) projects)

-- whether a VPN is marked as shared in the list
unfoldable pub is_borrowed : String → Vpn → Bool
is_borrowed active v = not (or_else v.project_id "" == active)
