-- ===== src/Forms/Building.antt =====
-- src/components/Layout/AddResourcesPanel.tsx, `handleSubmit` of `VpnForm`: the order in which a VPN is
-- bound to its IPsec profile and saved. The server is a parameter: what it makes of a request in a state,
-- and its answer.
use davy_jones.Prelude.{
  ℕ, String, ◌==◌, Bool, true, not, ◌||◌, Option, none, some, List, nat_eq, if◌then◌else◌,
}
use davy_jones.Prelude.Integers.{ℤ, pos, negsuc}
use davy_jones.Prelude.Text.{includes, truthy}
use davy_jones.Types.{ClientCertificate}
use davy_jones.Auth.{Answer, returned, thrown}
use davy_jones.Forms.{or_undefined}
use davy_jones.Forms.Vpns.{VpnForm, empty_vpn_form, CommandResult, State}

pub record VpnPayload : Type 0 where
  pub name : String
  pub image : String
  pub container_name : String
  pub command : String
  pub remote_gateway : String
  pub port : ℕ
  pub client_certificate : ClientCertificate
  pub credential_id : Option String
  pub project_id : Option String
  pub shared_project_ids : List String
  pub idle_timeout_minutes : ℕ

unfoldable pub vpn_payload : VpnForm → VpnPayload
vpn_payload f = record {
  name = f.name;
  image = f.image;
  container_name = f.container_name;
  command = f.command;
  remote_gateway = f.remote_gateway;
  port = f.port;
  client_certificate = f.client_certificate;
  credential_id = or_undefined f.credential_id;
  project_id = f.project_id;
  shared_project_ids = f.shared_project_ids;
  idle_timeout_minutes = f.idle_timeout_minutes;
}

-- `VpnSaveResult`, where it is no `void`: the id and the result of the container's build
pub record Saved : Type 0 where
  pub id : String
  pub container : CommandResult

pub data Request : Type 0 where
  bind : String → String → Request
  create : VpnPayload → Request
  update : String → VpnPayload → Request

-- what a request comes to: the server's state, and the answer (of a `bind`, nothing is used)
abbrev pub Reply : Type 0 → Type 0
Reply S = S × Answer (Option Saved)

-- an `await`: what throws ends the submit
unfoldable pub and_then : {S : Type 0} → Reply S → (Option Saved → S → Reply S) → Reply S
and_then (s, thrown e) next = (s, thrown e)
and_then (s, returned r) next = next r s

-- `usesIpsec`
unfoldable pub uses_ipsec : VpnPayload → Bool
uses_ipsec p = includes "{{ipsec" p.command

module _ {S : Type 0} (serve : Request → S → Reply S) where
  -- the branch of a VPN that is edited
  unfoldable pub save_edited : String → String → VpnPayload → S → Reply S
  unfolding and_then
  save_edited id profile p s =
      and_then (serve (bind id profile) s) (λ bound t. serve (update id p) t)

  -- `if (usesIpsec) result = await onUpdate(result.id, payload)`
  unfoldable pub rebuild : Saved → VpnPayload → S → Reply S
  unfolding uses_ipsec
  rebuild v p s = if uses_ipsec p then serve (update v.id p) s else (s, returned (some v))

  -- `if (result && ipsecCredentialId)`
  unfoldable pub bind_created : String → VpnPayload → Option Saved → S → Reply S
  unfolding and_then rebuild
  bind_created profile p none s = (s, returned none)
  bind_created profile p (some v) s =
      if profile == ""
      then (s, returned (some v))
      else and_then (serve (bind v.id profile) s) (λ bound t. rebuild v p t)

  -- the branch of a new VPN
  unfoldable pub save_created : String → VpnPayload → S → Reply S
  unfolding and_then bind_created
  save_created profile p s = and_then (serve (create p) s) (bind_created profile p)

  unfoldable pub save_vpn : Option String → String → VpnPayload → S → Reply S
  unfolding save_edited save_created
  save_vpn none profile p s = save_created profile p s
  save_vpn (some id) profile p s =
      if id == "" then save_created profile p s else save_edited id profile p s

-- `exitCode !== 0`
abbrev pub is_nonzero : ℤ → Bool
is_nonzero (pos n) = not (nat_eq n 0)
is_nonzero (negsuc n) = true

-- `setContainerResult(result.container)`, if the build has failed
unfoldable pub failed_build : Option Saved → Option CommandResult
failed_build none = none
failed_build (some v) =
    if is_nonzero v.container.exit_code || truthy v.container.error then some v.container else none

-- the form behind the last `await`
unfoldable pub finish : Answer (Option Saved) → State → State
unfolding failed_build
finish (thrown e) s = s
finish (returned result) s = record {
  form = empty_vpn_form;
  editing_id = none;
  preset_key = "";
  container_result = elim (failed_build result) [ none ↦ s.container_result | some c ↦ some c ];
  ipsec_credential_id = "";
}

-- `setContainerResult(null)`
unfoldable pub begin : State → State
begin s = record s { container_result = none }

module _ {S : Type 0} (serve : Request → S → Reply S) where
  -- `handleSubmit`, when nothing else happens to the form meanwhile
  unfoldable pub handle_submit : State → S → State × Reply S
  unfolding vpn_payload save_vpn begin finish
  handle_submit form s =
      let reply =
        save_vpn serve form.editing_id form.ipsec_credential_id (vpn_payload form.form) s in
      (finish reply.1 (begin form), reply)
