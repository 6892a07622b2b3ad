-- ===== src/Api/Bodies.antt =====
-- src/lib/api.ts: the body of each call.
use davy_jones.Prelude.{Option, none, some, [], ◌∷◌}
use davy_jones.Api.Calls.{
  Body, given, object, text, texts, flag, number, value_of, Call, vpns_list, vpns_create,
  vpns_update, vpns_remove, hosts_list, hosts_create, hosts_update, hosts_remove, hosts_ping,
  hosts_metrics, hosts_discover_services, hosts_service_status, services_list, services_create,
  services_update, services_remove, credentials_list, credentials_create, credentials_update,
  credentials_remove, ipsec_credentials_list, ipsec_credentials_create, ipsec_credentials_update,
  ipsec_credentials_remove, ipsec_credentials_binding, ipsec_credentials_bind, layout_get,
  layout_save, projects_list, projects_create, projects_update, projects_remove,
  projects_export_event, seal_status, seal_initialize, seal_unseal, auth_status, auth_setup,
  auth_login, auth_logout, auth_validate, users_list, users_create, users_set_role, users_remove,
  users_change_own_password, audit_list, ssh_exec, saved_commands_list, saved_commands_create,
  saved_commands_update, saved_commands_remove, vpn_docker_start, vpn_docker_stop,
  vpn_docker_status, vpn_docker_logs, vpn_docker_ping, vpn_docker_nc,
}

unfoldable pub body_of : {B : Type 0} → Call B → Option (Body B)
body_of (vpns_list project) = none
body_of (vpns_create value) = some (given value)
body_of (vpns_update id value) = some (given value)
body_of (vpns_remove id) = none
body_of (hosts_list project) = none
body_of (hosts_create value) = some (given value)
body_of (hosts_update id value) = some (given value)
body_of (hosts_remove id) = none
body_of (hosts_ping id) = none
body_of (hosts_metrics id) = none
body_of (hosts_discover_services id kind) = some (object (("type", text kind) ∷ []))
body_of (hosts_service_status id names) = some (object (("names", texts names) ∷ []))
body_of (services_list project) = none
body_of (services_create value) = some (given value)
body_of (services_update id value) = some (given value)
body_of (services_remove id) = none
body_of (credentials_list project) = none
body_of (credentials_create value) = some (given value)
body_of (credentials_update id value) = some (given value)
body_of (credentials_remove id) = none
body_of (ipsec_credentials_list project) = none
body_of (ipsec_credentials_create value) = some (given value)
body_of (ipsec_credentials_update id value) = some (given value)
body_of (ipsec_credentials_remove id) = none
body_of (ipsec_credentials_binding vpn_id) = none
body_of (ipsec_credentials_bind vpn_id credential_id) =
    some (object (("credentialId", text credential_id) ∷ []))
body_of (layout_get project) = none
body_of (layout_save project positions) =
    some (object (("projectId", text project) ∷ ("positions", value_of positions) ∷ []))
body_of projects_list = none
body_of (projects_create value) = some (given value)
body_of (projects_update id value) = some (given value)
body_of (projects_remove id) = none
body_of (projects_export_event id format include_secrets) =
    some (object (("format", text format) ∷ ("includeSecrets", flag include_secrets) ∷ []))
body_of seal_status = none
body_of seal_initialize = none
body_of (seal_unseal share) = some (object (("share", text share) ∷ []))
body_of auth_status = none
body_of (auth_setup username password) =
    some (object (("username", text username) ∷ ("password", text password) ∷ []))
body_of (auth_login username password) =
    some (object (("username", text username) ∷ ("password", text password) ∷ []))
body_of (auth_logout token) = some (object (("token", text token) ∷ []))
body_of (auth_validate token) = some (object (("token", text token) ∷ []))
body_of users_list = none
body_of (users_create username password role) =
    some (
      object (("username", text username) ∷ ("password", text password) ∷ ("role", text role) ∷ []))
body_of (users_set_role id role) = some (object (("role", text role) ∷ []))
body_of (users_remove id) = none
body_of (users_change_own_password current next) =
    some (object (("currentPassword", text current) ∷ ("newPassword", text next) ∷ []))
body_of (audit_list params) = none
body_of (ssh_exec host_id command) =
    some (object (("hostId", text host_id) ∷ ("command", text command) ∷ []))
body_of saved_commands_list = none
body_of (saved_commands_create value) = some (given value)
body_of (saved_commands_update id value) = some (given value)
body_of (saved_commands_remove id) = none
body_of (vpn_docker_start id) = none
body_of (vpn_docker_stop id) = none
body_of (vpn_docker_status id) = none
body_of (vpn_docker_logs id) = none
body_of (vpn_docker_ping id target_ip) = some (object (("targetIp", text target_ip) ∷ []))
body_of (vpn_docker_nc id target_ip port) =
    some (object (("targetIp", text target_ip) ∷ ("port", number port) ∷ []))
