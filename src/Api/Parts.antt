-- ===== src/Api/Parts.antt =====
-- src/lib/api.ts: the paths of the calls, segment by segment.
use davy_jones.Prelude.{String, ◌==◌, ◌≡◌, false, List, [], ◌∷◌}
use davy_jones.Api.Calls.{
  Call, vpns_list, vpns_create, vpns_update, vpns_remove, hosts_list, hosts_create, hosts_update,
  hosts_remove, hosts_ping, hosts_metrics, hosts_discover_services, hosts_service_status,
  services_list, services_create, services_update, services_remove, credentials_list,
  credentials_create, credentials_update, credentials_remove, ipsec_credentials_list,
  ipsec_credentials_create, ipsec_credentials_update, ipsec_credentials_remove,
  ipsec_credentials_binding, ipsec_credentials_bind, layout_get, layout_save, projects_list,
  projects_create, projects_update, projects_remove, projects_export_event, seal_status,
  seal_initialize, seal_unseal, auth_status, auth_setup, auth_login, auth_logout, auth_validate,
  users_list, users_create, users_set_role, users_remove, users_change_own_password, audit_list,
  ssh_exec, saved_commands_list, saved_commands_create, saved_commands_update,
  saved_commands_remove, vpn_docker_start, vpn_docker_stop, vpn_docker_status, vpn_docker_logs,
  vpn_docker_ping, vpn_docker_nc,
}
use davy_jones.Api.Segments.{IsSegment}

-- An id that makes one segment of a path. The ids of the server are a word, an underscore and
-- hexadecimal digits.
abbrev pub IsId : String → Type 0
IsId id = ((id == "") ≡ false) × IsSegment id

-- The ids that stand in the call's path are such ids.
abbrev pub HasIds : {B : Type 0} → Call B → Type 0
HasIds (vpns_list project) = Unit
HasIds (vpns_create value) = Unit
HasIds (vpns_update id value) = IsId id
HasIds (vpns_remove id) = IsId id
HasIds (hosts_list project) = Unit
HasIds (hosts_create value) = Unit
HasIds (hosts_update id value) = IsId id
HasIds (hosts_remove id) = IsId id
HasIds (hosts_ping id) = IsId id
HasIds (hosts_metrics id) = IsId id
HasIds (hosts_discover_services id kind) = IsId id
HasIds (hosts_service_status id names) = IsId id
HasIds (services_list project) = Unit
HasIds (services_create value) = Unit
HasIds (services_update id value) = IsId id
HasIds (services_remove id) = IsId id
HasIds (credentials_list project) = Unit
HasIds (credentials_create value) = Unit
HasIds (credentials_update id value) = IsId id
HasIds (credentials_remove id) = IsId id
HasIds (ipsec_credentials_list project) = Unit
HasIds (ipsec_credentials_create value) = Unit
HasIds (ipsec_credentials_update id value) = IsId id
HasIds (ipsec_credentials_remove id) = IsId id
HasIds (ipsec_credentials_binding vpn_id) = IsId vpn_id
HasIds (ipsec_credentials_bind vpn_id credential_id) = IsId vpn_id
HasIds (layout_get project) = Unit
HasIds (layout_save project positions) = Unit
HasIds projects_list = Unit
HasIds (projects_create value) = Unit
HasIds (projects_update id value) = IsId id
HasIds (projects_remove id) = IsId id
HasIds (projects_export_event id format include_secrets) = IsId id
HasIds seal_status = Unit
HasIds seal_initialize = Unit
HasIds (seal_unseal share) = Unit
HasIds auth_status = Unit
HasIds (auth_setup username password) = Unit
HasIds (auth_login username password) = Unit
HasIds (auth_logout token) = Unit
HasIds (auth_validate token) = Unit
HasIds users_list = Unit
HasIds (users_create username password role) = Unit
HasIds (users_set_role id role) = IsId id
HasIds (users_remove id) = IsId id
HasIds (users_change_own_password current next) = Unit
HasIds (audit_list params) = Unit
HasIds (ssh_exec host_id command) = Unit
HasIds saved_commands_list = Unit
HasIds (saved_commands_create value) = Unit
HasIds (saved_commands_update id value) = IsId id
HasIds (saved_commands_remove id) = IsId id
HasIds (vpn_docker_start id) = IsId id
HasIds (vpn_docker_stop id) = IsId id
HasIds (vpn_docker_status id) = IsId id
HasIds (vpn_docker_logs id) = IsId id
HasIds (vpn_docker_ping id target_ip) = IsId id
HasIds (vpn_docker_nc id target_ip port) = IsId id

-- the segments of the call's path
abbrev pub parts : {B : Type 0} → Call B → List String
parts (vpns_list project) = "api" ∷ "vpns" ∷ []
parts (vpns_create value) = "api" ∷ "vpns" ∷ []
parts (vpns_update id value) = "api" ∷ "vpns" ∷ id ∷ []
parts (vpns_remove id) = "api" ∷ "vpns" ∷ id ∷ []
parts (hosts_list project) = "api" ∷ "hosts" ∷ []
parts (hosts_create value) = "api" ∷ "hosts" ∷ []
parts (hosts_update id value) = "api" ∷ "hosts" ∷ id ∷ []
parts (hosts_remove id) = "api" ∷ "hosts" ∷ id ∷ []
parts (hosts_ping id) = "api" ∷ "hosts" ∷ id ∷ "ping" ∷ []
parts (hosts_metrics id) = "api" ∷ "hosts" ∷ id ∷ "metrics" ∷ []
parts (hosts_discover_services id kind) = "api" ∷ "hosts" ∷ id ∷ "discover-services" ∷ []
parts (hosts_service_status id names) = "api" ∷ "hosts" ∷ id ∷ "service-status" ∷ []
parts (services_list project) = "api" ∷ "services" ∷ []
parts (services_create value) = "api" ∷ "services" ∷ []
parts (services_update id value) = "api" ∷ "services" ∷ id ∷ []
parts (services_remove id) = "api" ∷ "services" ∷ id ∷ []
parts (credentials_list project) = "api" ∷ "credentials" ∷ []
parts (credentials_create value) = "api" ∷ "credentials" ∷ []
parts (credentials_update id value) = "api" ∷ "credentials" ∷ id ∷ []
parts (credentials_remove id) = "api" ∷ "credentials" ∷ id ∷ []
parts (ipsec_credentials_list project) = "api" ∷ "ipsec-credentials" ∷ []
parts (ipsec_credentials_create value) = "api" ∷ "ipsec-credentials" ∷ []
parts (ipsec_credentials_update id value) = "api" ∷ "ipsec-credentials" ∷ id ∷ []
parts (ipsec_credentials_remove id) = "api" ∷ "ipsec-credentials" ∷ id ∷ []
parts (ipsec_credentials_binding vpn_id) = "api" ∷ "vpns" ∷ vpn_id ∷ "ipsec" ∷ []
parts (ipsec_credentials_bind vpn_id credential_id) = "api" ∷ "vpns" ∷ vpn_id ∷ "ipsec" ∷ []
parts (layout_get project) = "api" ∷ "layout" ∷ []
parts (layout_save project positions) = "api" ∷ "layout" ∷ []
parts projects_list = "api" ∷ "projects" ∷ []
parts (projects_create value) = "api" ∷ "projects" ∷ []
parts (projects_update id value) = "api" ∷ "projects" ∷ id ∷ []
parts (projects_remove id) = "api" ∷ "projects" ∷ id ∷ []
parts (projects_export_event id format include_secrets) = "api" ∷ "projects" ∷ id ∷ "export" ∷ []
parts seal_status = "api" ∷ "seal" ∷ "status" ∷ []
parts seal_initialize = "api" ∷ "seal" ∷ "initialize" ∷ []
parts (seal_unseal share) = "api" ∷ "seal" ∷ "unseal" ∷ []
parts auth_status = "api" ∷ "auth" ∷ "status" ∷ []
parts (auth_setup username password) = "api" ∷ "auth" ∷ "setup" ∷ []
parts (auth_login username password) = "api" ∷ "auth" ∷ "login" ∷ []
parts (auth_logout token) = "api" ∷ "auth" ∷ "logout" ∷ []
parts (auth_validate token) = "api" ∷ "auth" ∷ "validate" ∷ []
parts users_list = "api" ∷ "users" ∷ []
parts (users_create username password role) = "api" ∷ "users" ∷ []
parts (users_set_role id role) = "api" ∷ "users" ∷ id ∷ "role" ∷ []
parts (users_remove id) = "api" ∷ "users" ∷ id ∷ []
parts (users_change_own_password current next) = "api" ∷ "users" ∷ "me" ∷ "password" ∷ []
parts (audit_list params) = "api" ∷ "audit" ∷ []
parts (ssh_exec host_id command) = "api" ∷ "ssh" ∷ "exec" ∷ []
parts saved_commands_list = "api" ∷ "saved-commands" ∷ []
parts (saved_commands_create value) = "api" ∷ "saved-commands" ∷ []
parts (saved_commands_update id value) = "api" ∷ "saved-commands" ∷ id ∷ []
parts (saved_commands_remove id) = "api" ∷ "saved-commands" ∷ id ∷ []
parts (vpn_docker_start id) = "api" ∷ "vpns" ∷ id ∷ "docker" ∷ "start" ∷ []
parts (vpn_docker_stop id) = "api" ∷ "vpns" ∷ id ∷ "docker" ∷ "stop" ∷ []
parts (vpn_docker_status id) = "api" ∷ "vpns" ∷ id ∷ "docker" ∷ "status" ∷ []
parts (vpn_docker_logs id) = "api" ∷ "vpns" ∷ id ∷ "docker" ∷ "logs" ∷ []
parts (vpn_docker_ping id target_ip) = "api" ∷ "vpns" ∷ id ∷ "docker" ∷ "ping" ∷ []
parts (vpn_docker_nc id target_ip port) = "api" ∷ "vpns" ∷ id ∷ "docker" ∷ "nc" ∷ []
