-- ===== src/Api/Paths.antt =====
-- src/lib/api.ts: the method and the path of each call.
use davy_jones.Prelude.{
  String, ◌==◌, Option, none, some, List, [], ◌∷◌, ◌++◌, nat_eq, if◌then◌else◌,
}
use davy_jones.Prelude.Text.{template, join}
use davy_jones.Prelude.Decimal.{decimal}
use davy_jones.Prelude.Encoding.{encode_uri_component, form_encode}
use davy_jones.Api.Calls.{
  AuditParams, Call, vpns_list, vpns_create, vpns_update, vpns_remove, hosts_list, hosts_create,
  hosts_update, hosts_remove, hosts_ping, hosts_metrics, hosts_discover_services,
  hosts_service_status, services_list, services_create, services_update, services_remove,
  credentials_list, credentials_create, credentials_update, credentials_remove,
  ipsec_credentials_list, ipsec_credentials_create, ipsec_credentials_update,
  ipsec_credentials_remove, ipsec_credentials_binding, ipsec_credentials_bind, layout_get,
  layout_save, projects_list, projects_create, projects_update, projects_remove,
  projects_export_event, seal_status, seal_initialize, seal_unseal, auth_status, auth_setup,
  auth_login, auth_logout, auth_validate, users_list, users_create, users_set_role, users_remove,
  users_change_own_password, audit_list, ssh_exec, saved_commands_list, saved_commands_create,
  saved_commands_update, saved_commands_remove, vpn_docker_start, vpn_docker_stop,
  vpn_docker_status, vpn_docker_logs, vpn_docker_ping, vpn_docker_nc,
}

pub data Method : Type 0 where
  get post put delete : Method

unfoldable pub project_query : Option String → String
unfolding template
project_query none = ""
project_query (some project) = template ("?projectId=" ∷ encode_uri_component project ∷ [])

-- `qs.set(key, value)`, if the value is truthy
abbrev pair : String → String → List String
pair key value = if value == "" then [] else template (key ∷ "=" ∷ form_encode value ∷ []) ∷ []

-- `qs.toString()`
unfoldable pub query_string : AuditParams → String
unfolding template join
query_string p = join "&" (
    pair "limit" (if nat_eq p.limit 0 then "" else decimal p.limit)
    ++ pair "userId" p.user_id
    ++ pair "action" p.action)

unfoldable pub audit_suffix : AuditParams → String
unfolding query_string template
audit_suffix p = let qs = query_string p in if qs == "" then "" else template ("?" ∷ qs ∷ [])

unfoldable pub method_of : {B : Type 0} → Call B → Method
method_of (vpns_list project) = get
method_of (vpns_create value) = post
method_of (vpns_update id value) = put
method_of (vpns_remove id) = delete
method_of (hosts_list project) = get
method_of (hosts_create value) = post
method_of (hosts_update id value) = put
method_of (hosts_remove id) = delete
method_of (hosts_ping id) = get
method_of (hosts_metrics id) = get
method_of (hosts_discover_services id kind) = post
method_of (hosts_service_status id names) = post
method_of (services_list project) = get
method_of (services_create value) = post
method_of (services_update id value) = put
method_of (services_remove id) = delete
method_of (credentials_list project) = get
method_of (credentials_create value) = post
method_of (credentials_update id value) = put
method_of (credentials_remove id) = delete
method_of (ipsec_credentials_list project) = get
method_of (ipsec_credentials_create value) = post
method_of (ipsec_credentials_update id value) = put
method_of (ipsec_credentials_remove id) = delete
method_of (ipsec_credentials_binding vpn_id) = get
method_of (ipsec_credentials_bind vpn_id credential_id) = put
method_of (layout_get project) = get
method_of (layout_save project positions) = put
method_of projects_list = get
method_of (projects_create value) = post
method_of (projects_update id value) = put
method_of (projects_remove id) = delete
method_of (projects_export_event id format include_secrets) = post
method_of seal_status = get
method_of seal_initialize = post
method_of (seal_unseal share) = post
method_of auth_status = get
method_of (auth_setup username password) = post
method_of (auth_login username password) = post
method_of (auth_logout token) = post
method_of (auth_validate token) = post
method_of users_list = get
method_of (users_create username password role) = post
method_of (users_set_role id role) = put
method_of (users_remove id) = delete
method_of (users_change_own_password current next) = post
method_of (audit_list params) = get
method_of (ssh_exec host_id command) = post
method_of saved_commands_list = get
method_of (saved_commands_create value) = post
method_of (saved_commands_update id value) = put
method_of (saved_commands_remove id) = delete
method_of (vpn_docker_start id) = post
method_of (vpn_docker_stop id) = post
method_of (vpn_docker_status id) = get
method_of (vpn_docker_logs id) = get
method_of (vpn_docker_ping id target_ip) = post
method_of (vpn_docker_nc id target_ip port) = post

unfoldable pub path_of : {B : Type 0} → Call B → String
unfolding project_query template audit_suffix
path_of (vpns_list project) = template ("/api/vpns" ∷ project_query project ∷ [])
path_of (vpns_create value) = "/api/vpns"
path_of (vpns_update id value) = template ("/api/vpns/" ∷ id ∷ [])
path_of (vpns_remove id) = template ("/api/vpns/" ∷ id ∷ [])
path_of (hosts_list project) = template ("/api/hosts" ∷ project_query project ∷ [])
path_of (hosts_create value) = "/api/hosts"
path_of (hosts_update id value) = template ("/api/hosts/" ∷ id ∷ [])
path_of (hosts_remove id) = template ("/api/hosts/" ∷ id ∷ [])
path_of (hosts_ping id) = template ("/api/hosts/" ∷ id ∷ "/ping" ∷ [])
path_of (hosts_metrics id) = template ("/api/hosts/" ∷ id ∷ "/metrics" ∷ [])
path_of (hosts_discover_services id kind) =
    template ("/api/hosts/" ∷ id ∷ "/discover-services" ∷ [])
path_of (hosts_service_status id names) = template ("/api/hosts/" ∷ id ∷ "/service-status" ∷ [])
path_of (services_list project) = template ("/api/services" ∷ project_query project ∷ [])
path_of (services_create value) = "/api/services"
path_of (services_update id value) = template ("/api/services/" ∷ id ∷ [])
path_of (services_remove id) = template ("/api/services/" ∷ id ∷ [])
path_of (credentials_list project) = template ("/api/credentials" ∷ project_query project ∷ [])
path_of (credentials_create value) = "/api/credentials"
path_of (credentials_update id value) = template ("/api/credentials/" ∷ id ∷ [])
path_of (credentials_remove id) = template ("/api/credentials/" ∷ id ∷ [])
path_of (ipsec_credentials_list project) =
    template ("/api/ipsec-credentials" ∷ project_query project ∷ [])
path_of (ipsec_credentials_create value) = "/api/ipsec-credentials"
path_of (ipsec_credentials_update id value) = template ("/api/ipsec-credentials/" ∷ id ∷ [])
path_of (ipsec_credentials_remove id) = template ("/api/ipsec-credentials/" ∷ id ∷ [])
path_of (ipsec_credentials_binding vpn_id) = template ("/api/vpns/" ∷ vpn_id ∷ "/ipsec" ∷ [])
path_of (ipsec_credentials_bind vpn_id credential_id) =
    template ("/api/vpns/" ∷ vpn_id ∷ "/ipsec" ∷ [])
path_of (layout_get project) =
    template ("/api/layout?projectId=" ∷ encode_uri_component project ∷ [])
path_of (layout_save project positions) = "/api/layout"
path_of projects_list = "/api/projects"
path_of (projects_create value) = "/api/projects"
path_of (projects_update id value) = template ("/api/projects/" ∷ id ∷ [])
path_of (projects_remove id) = template ("/api/projects/" ∷ id ∷ [])
path_of (projects_export_event id format include_secrets) =
    template ("/api/projects/" ∷ id ∷ "/export" ∷ [])
path_of seal_status = "/api/seal/status"
path_of seal_initialize = "/api/seal/initialize"
path_of (seal_unseal share) = "/api/seal/unseal"
path_of auth_status = "/api/auth/status"
path_of (auth_setup username password) = "/api/auth/setup"
path_of (auth_login username password) = "/api/auth/login"
path_of (auth_logout token) = "/api/auth/logout"
path_of (auth_validate token) = "/api/auth/validate"
path_of users_list = "/api/users"
path_of (users_create username password role) = "/api/users"
path_of (users_set_role id role) = template ("/api/users/" ∷ id ∷ "/role" ∷ [])
path_of (users_remove id) = template ("/api/users/" ∷ id ∷ [])
path_of (users_change_own_password current next) = "/api/users/me/password"
path_of (audit_list params) = template ("/api/audit" ∷ audit_suffix params ∷ [])
path_of (ssh_exec host_id command) = "/api/ssh/exec"
path_of saved_commands_list = "/api/saved-commands"
path_of (saved_commands_create value) = "/api/saved-commands"
path_of (saved_commands_update id value) = template ("/api/saved-commands/" ∷ id ∷ [])
path_of (saved_commands_remove id) = template ("/api/saved-commands/" ∷ id ∷ [])
path_of (vpn_docker_start id) = template ("/api/vpns/" ∷ id ∷ "/docker/start" ∷ [])
path_of (vpn_docker_stop id) = template ("/api/vpns/" ∷ id ∷ "/docker/stop" ∷ [])
path_of (vpn_docker_status id) = template ("/api/vpns/" ∷ id ∷ "/docker/status" ∷ [])
path_of (vpn_docker_logs id) = template ("/api/vpns/" ∷ id ∷ "/docker/logs" ∷ [])
path_of (vpn_docker_ping id target_ip) = template ("/api/vpns/" ∷ id ∷ "/docker/ping" ∷ [])
path_of (vpn_docker_nc id target_ip port) = template ("/api/vpns/" ∷ id ∷ "/docker/nc" ∷ [])
