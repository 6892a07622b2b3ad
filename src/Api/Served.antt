-- ===== src/Api/Served.antt =====
-- src/lib/api.ts against the routes of backend/: each call reaches a route that the server has.
use davy_jones.Prelude.{String, ◌≡◌, Option, none, some, List}
use davy_jones.Roles.{Permission, perm_read, perm_write, perm_admin}
use davy_jones.Api.Calls.{
  Call, vpns_list, vpns_create, vpns_update, vpns_remove, hosts_list, hosts_create, hosts_update,
  hosts_remove, hosts_ping, hosts_metrics, hosts_discover_services, hosts_service_status,
  services_list, services_create, services_update, services_remove, credentials_list,
  credentials_create, credentials_update, credentials_remove, ipsec_credentials_list,
  ipsec_credentials_create, ipsec_credentials_update, ipsec_credentials_remove,
  ipsec_credentials_binding, ipsec_credentials_bind, layout_get, layout_save, projects_list,
  projects_create, projects_update, projects_remove, projects_export_event, seal_status,
  seal_initialize, seal_unseal, auth_status, auth_setup, auth_login, auth_logout, auth_validate,
  users_list, users_create, users_set_role, users_remove, users_change_own_password, audit_list,
  ssh_exec, saved_commands_list, saved_commands_create, saved_commands_update,
  saved_commands_remove, vpn_docker_start, vpn_docker_stop, vpn_docker_status, vpn_docker_logs,
  vpn_docker_ping, vpn_docker_nc,
}
use davy_jones.Api.Paths.{Method}
use davy_jones.Api.Routes.{Route, find_route, permission}

-- The permission that a call takes: none for those before the login, the right to read for a call that
-- changes no resource (the account's own password and the note of an export among them), the
-- administrator's right for the changes of accounts, and for every other call the right to write.
abbrev pub needed : {B : Type 0} → Call B → Option Permission
needed (vpns_list project) = some perm_read
needed (vpns_create value) = some perm_write
needed (vpns_update id value) = some perm_write
needed (vpns_remove id) = some perm_write
needed (hosts_list project) = some perm_read
needed (hosts_create value) = some perm_write
needed (hosts_update id value) = some perm_write
needed (hosts_remove id) = some perm_write
needed (hosts_ping id) = some perm_read
needed (hosts_metrics id) = some perm_read
needed (hosts_discover_services id kind) = some perm_write
needed (hosts_service_status id names) = some perm_read
needed (services_list project) = some perm_read
needed (services_create value) = some perm_write
needed (services_update id value) = some perm_write
needed (services_remove id) = some perm_write
needed (credentials_list project) = some perm_read
needed (credentials_create value) = some perm_write
needed (credentials_update id value) = some perm_write
needed (credentials_remove id) = some perm_write
needed (ipsec_credentials_list project) = some perm_read
needed (ipsec_credentials_create value) = some perm_write
needed (ipsec_credentials_update id value) = some perm_write
needed (ipsec_credentials_remove id) = some perm_write
needed (ipsec_credentials_binding vpn_id) = some perm_read
needed (ipsec_credentials_bind vpn_id credential_id) = some perm_write
needed (layout_get project) = some perm_read
needed (layout_save project positions) = some perm_write
needed projects_list = some perm_read
needed (projects_create value) = some perm_write
needed (projects_update id value) = some perm_write
needed (projects_remove id) = some perm_write
needed (projects_export_event id format include_secrets) = some perm_read
needed seal_status = none
needed seal_initialize = none
needed (seal_unseal share) = none
needed auth_status = none
needed (auth_setup username password) = none
needed (auth_login username password) = none
needed (auth_logout token) = none
needed (auth_validate token) = none
needed users_list = some perm_read
needed (users_create username password role) = some perm_admin
needed (users_set_role id role) = some perm_admin
needed (users_remove id) = some perm_admin
needed (users_change_own_password current next) = some perm_read
needed (audit_list params) = some perm_read
needed (ssh_exec host_id command) = some perm_write
needed saved_commands_list = some perm_read
needed (saved_commands_create value) = some perm_write
needed (saved_commands_update id value) = some perm_write
needed (saved_commands_remove id) = some perm_write
needed (vpn_docker_start id) = some perm_write
needed (vpn_docker_stop id) = some perm_write
needed (vpn_docker_status id) = some perm_read
needed (vpn_docker_logs id) = some perm_read
needed (vpn_docker_ping id target_ip) = some perm_write
needed (vpn_docker_nc id target_ip port) = some perm_write

-- the route that takes the request, and the permission it asks for
abbrev pub Reaches : Method → List String → Option Permission → Type 0
Reaches m segs p = (r : Route) × (find_route m segs ≡ some r) × (permission m r.guard ≡ p)
