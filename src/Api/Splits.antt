-- ===== src/Api/Splits.antt =====
-- src/lib/api.ts: a path, split at its slashes, is its segments.
use davy_jones.Prelude.{String, ◌==◌, ◌≡◌, refl, Option, none, some, [], ◌∷◌, inl, inr, Bool-cases}
use davy_jones.Prelude.Text.{concat, template, has_char}
use davy_jones.Prelude.Encoding.{encode_uri_component}
use davy_jones.Api.Calls.{
  AuditParams, Call, vpns_list, vpns_create, vpns_update, vpns_remove, hosts_list, hosts_create,
  hosts_update, hosts_remove, hosts_ping, hosts_metrics, hosts_discover_services,
  hosts_service_status, services_list, services_create, services_update, services_remove,
  credentials_list, credentials_create, credentials_update, credentials_remove,
  ipsec_credentials_list, ipsec_credentials_create, ipsec_credentials_update,
  ipsec_credentials_remove, ipsec_credentials_binding, ipsec_credentials_bind, layout_get,
  layout_save, projects_list, projects_create, projects_update, projects_remove,
  projects_export_event, seal_status, seal_initialize, seal_unseal, auth_status, auth_setup,
  auth_login, auth_logout, auth_validate, users_list, users_create, users_set_role, users_remove,
  users_change_own_password, audit_list, ssh_exec, saved_commands_list, saved_commands_create,
  saved_commands_update, saved_commands_remove, vpn_docker_start, vpn_docker_stop,
  vpn_docker_status, vpn_docker_logs, vpn_docker_ping, vpn_docker_nc,
}
use davy_jones.Api.Paths.{path_of, project_query, audit_suffix, query_string}
use davy_jones.Api.Segments.{segments, slashed, before_query, segments-concat, segments-slashed}
use davy_jones.Api.Parts.{HasIds, parts}

project_query-query : (o : Option String) → before_query (concat (project_query o) "") ≡ ""
unfolding before_query concat project_query template
project_query-query none = refl
project_query-query (some project) = refl

audit_suffix-query : (p : AuditParams) → before_query (concat (audit_suffix p) "") ≡ ""
unfolding before_query concat audit_suffix template
audit_suffix-query p = elim (Bool-cases (query_string p == "")) [
  | inl e ↦ rw e refl
  | inr e ↦ rw e refl
]

pub segments-path_of : {B : Type 0} (c : Call B) → HasIds c → segments (path_of c) ≡ parts c
unfolding path_of template slashed concat has_char before_query
segments-path_of (vpns_list project) h =
    segments-concat ("api" ∷ "vpns" ∷ []) (concat (project_query project) "")
      (project_query-query project) ((refl, refl), ((refl, refl), tt))
segments-path_of (vpns_create value) h =
    segments-slashed ("api" ∷ "vpns" ∷ []) ((refl, refl), ((refl, refl), tt))
segments-path_of (vpns_update id value) (e, h) =
    segments-slashed ("api" ∷ "vpns" ∷ id ∷ []) ((refl, refl), ((refl, refl), (h, tt)))
segments-path_of (vpns_remove id) (e, h) =
    segments-slashed ("api" ∷ "vpns" ∷ id ∷ []) ((refl, refl), ((refl, refl), (h, tt)))
segments-path_of (hosts_list project) h =
    segments-concat ("api" ∷ "hosts" ∷ []) (concat (project_query project) "")
      (project_query-query project) ((refl, refl), ((refl, refl), tt))
segments-path_of (hosts_create value) h =
    segments-slashed ("api" ∷ "hosts" ∷ []) ((refl, refl), ((refl, refl), tt))
segments-path_of (hosts_update id value) (e, h) =
    segments-slashed ("api" ∷ "hosts" ∷ id ∷ []) ((refl, refl), ((refl, refl), (h, tt)))
segments-path_of (hosts_remove id) (e, h) =
    segments-slashed ("api" ∷ "hosts" ∷ id ∷ []) ((refl, refl), ((refl, refl), (h, tt)))
segments-path_of (hosts_ping id) (e, h) =
    segments-slashed ("api" ∷ "hosts" ∷ id ∷ "ping" ∷ [])
      ((refl, refl), ((refl, refl), (h, ((refl, refl), tt))))
segments-path_of (hosts_metrics id) (e, h) =
    segments-slashed ("api" ∷ "hosts" ∷ id ∷ "metrics" ∷ [])
      ((refl, refl), ((refl, refl), (h, ((refl, refl), tt))))
segments-path_of (hosts_discover_services id kind) (e, h) =
    segments-slashed ("api" ∷ "hosts" ∷ id ∷ "discover-services" ∷ [])
      ((refl, refl), ((refl, refl), (h, ((refl, refl), tt))))
segments-path_of (hosts_service_status id names) (e, h) =
    segments-slashed ("api" ∷ "hosts" ∷ id ∷ "service-status" ∷ [])
      ((refl, refl), ((refl, refl), (h, ((refl, refl), tt))))
segments-path_of (services_list project) h =
    segments-concat ("api" ∷ "services" ∷ []) (concat (project_query project) "")
      (project_query-query project) ((refl, refl), ((refl, refl), tt))
segments-path_of (services_create value) h =
    segments-slashed ("api" ∷ "services" ∷ []) ((refl, refl), ((refl, refl), tt))
segments-path_of (services_update id value) (e, h) =
    segments-slashed ("api" ∷ "services" ∷ id ∷ []) ((refl, refl), ((refl, refl), (h, tt)))
segments-path_of (services_remove id) (e, h) =
    segments-slashed ("api" ∷ "services" ∷ id ∷ []) ((refl, refl), ((refl, refl), (h, tt)))
segments-path_of (credentials_list project) h =
    segments-concat ("api" ∷ "credentials" ∷ []) (concat (project_query project) "")
      (project_query-query project) ((refl, refl), ((refl, refl), tt))
segments-path_of (credentials_create value) h =
    segments-slashed ("api" ∷ "credentials" ∷ []) ((refl, refl), ((refl, refl), tt))
segments-path_of (credentials_update id value) (e, h) =
    segments-slashed ("api" ∷ "credentials" ∷ id ∷ []) ((refl, refl), ((refl, refl), (h, tt)))
segments-path_of (credentials_remove id) (e, h) =
    segments-slashed ("api" ∷ "credentials" ∷ id ∷ []) ((refl, refl), ((refl, refl), (h, tt)))
segments-path_of (ipsec_credentials_list project) h =
    segments-concat ("api" ∷ "ipsec-credentials" ∷ []) (concat (project_query project) "")
      (project_query-query project) ((refl, refl), ((refl, refl), tt))
segments-path_of (ipsec_credentials_create value) h =
    segments-slashed ("api" ∷ "ipsec-credentials" ∷ []) ((refl, refl), ((refl, refl), tt))
segments-path_of (ipsec_credentials_update id value) (e, h) =
    segments-slashed ("api" ∷ "ipsec-credentials" ∷ id ∷ []) ((refl, refl), ((refl, refl), (h, tt)))
segments-path_of (ipsec_credentials_remove id) (e, h) =
    segments-slashed ("api" ∷ "ipsec-credentials" ∷ id ∷ []) ((refl, refl), ((refl, refl), (h, tt)))
segments-path_of (ipsec_credentials_binding vpn_id) (e, h) =
    segments-slashed ("api" ∷ "vpns" ∷ vpn_id ∷ "ipsec" ∷ [])
      ((refl, refl), ((refl, refl), (h, ((refl, refl), tt))))
segments-path_of (ipsec_credentials_bind vpn_id credential_id) (e, h) =
    segments-slashed ("api" ∷ "vpns" ∷ vpn_id ∷ "ipsec" ∷ [])
      ((refl, refl), ((refl, refl), (h, ((refl, refl), tt))))
segments-path_of (layout_get project) h =
    segments-concat ("api" ∷ "layout" ∷ [])
      (concat "?projectId=" (concat (encode_uri_component project) "")) refl
      ((refl, refl), ((refl, refl), tt))
segments-path_of (layout_save project positions) h =
    segments-slashed ("api" ∷ "layout" ∷ []) ((refl, refl), ((refl, refl), tt))
segments-path_of projects_list h =
    segments-slashed ("api" ∷ "projects" ∷ []) ((refl, refl), ((refl, refl), tt))
segments-path_of (projects_create value) h =
    segments-slashed ("api" ∷ "projects" ∷ []) ((refl, refl), ((refl, refl), tt))
segments-path_of (projects_update id value) (e, h) =
    segments-slashed ("api" ∷ "projects" ∷ id ∷ []) ((refl, refl), ((refl, refl), (h, tt)))
segments-path_of (projects_remove id) (e, h) =
    segments-slashed ("api" ∷ "projects" ∷ id ∷ []) ((refl, refl), ((refl, refl), (h, tt)))
segments-path_of (projects_export_event id format include_secrets) (e, h) =
    segments-slashed ("api" ∷ "projects" ∷ id ∷ "export" ∷ [])
      ((refl, refl), ((refl, refl), (h, ((refl, refl), tt))))
segments-path_of seal_status h =
    segments-slashed ("api" ∷ "seal" ∷ "status" ∷ [])
      ((refl, refl), ((refl, refl), ((refl, refl), tt)))
segments-path_of seal_initialize h =
    segments-slashed ("api" ∷ "seal" ∷ "initialize" ∷ [])
      ((refl, refl), ((refl, refl), ((refl, refl), tt)))
segments-path_of (seal_unseal share) h =
    segments-slashed ("api" ∷ "seal" ∷ "unseal" ∷ [])
      ((refl, refl), ((refl, refl), ((refl, refl), tt)))
segments-path_of auth_status h =
    segments-slashed ("api" ∷ "auth" ∷ "status" ∷ [])
      ((refl, refl), ((refl, refl), ((refl, refl), tt)))
segments-path_of (auth_setup username password) h =
    segments-slashed ("api" ∷ "auth" ∷ "setup" ∷ [])
      ((refl, refl), ((refl, refl), ((refl, refl), tt)))
segments-path_of (auth_login username password) h =
    segments-slashed ("api" ∷ "auth" ∷ "login" ∷ [])
      ((refl, refl), ((refl, refl), ((refl, refl), tt)))
segments-path_of (auth_logout token) h =
    segments-slashed ("api" ∷ "auth" ∷ "logout" ∷ [])
      ((refl, refl), ((refl, refl), ((refl, refl), tt)))
segments-path_of (auth_validate token) h =
    segments-slashed ("api" ∷ "auth" ∷ "validate" ∷ [])
      ((refl, refl), ((refl, refl), ((refl, refl), tt)))
segments-path_of users_list h =
    segments-slashed ("api" ∷ "users" ∷ []) ((refl, refl), ((refl, refl), tt))
segments-path_of (users_create username password role) h =
    segments-slashed ("api" ∷ "users" ∷ []) ((refl, refl), ((refl, refl), tt))
segments-path_of (users_set_role id role) (e, h) =
    segments-slashed ("api" ∷ "users" ∷ id ∷ "role" ∷ [])
      ((refl, refl), ((refl, refl), (h, ((refl, refl), tt))))
segments-path_of (users_remove id) (e, h) =
    segments-slashed ("api" ∷ "users" ∷ id ∷ []) ((refl, refl), ((refl, refl), (h, tt)))
segments-path_of (users_change_own_password current next) h =
    segments-slashed ("api" ∷ "users" ∷ "me" ∷ "password" ∷ [])
      ((refl, refl), ((refl, refl), ((refl, refl), ((refl, refl), tt))))
segments-path_of (audit_list params) h =
    segments-concat ("api" ∷ "audit" ∷ []) (concat (audit_suffix params) "")
      (audit_suffix-query params) ((refl, refl), ((refl, refl), tt))
segments-path_of (ssh_exec host_id command) h =
    segments-slashed ("api" ∷ "ssh" ∷ "exec" ∷ [])
      ((refl, refl), ((refl, refl), ((refl, refl), tt)))
segments-path_of saved_commands_list h =
    segments-slashed ("api" ∷ "saved-commands" ∷ []) ((refl, refl), ((refl, refl), tt))
segments-path_of (saved_commands_create value) h =
    segments-slashed ("api" ∷ "saved-commands" ∷ []) ((refl, refl), ((refl, refl), tt))
segments-path_of (saved_commands_update id value) (e, h) =
    segments-slashed ("api" ∷ "saved-commands" ∷ id ∷ []) ((refl, refl), ((refl, refl), (h, tt)))
segments-path_of (saved_commands_remove id) (e, h) =
    segments-slashed ("api" ∷ "saved-commands" ∷ id ∷ []) ((refl, refl), ((refl, refl), (h, tt)))
segments-path_of (vpn_docker_start id) (e, h) =
    segments-slashed ("api" ∷ "vpns" ∷ id ∷ "docker" ∷ "start" ∷ [])
      ((refl, refl), ((refl, refl), (h, ((refl, refl), ((refl, refl), tt)))))
segments-path_of (vpn_docker_stop id) (e, h) =
    segments-slashed ("api" ∷ "vpns" ∷ id ∷ "docker" ∷ "stop" ∷ [])
      ((refl, refl), ((refl, refl), (h, ((refl, refl), ((refl, refl), tt)))))
segments-path_of (vpn_docker_status id) (e, h) =
    segments-slashed ("api" ∷ "vpns" ∷ id ∷ "docker" ∷ "status" ∷ [])
      ((refl, refl), ((refl, refl), (h, ((refl, refl), ((refl, refl), tt)))))
segments-path_of (vpn_docker_logs id) (e, h) =
    segments-slashed ("api" ∷ "vpns" ∷ id ∷ "docker" ∷ "logs" ∷ [])
      ((refl, refl), ((refl, refl), (h, ((refl, refl), ((refl, refl), tt)))))
segments-path_of (vpn_docker_ping id target_ip) (e, h) =
    segments-slashed ("api" ∷ "vpns" ∷ id ∷ "docker" ∷ "ping" ∷ [])
      ((refl, refl), ((refl, refl), (h, ((refl, refl), ((refl, refl), tt)))))
segments-path_of (vpn_docker_nc id target_ip port) (e, h) =
    segments-slashed ("api" ∷ "vpns" ∷ id ∷ "docker" ∷ "nc" ∷ [])
      ((refl, refl), ((refl, refl), (h, ((refl, refl), ((refl, refl), tt)))))
