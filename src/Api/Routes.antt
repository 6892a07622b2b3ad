-- ===== src/Api/Routes.antt =====
-- The routes that the server registers, file by file of backend/, and how it finds the one for a request.
use davy_jones.Prelude.{
  String, ◌==◌, Bool, true, false, not, ◌&&◌, Option, none, some, List, [], ◌∷◌, ◌++◌, find,
}
use davy_jones.Roles.{Permission, perm_read, perm_write, perm_admin}
use davy_jones.Api.Paths.{Method, get, post, put, delete}

-- a segment of a pattern; `{id}` is `wild`
pub data Segment : Type 0 where
  fixed : String → Segment
  wild : Segment

-- backend/middleware.go
pub data Guard : Type 0 where
  unprotected protected : Guard
  protected_as : Permission → Guard

pub record Route : Type 0 where
  pub method : Method
  pub pattern : List Segment
  pub guard : Guard

abbrev route : Method → List Segment → Guard → Route
route m p g = record { method = m; pattern = p; guard = g }

-- backend/handlers_audit.go
abbrev pub audit_routes : List Route
audit_routes = route get (fixed "api" ∷ fixed "audit" ∷ []) protected ∷ []

-- backend/handlers_auth.go
abbrev pub auth_routes : List Route
auth_routes =
    route get (fixed "api" ∷ fixed "auth" ∷ fixed "status" ∷ []) unprotected
    ∷ route post (fixed "api" ∷ fixed "auth" ∷ fixed "setup" ∷ []) unprotected
    ∷ route post (fixed "api" ∷ fixed "auth" ∷ fixed "login" ∷ []) unprotected
    ∷ route post (fixed "api" ∷ fixed "auth" ∷ fixed "logout" ∷ []) unprotected
    ∷ route post (fixed "api" ∷ fixed "auth" ∷ fixed "validate" ∷ []) unprotected
    ∷ []

-- backend/handlers_config.go
abbrev pub config_routes : List Route
config_routes =
    route get (fixed "api" ∷ fixed "vpns" ∷ []) protected
    ∷ route post (fixed "api" ∷ fixed "vpns" ∷ []) protected
    ∷ route put (fixed "api" ∷ fixed "vpns" ∷ wild ∷ []) protected
    ∷ route delete (fixed "api" ∷ fixed "vpns" ∷ wild ∷ []) protected
    ∷ route get (fixed "api" ∷ fixed "hosts" ∷ []) protected
    ∷ route post (fixed "api" ∷ fixed "hosts" ∷ []) protected
    ∷ route put (fixed "api" ∷ fixed "hosts" ∷ wild ∷ []) protected
    ∷ route delete (fixed "api" ∷ fixed "hosts" ∷ wild ∷ []) protected
    ∷ route get (fixed "api" ∷ fixed "services" ∷ []) protected
    ∷ route post (fixed "api" ∷ fixed "services" ∷ []) protected
    ∷ route put (fixed "api" ∷ fixed "services" ∷ wild ∷ []) protected
    ∷ route delete (fixed "api" ∷ fixed "services" ∷ wild ∷ []) protected
    ∷ route get (fixed "api" ∷ fixed "credentials" ∷ []) protected
    ∷ route post (fixed "api" ∷ fixed "credentials" ∷ []) protected
    ∷ route put (fixed "api" ∷ fixed "credentials" ∷ wild ∷ []) protected
    ∷ route delete (fixed "api" ∷ fixed "credentials" ∷ wild ∷ []) protected
    ∷ []

-- backend/handlers_discovery.go
abbrev pub discovery_routes : List Route
discovery_routes =
    route post (fixed "api" ∷ fixed "hosts" ∷ wild ∷ fixed "discover-services" ∷ []) protected
    ∷ route post (fixed "api" ∷ fixed "hosts" ∷ wild ∷ fixed "service-status" ∷ [])
        (protected_as perm_read)
    ∷ []

-- backend/handlers_ipsec.go
abbrev pub ipsec_routes : List Route
ipsec_routes =
    route get (fixed "api" ∷ fixed "ipsec-credentials" ∷ []) protected
    ∷ route post (fixed "api" ∷ fixed "ipsec-credentials" ∷ []) protected
    ∷ route put (fixed "api" ∷ fixed "ipsec-credentials" ∷ wild ∷ []) protected
    ∷ route delete (fixed "api" ∷ fixed "ipsec-credentials" ∷ wild ∷ []) protected
    ∷ route get (fixed "api" ∷ fixed "vpns" ∷ wild ∷ fixed "ipsec" ∷ []) protected
    ∷ route put (fixed "api" ∷ fixed "vpns" ∷ wild ∷ fixed "ipsec" ∷ []) protected
    ∷ []

-- backend/handlers_layout.go
abbrev pub layout_routes : List Route
layout_routes =
    route get (fixed "api" ∷ fixed "layout" ∷ []) protected
    ∷ route put (fixed "api" ∷ fixed "layout" ∷ []) protected
    ∷ []

-- backend/handlers_metrics.go
abbrev pub metrics_routes : List Route
metrics_routes =
    route get (fixed "api" ∷ fixed "hosts" ∷ wild ∷ fixed "metrics" ∷ []) protected ∷ []

-- backend/handlers_projects.go
abbrev pub projects_routes : List Route
projects_routes =
    route get (fixed "api" ∷ fixed "projects" ∷ []) protected
    ∷ route post (fixed "api" ∷ fixed "projects" ∷ []) protected
    ∷ route put (fixed "api" ∷ fixed "projects" ∷ wild ∷ []) protected
    ∷ route delete (fixed "api" ∷ fixed "projects" ∷ wild ∷ []) protected
    ∷ route post (fixed "api" ∷ fixed "projects" ∷ wild ∷ fixed "export" ∷ [])
        (protected_as perm_read)
    ∷ []

-- backend/handlers_saved_commands.go
abbrev pub saved_commands_routes : List Route
saved_commands_routes =
    route get (fixed "api" ∷ fixed "saved-commands" ∷ []) protected
    ∷ route post (fixed "api" ∷ fixed "saved-commands" ∷ []) protected
    ∷ route put (fixed "api" ∷ fixed "saved-commands" ∷ wild ∷ []) protected
    ∷ route delete (fixed "api" ∷ fixed "saved-commands" ∷ wild ∷ []) protected
    ∷ []

-- backend/handlers_seal.go
abbrev pub seal_routes : List Route
seal_routes =
    route get (fixed "api" ∷ fixed "seal" ∷ fixed "status" ∷ []) unprotected
    ∷ route post (fixed "api" ∷ fixed "seal" ∷ fixed "initialize" ∷ []) unprotected
    ∷ route post (fixed "api" ∷ fixed "seal" ∷ fixed "unseal" ∷ []) unprotected
    ∷ []

-- backend/handlers_ssh.go
abbrev pub ssh_routes : List Route
ssh_routes =
    route post (fixed "api" ∷ fixed "ssh" ∷ fixed "exec" ∷ []) protected
    ∷ route get (fixed "api" ∷ fixed "hosts" ∷ wild ∷ fixed "ping" ∷ []) protected
    ∷ []

-- backend/handlers_users.go
abbrev pub users_routes : List Route
users_routes =
    route get (fixed "api" ∷ fixed "users" ∷ []) (protected_as perm_read)
    ∷ route post (fixed "api" ∷ fixed "users" ∷ fixed "me" ∷ fixed "password" ∷ [])
        (protected_as perm_read)
    ∷ route post (fixed "api" ∷ fixed "users" ∷ []) (protected_as perm_admin)
    ∷ route put (fixed "api" ∷ fixed "users" ∷ wild ∷ fixed "role" ∷ []) (protected_as perm_admin)
    ∷ route delete (fixed "api" ∷ fixed "users" ∷ wild ∷ []) (protected_as perm_admin)
    ∷ []

-- backend/handlers_vpn.go
abbrev pub vpn_routes : List Route
vpn_routes =
    route post (fixed "api" ∷ fixed "vpns" ∷ wild ∷ fixed "docker" ∷ fixed "start" ∷ []) protected
    ∷ route post (fixed "api" ∷ fixed "vpns" ∷ wild ∷ fixed "docker" ∷ fixed "stop" ∷ []) protected
    ∷ route get (fixed "api" ∷ fixed "vpns" ∷ wild ∷ fixed "docker" ∷ fixed "status" ∷ []) protected
    ∷ route get (fixed "api" ∷ fixed "vpns" ∷ wild ∷ fixed "docker" ∷ fixed "logs" ∷ []) protected
    ∷ route post (fixed "api" ∷ fixed "vpns" ∷ wild ∷ fixed "docker" ∷ fixed "ping" ∷ []) protected
    ∷ route post (fixed "api" ∷ fixed "vpns" ∷ wild ∷ fixed "docker" ∷ fixed "nc" ∷ []) protected
    ∷ []

abbrev pub routes : List Route
routes =
    audit_routes ++ auth_routes ++ config_routes ++ discovery_routes ++ ipsec_routes
    ++ layout_routes ++ metrics_routes ++ projects_routes ++ saved_commands_routes ++ seal_routes
    ++ ssh_routes ++ users_routes ++ vpn_routes

unfoldable pub same_method : Method → Method → Bool
same_method get get = true
same_method get post = false
same_method get put = false
same_method get delete = false
same_method post get = false
same_method post post = true
same_method post put = false
same_method post delete = false
same_method put get = false
same_method put post = false
same_method put put = true
same_method put delete = false
same_method delete get = false
same_method delete post = false
same_method delete put = false
same_method delete delete = true

-- A wildcard takes one segment that is not empty.
unfoldable pub fits : List Segment → List String → Bool
fits [] [] = true
fits [] (s ∷ segments) = false
fits (p ∷ pattern) [] = false
fits (fixed t ∷ pattern) (s ∷ segments) = t == s && fits pattern segments
fits (wild ∷ pattern) (s ∷ segments) = not (s == "") && fits pattern segments

-- the route of a request
unfoldable pub find_route : Method → List String → Option Route
unfolding same_method fits
find_route m segments =
    find (λ (r : Route). same_method r.method m && fits r.pattern segments) routes

-- `protected` asks for a permission by the method
unfoldable pub permission : Method → Guard → Option Permission
permission m unprotected = none
permission get protected = some perm_read
permission post protected = some perm_write
permission put protected = some perm_write
permission delete protected = some perm_write
permission m (protected_as p) = some p
