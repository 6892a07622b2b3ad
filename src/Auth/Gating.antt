-- ===== src/Auth/Gating.antt =====
-- src/context/AuthContext.tsx: what the interface offers to a role, against backend/roles.go.
use davy_jones.Prelude.{String, ◌≡◌, refl, Bool, true, false, ◌||◌, Option, none, some}
use davy_jones.Roles
use davy_jones.Roles.{Permission, perm_read, perm_write, perm_admin}
use davy_jones.Types.{Role, admin, readwrite, read, write, User}

-- `currentUser?.role ?? "admin"`
unfoldable pub role_of : Option User → Role
role_of none = admin
role_of (some u) = u.role

abbrev is_role : Role → Role → Bool
is_role admin admin = true
is_role readwrite readwrite = true
is_role read read = true
is_role write write = true
is_role _ _ = false

unfoldable pub can_write : Option User → Bool
unfolding role_of
can_write u =
    let role = role_of u in is_role role admin || is_role role readwrite || is_role role write

unfoldable pub can_see_secrets : Option User → Bool
unfolding role_of
can_see_secrets u = let role = role_of u in is_role role admin || is_role role readwrite

unfoldable pub is_admin : Option User → Bool
unfolding role_of
is_admin u = is_role (role_of u) admin

-- the role in a message of the server
unfoldable pub role_name : Role → String
role_name admin = "admin"
role_name readwrite = "readwrite"
role_name read = "read"
role_name write = "write"

-- what the server stores for the user: a blank role where there is no user
unfoldable pub server_role : Option User → String
unfolding role_name
server_role none = ""
server_role (some u) = role_name u.role

role_gating :
    (role : Role) (u : Option User)
    → role_of u ≡ role
    → (can_write u ≡ Roles.role_allows (role_name role) perm_write)
      × (can_see_secrets u ≡ Roles.can_read_secrets (role_name role))
      × (is_admin u ≡ Roles.role_allows (role_name role) perm_admin)
unfolding can_write can_see_secrets is_admin role_name Roles.role_allows Roles.can_read_secrets
role_gating admin u e = rw e (refl, refl, refl)
role_gating readwrite u e = rw e (refl, refl, refl)
role_gating read u e = rw e (refl, refl, refl)
role_gating write u e = rw e (refl, refl, refl)

-- What the interface offers is what the server allows: writes, secrets and administration, for every
-- user, and without a user as for an account with a blank role.
pub gating-server :
    (u : Option User)
    → (can_write u ≡ Roles.role_allows (server_role u) perm_write)
      × (can_see_secrets u ≡ Roles.can_read_secrets (server_role u))
      × (is_admin u ≡ Roles.role_allows (server_role u) perm_admin)
unfolding can_write can_see_secrets is_admin server_role Roles.role_allows Roles.can_read_secrets
gating-server none = (refl, refl, refl)
gating-server (some u) = role_gating u.role (some u) refl
