-- ===== src/Roles.antt =====
-- backend/roles.go: the permission levels of the server. A role is the text that is stored, which may
-- be blank or unknown.
use davy_jones.Prelude.{String, Bool, ◌||◌, ◌==◌, if◌then◌else◌}

abbrev pub admin : String
admin = "admin"

abbrev pub readwrite : String
readwrite = "readwrite"

abbrev pub read : String
read = "read"

abbrev pub write : String
write = "write"

unfoldable pub normalize_role : String → String
normalize_role r = if r == admin || r == readwrite || r == read || r == write then r else admin

unfoldable pub validate_role : String → Bool
validate_role r = r == admin || r == readwrite || r == read || r == write

unfoldable pub can_read : String → Bool
unfolding normalize_role
can_read r = let n = normalize_role r in n == admin || n == readwrite || n == read

unfoldable pub can_write : String → Bool
unfolding normalize_role
can_write r = let n = normalize_role r in n == admin || n == readwrite || n == write

unfoldable pub can_read_secrets : String → Bool
unfolding normalize_role
can_read_secrets r = let n = normalize_role r in n == admin || n == readwrite

unfoldable pub is_admin : String → Bool
unfolding normalize_role
is_admin r = normalize_role r == admin

pub data Permission : Type 0 where
  perm_read perm_write perm_admin : Permission

unfoldable pub role_allows : String → Permission → Bool
unfolding can_read can_write is_admin
role_allows r perm_read = can_read r
role_allows r perm_write = can_write r
role_allows r perm_admin = is_admin r
