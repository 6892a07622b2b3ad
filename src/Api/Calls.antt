-- ===== src/Api/Calls.antt =====
-- src/lib/api.ts: the calls of `api`, and what the body of a request is made of. A resource that is
-- sent is of a type `B`.
use davy_jones.Prelude.{ℕ, String, Bool, Option, List}

-- the values of a body that is written out
pub data Value (B : Type 0) : Type 0 where
  text : String → Value B
  texts : List String → Value B
  flag : Bool → Value B
  -- `undefined` is left out of the JSON.
  number : Option ℕ → Value B
  value_of : B → Value B

pub data Body (B : Type 0) : Type 0 where
  given : B → Body B
  object : List (String × Value B) → Body B

-- the filters of `audit.list`, of which 0 and "" count as missing
pub record AuditParams : Type 0 where
  pub limit : ℕ
  pub user_id : String
  pub action : String

pub data Call (B : Type 0) : Type 0 where
  vpns_list : Option String → Call B
  vpns_create : B → Call B
  vpns_update : String → B → Call B
  vpns_remove : String → Call B
  hosts_list : Option String → Call B
  hosts_create : B → Call B
  hosts_update : String → B → Call B
  hosts_remove : String → Call B
  hosts_ping : String → Call B
  hosts_metrics : String → Call B
  hosts_discover_services : String → String → Call B
  hosts_service_status : String → List String → Call B
  services_list : Option String → Call B
  services_create : B → Call B
  services_update : String → B → Call B
  services_remove : String → Call B
  credentials_list : Option String → Call B
  credentials_create : B → Call B
  credentials_update : String → B → Call B
  credentials_remove : String → Call B
  ipsec_credentials_list : Option String → Call B
  ipsec_credentials_create : B → Call B
  ipsec_credentials_update : String → B → Call B
  ipsec_credentials_remove : String → Call B
  ipsec_credentials_binding : String → Call B
  ipsec_credentials_bind : String → String → Call B
  layout_get : String → Call B
  layout_save : String → B → Call B
  projects_list : Call B
  projects_create : B → Call B
  projects_update : String → B → Call B
  projects_remove : String → Call B
  projects_export_event : String → String → Bool → Call B
  seal_status : Call B
  seal_initialize : Call B
  seal_unseal : String → Call B
  auth_status : Call B
  auth_setup : String → String → Call B
  auth_login : String → String → Call B
  auth_logout : String → Call B
  auth_validate : String → Call B
  users_list : Call B
  users_create : String → String → String → Call B
  users_set_role : String → String → Call B
  users_remove : String → Call B
  users_change_own_password : String → String → Call B
  audit_list : AuditParams → Call B
  ssh_exec : String → String → Call B
  saved_commands_list : Call B
  saved_commands_create : B → Call B
  saved_commands_update : String → B → Call B
  saved_commands_remove : String → Call B
  vpn_docker_start : String → Call B
  vpn_docker_stop : String → Call B
  vpn_docker_status : String → Call B
  vpn_docker_logs : String → Call B
  vpn_docker_ping : String → String → Call B
  vpn_docker_nc : String → String → Option ℕ → Call B
