-- ===== src/InfraData.antt =====
-- src/hooks/useInfraData.ts: the data of the active project, its reloads and its changes. What the
-- server answers is an argument. A record in a request stands for its fields but the `id`, which is
-- not sent; the partial body of an update of an IPsec credential is of a type `U`.
pub mod Loads
pub mod Tests
use davy_jones.Prelude.{String, Bool, true, false, Option, none, some, List, [], ◌∷◌, ◌++◌, or_else}
use davy_jones.Types.{Vpn, Host, Service, Credential, IpsecCredential, SavedCommand}
use davy_jones.Auth.{Answer, returned, thrown}

pub record Infra : Type 0 where
  pub vpns : List Vpn
  pub hosts : List Host
  pub services : List Service
  pub credentials : List Credential
  pub ipsec_credentials : List IpsecCredential
  pub saved_commands : List SavedCommand
  pub loading : Bool
  pub error : Option String
  pub loaded_once : Bool

abbrev pub empty_infra : Infra
empty_infra = record {
  vpns = [];
  hosts = [];
  services = [];
  credentials = [];
  ipsec_credentials = [];
  saved_commands = [];
  loading = true;
  error = none;
  loaded_once = false;
}

-- the lists that a reload cannot do without
pub record Lists : Type 0 where
  pub vpns : List Vpn
  pub hosts : List Host
  pub services : List Service
  pub credentials : List Credential
  pub saved_commands : List SavedCommand

-- What a reload waits for: `Promise.all` of the five lists gives all of them or the first error, and the
-- sixth list is asked for on its own.
pub record Reply : Type 0 where
  pub joined : Answer Lists
  pub ipsec : Answer (List IpsecCredential)

-- `.catch(() => [])`
unfoldable pub swallow : Answer (List IpsecCredential) → List IpsecCredential
swallow (returned cs) = cs
swallow (thrown _) = []

-- `setError(null)`, the part of `reload` before it waits
unfoldable pub begin_reload : Infra → Infra
begin_reload s = record s { error = none }

unfoldable pub settle_lists : Answer Lists → List IpsecCredential → Infra → Infra
settle_lists (returned l) ipsec s = record s {
  vpns = l.vpns;
  hosts = l.hosts;
  services = l.services;
  credentials = l.credentials;
  saved_commands = l.saved_commands;
  ipsec_credentials = ipsec;
  loaded_once = true;
  loading = false;
}
settle_lists (thrown e) ipsec s = record s { error = some e; loading = false }

-- The rest of `reload`. The code does not ask for which project an answer was.
unfoldable pub settle_reload : Reply → Infra → Infra
unfolding settle_lists swallow
settle_reload r s = settle_lists r.joined (swallow r.ipsec) s

-- a render with another project id: both effects run
unfoldable pub switch_project : Infra → Infra
unfolding begin_reload
switch_project s = begin_reload (record s { loaded_once = false })

-- the calls of the server that change something
pub data Change (U : Type 0) : Type 0 where
  create_vpn : Vpn → Change U
  create_host : Host → Change U
  create_service : Service → Change U
  create_credential : Credential → Change U
  create_ipsec_credential : IpsecCredential → Change U
  create_saved_command : SavedCommand → Change U
  update_vpn : String → Vpn → Change U
  update_host : String → Host → Change U
  update_service : String → Service → Change U
  update_credential : String → Credential → Change U
  update_ipsec_credential : String → U → Change U
  delete_vpn : String → Change U
  delete_host : String → Change U
  delete_service : String → Change U
  delete_credential : String → Change U
  delete_ipsec_credential : String → Change U
  delete_saved_command : String → Change U

-- The request that each operation makes of its arguments, in the project `project`.
unfoldable pub request : {U : Type 0} → String → Change U → Change U
request project (create_vpn v) =
    create_vpn (record v { project_id = some (or_else v.project_id project) })
request project (create_host h) = create_host (record h { project_id = some project })
request project (create_service s) = create_service (record s { project_id = some project })
request project (create_credential c) = create_credential (record c { project_id = some project })
request project (create_ipsec_credential c) =
    create_ipsec_credential (record c { project_id = some project })
request project (create_saved_command c) = create_saved_command c
request project (update_vpn id v) =
    update_vpn id (record v { project_id = some (or_else v.project_id project) })
request project (update_host id h) = update_host id (record h { project_id = some project })
request project (update_service id s) = update_service id (record s { project_id = some project })
request project (update_credential id c) = update_credential id c
request project (update_ipsec_credential id c) = update_ipsec_credential id c
request project (delete_vpn id) = delete_vpn id
request project (delete_host id) = delete_host id
request project (delete_service id) = delete_service id
request project (delete_credential id) = delete_credential id
request project (delete_ipsec_credential id) = delete_ipsec_credential id
request project (delete_saved_command id) = delete_saved_command id

-- `await api.…; await reload()`: a call that throws is the caller's, and changes nothing here.
unfoldable pub change : Answer Unit → Reply → Infra → Infra
unfolding begin_reload settle_reload
change (thrown _) r s = s
change (returned _) r s = settle_reload r (begin_reload s)

-- what happens to the data
pub data Happening : Type 0 where
  switched : Happening
  asked : Happening
  arrived : Reply → Happening
  changed : Answer Unit → Reply → Happening

unfoldable pub happen : Happening → Infra → Infra
unfolding switch_project begin_reload settle_reload change
happen switched s = switch_project s
happen asked s = begin_reload s
happen (arrived r) s = settle_reload r s
happen (changed a r) s = change a r s

unfoldable pub happen_all : List Happening → Infra → Infra
unfolding happen
happen_all [] s = s
happen_all (h ∷ hs) s = happen_all hs (happen h s)
