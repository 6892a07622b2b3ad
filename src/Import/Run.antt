-- ===== src/Import/Run.antt =====
-- The requests of `handleImport` in src/components/Admin/ImportProjectDialog.tsx, one loop per kind.
use davy_jones.Prelude.{
  ℕ, ◌+◌, String, Bool, not, ◌&&◌, Option, none, some, List, [], ◌∷◌, ◌++◌, if◌then◌else◌, or_else,
}
use davy_jones.Prelude.Dict.{Dict, get, set}
use davy_jones.Prelude.Text.{truthy}
use davy_jones.Types.{Vpn, Host, Service, Credential, ClientCertificate}
use davy_jones.Auth.{Answer, returned, thrown}

-- the bodies that `api.projects.create`, `api.credentials.create` and so on send
pub data Request : Type 0 where
  -- name, description
  create_project : String → Option String → Request
  -- name, username, password, private key, passphrase, project
  create_credential :
      String → String → Option String → Option String → Option String → String → Request
  -- name, image, container name, command, remote gateway, port, certificate, credential, project
  create_vpn :
      String
      → String
      → String
      → String
      → String
      → ℕ
      → ClientCertificate
      → Option String
      → String
      → Request
  -- name, ip, credential, VPN, port, project
  create_host : String → String → String → Option String → Option ℕ → String → Request
  -- name, type, host, project
  create_service : String → String → String → String → Request

-- The server answers a request with the id of what it has created, or the call throws.
abbrev pub Server : Type 0
Server = List Request → Request → Answer String

-- A part of the import ends with a value or with the error that was thrown, and with the requests
-- that were sent by then.
pub data Outcome (A : Type 0) : Type 0 where
  done : A → List Request → Outcome A
  broke : String → List Request → Outcome A

unfoldable pub and_then : {A B : Type 0} → Outcome A → (A → List Request → Outcome B) → Outcome B
and_then (done a log) next = next a log
and_then (broke e log) next = broke e log

unfoldable pub answered : Answer String → List Request → Outcome String
answered (returned id) log = done id log
answered (thrown e) log = broke e log

module _ (server : Server) where
  -- `await api.….create(body)`
  unfoldable pub send : Request → List Request → Outcome String
  unfolding answered
  send r log = answered (server log r) (log ++ r ∷ [])

  -- `!c.password && !c.privateKey`
  unfoldable pub is_skipped : Credential → Bool
  is_skipped c = not (truthy c.password) && not (truthy c.private_key)

  -- the loop over the credentials, with `credIdMap` and `skippedCredentials`
  unfoldable pub import_credentials :
      String → List Credential → Dict String × ℕ → List Request → Outcome (Dict String × ℕ)
  unfolding send is_skipped and_then set
  import_credentials project [] s log = done s log
  import_credentials project (c ∷ cs) s log =
      let skip = import_credentials project cs (s.0, s.1 + 1) log in
      let create =
        and_then
          (send (create_credential c.name c.username c.password c.private_key c.passphrase project)
            log)
          (λ id l. import_credentials project cs (set s.0 c.id id, s.1) l) in
      if is_skipped c then skip else create

  -- `v.credentialId ? credIdMap.get(v.credentialId) : undefined`
  unfoldable pub mapped_id : Dict String → Option String → Option String
  unfolding get
  mapped_id m none = none
  mapped_id m (some id) = if truthy (some id) then get m id else none

  -- the loop over the VPNs, with `vpnIdMap`
  unfoldable pub import_vpns :
      String → Dict String → List Vpn → Dict String → List Request → Outcome (Dict String)
  unfolding send mapped_id and_then set
  import_vpns project cred_ids [] m log = done m log
  import_vpns project cred_ids (v ∷ vs) m log =
      and_then
        (send
          (create_vpn v.name v.image v.container_name v.command v.remote_gateway v.port
            v.client_certificate (mapped_id cred_ids v.credential_id) project)
          log)
        (λ id l. import_vpns project cred_ids vs (set m v.id id) l)

  -- the loop over the hosts, with `hostIdMap`
  unfoldable pub import_hosts :
      String
      → Dict String
      → Dict String
      → List Host
      → Dict String
      → List Request
      → Outcome (Dict String)
  unfolding send mapped_id and_then set get
  import_hosts project cred_ids vpn_ids [] m log = done m log
  import_hosts project cred_ids vpn_ids (h ∷ hs) m log =
      and_then
        (send
          (create_host h.name h.ip (or_else (get cred_ids h.credential_id) "")
            (mapped_id vpn_ids h.vpn_id) h.port project)
          log)
        (λ id l. import_hosts project cred_ids vpn_ids hs (set m h.id id) l)

  -- the loop over the services, with `serviceCount`
  unfoldable pub import_services :
      String → Dict String → List Service → ℕ → List Request → Outcome ℕ
  unfolding send and_then get
  import_services project host_ids [] n log = done n log
  import_services project host_ids (s ∷ ss) n log =
      let host_id = get host_ids s.host_id in
      let skip = import_services project host_ids ss n log in
      let create =
        and_then (send (create_service s.name s.kind (or_else host_id "") project) log)
          (λ _ l. import_services project host_ids ss (n + 1) l) in
      if truthy host_id then create else skip
