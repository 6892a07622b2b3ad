-- ===== src/Import/Counts.antt =====
-- The requests of an import that has not failed, against the file and the summary.
use mathlib.Core.List.{append_assoc}
use davy_jones.Prelude.{◌+◌, ◌≡◌, ◌≢◌, ◌∙◌, arith, List, [], ◌∷◌, ◌++◌, map, filter, length}
use davy_jones.Types.{Service, Project}
use davy_jones.Auth.{returned}
use davy_jones.Export.ProjectJson.{ProjectExport}
use davy_jones.Import.{dedupe_name}
use davy_jones.Import.Run.{
  Request, create_project, Server, send, import_credentials, import_vpns, import_hosts,
  import_services,
}
use davy_jones.Import.Dialog.{ImportSummary, run_import}
use davy_jones.Import.Tally.{OnDone, OnDone-and_then}
use davy_jones.Import.Contents.{
  content, credential_content, vpn_content, host_content, service_content, is_usable, runs_on,
  OnDone-send, OnDone-import_credentials, OnDone-import_vpns, OnDone-import_hosts,
  OnDone-import_services,
}

-- What an import sends: the project under its free name, and once each, in the order of the file, the
-- credentials that have a password or a private key, the VPNs, the hosts, and the services whose host the
-- file has.
abbrev pub whole : List Project → ProjectExport → List Request
whole existing p =
    create_project (dedupe_name p.project.name existing) p.project.description
    ∷ (map credential_content (filter is_usable p.credentials)
        ++ (map vpn_content p.vpns
            ++ (map host_content p.hosts
                ++ map service_content
                    (filter (λ (s : Service). runs_on p.hosts s.host_id) p.services))))

-- The requests at the end of an import that has not failed, and its summary.
abbrev pub IsComplete : List Project → ProjectExport → ImportSummary → List Request → Type 0
IsComplete existing p s log =
    (map content log ≡ whole existing p)
    × (s.skipped_credentials + length (filter is_usable p.credentials) ≡ length p.credentials)
    × (s.services ≡ length (filter (λ (t : Service). runs_on p.hosts t.host_id) p.services))

append_four : (a b c d e : List Request) → a ++ b ++ c ++ d ++ e ≡ a ++ (b ++ (c ++ (d ++ e)))
append_four a b c d e =
    append_assoc (a ++ b ++ c) d e
    ∙ append_assoc (a ++ b) c (d ++ e)
    ∙ append_assoc a b (c ++ (d ++ e))

-- An import that does not fail sends the content of the file, once each and in its order: the project
-- under a free name, each credential with a password or a private key, each VPN, each host, and each
-- service whose host the file has; apart from the ids, each as the file has it. The summary counts the
-- credentials that are skipped and the services that are sent. The server's ids are not empty.
pub run_import-IsComplete :
    (server : Server) (existing : List Project) (p : ProjectExport)
    → ((log : List Request) (r : Request) → server log r ≢ returned "")
    → OnDone (λ a log. IsComplete existing p a.1 log) (run_import server existing p)
unfolding run_import
run_import-IsComplete server existing p filled =
    OnDone-and_then _ _ (send server _ []) _ (OnDone-send server _ []) (λ project l e.
      OnDone-and_then _ _ (import_credentials server project p.credentials ([], 0) l) _
        (OnDone-import_credentials server project p.credentials ([], 0) l)
        (λ creds l1 e1.
          OnDone-and_then _ _ (import_vpns server project creds.0 p.vpns [] l1) _
            (OnDone-import_vpns server project creds.0 p.vpns [] l1)
            (λ vpns l2 e2.
              OnDone-and_then _ _ (import_hosts server project creds.0 vpns p.hosts [] l2) _
                (OnDone-import_hosts server project filled creds.0 vpns p.hosts [] l2)
                (λ hosts l3 e3.
                  OnDone-and_then _ _ (import_services server project hosts p.services 0 l3) _
                    (OnDone-import_services server project hosts (runs_on p.hosts)
                      (λ id. e3.1 id ∙ ground arith) p.services 0 l3)
                    (λ n l4 e4. (
                      e4.0
                          ∙ rw (e3.0, e2, e1.0, e.0)
                              (append_four
                                (create_project (dedupe_name p.project.name existing)
                                    p.project.description
                                  ∷ [])
                                (map credential_content (filter is_usable p.credentials))
                                (map vpn_content p.vpns) (map host_content p.hosts)
                                (map service_content (
                                  filter (λ (s : Service). runs_on p.hosts s.host_id) p.services))),
                      omega (arith, e1.1),
                      omega (arith, e4.1),
                    ))))))
