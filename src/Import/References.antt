-- ===== src/Import/References.antt =====
-- The references of an import: each request names what the server has created before it.
use mathlib.Core.Bool.{false≢true}
use davy_jones.Prelude.{
  ℕ, ◌+◌, String, Bool, true, ◌≡◌, refl, ◌⊎◌, inl, inr, Option, none, some, List, [], ◌∷◌, ◌++◌,
  or_else, Bool-cases, Option-cases,
}
use davy_jones.Prelude.Dict.{Dict, get, set}
use davy_jones.Prelude.Text.{truthy}
use davy_jones.Types.{Vpn, Host, Service, Credential, Project}
use davy_jones.Auth.{Answer, returned, thrown}
use davy_jones.Export.ProjectJson.{ProjectExport}
use davy_jones.Import.{dedupe_name}
use davy_jones.Import.Run.{
  Request, create_project, Server, Outcome, done, broke, and_then, answered, send, is_skipped,
  mapped_id, import_credentials, import_vpns, import_hosts, import_services,
}
use davy_jones.Import.Dialog.{run_import}
use davy_jones.Import.Issued.{
  is_project, is_credential, is_vpn, is_host, Issued, now, IssuedIfSet, RefersBack, IsLinked, start,
  sent, HoldsIssued, Known, Known-sent, Known-set_creds, Known-set_vpns, Known-set_hosts,
}

-- the requests of a part of the import
abbrev pub log_of : {A : Type 0} → Outcome A → List Request
log_of (done _ log) = log
log_of (broke _ log) = log

get_nothing : (k : String) {i : String} → get [] k ≡ some i → ⊥
unfolding get
get_nothing k e = cc

module _ (server : Server) where
  -- The part ends linked, and with `P` where it ends with a value.
  abbrev Ends : {A : Type 0} → (A → List Request → Type 0) → Outcome A → Type 0
  Ends P (done a log) = P a log
  Ends P (broke e log) = IsLinked server log

  Ends-and_then :
      {A B : Type 0} (P : A → List Request → Type 0) (Q : B → List Request → Type 0) (o : Outcome A)
      (next : A → List Request → Outcome B)
      → Ends P o
      → ((a : A) (log : List Request) → P a log → Ends Q (next a log))
      → Ends Q (and_then o next)
  unfolding and_then
  Ends-and_then P Q (done a log) next h k = k a log h
  Ends-and_then P Q (broke e log) next h k = h

  Ends-answered :
      (P : String → List Request → Type 0) (log : List Request) (r : Request) (a : Answer String)
      → IsLinked server log
      → RefersBack server log r
      → ((id : String) → a ≡ returned id → P id (log ++ r ∷ []))
      → Ends P (answered a (log ++ r ∷ []))
  unfolding answered
  Ends-answered P log r (returned id) l refers k = k id refl
  Ends-answered P log r (thrown e) l refers k = sent log r l refers

  module _ (project : String) where
    module _ {creds vpns hosts : Dict String} (log : List Request) (r : Request)
        (K : Request → Bool) where
      -- what is known after a request of kind `K`
      Ends-send :
          K r ≡ true
          → Known server project creds vpns hosts log
          → RefersBack server log r
          → Ends
              (λ id l. Known server project creds vpns hosts l × Issued server K id l)
              (send server r log)
      unfolding send
      Ends-send kind k refers =
          Ends-answered _ log r (server log r) k.linked refers
            (λ id e. (Known-sent server r k refers, now log r kind e))

    Ends-import_credentials :
        (cs : List Credential) (s : Dict String × ℕ) (log : List Request)
        → Known server project s.0 [] [] log
        → Ends
            (λ t l. Known server project t.0 [] [] l)
            (import_credentials server project cs s log)
    unfolding import_credentials
    Ends-import_credentials [] s log k = k
    Ends-import_credentials (c ∷ cs) s log k = elim (Bool-cases (is_skipped server c)) [
      | inl e ↦ rw e (Ends-import_credentials cs (s.0, s.1 + 1) log k)
      | inr e ↦ rw e (
          Ends-and_then _ _ (send server _ log) _
            (Ends-send log _ is_credential refl k k.from_project)
            (λ id l h.
              Ends-import_credentials cs (set s.0 c.id id, s.1) l
                (Known-set_creds server c.id id h.0 h.1)))
    ]

    IssuedIfSet-get :
        (K : Request → Bool) (log : List Request) (m : Dict String) (id : String)
        → HoldsIssued server K log m
        → IssuedIfSet server K log (get m id)
    IssuedIfSet-get K log m id h = elim (Option-cases (get m id)) [
      | inl e ↦ rw e tt
      | inr (i, e) ↦ rw e (h id i e)
    ]

    IssuedIfSet-mapped_id :
        (K : Request → Bool) (log : List Request) (m : Dict String) (o : Option String)
        → HoldsIssued server K log m
        → IssuedIfSet server K log (mapped_id server m o)
    unfolding mapped_id
    IssuedIfSet-mapped_id K log m none h = tt
    IssuedIfSet-mapped_id K log m (some id) h = elim (Bool-cases (truthy (some id))) [
      | inl e ↦ rw e (IssuedIfSet-get K log m id h)
      | inr e ↦ rw e tt
    ]

    Ends-import_vpns :
        (creds : Dict String) (vs : List Vpn) (m : Dict String) (log : List Request)
        → Known server project creds m [] log
        → Ends
            (λ n l. Known server project creds n [] l)
            (import_vpns server project creds vs m log)
    unfolding import_vpns
    Ends-import_vpns creds [] m log k = k
    Ends-import_vpns creds (v ∷ vs) m log k =
        Ends-and_then _ _ (send server _ log) _
          (Ends-send log _ is_vpn refl k (
            IssuedIfSet-mapped_id is_credential log creds v.credential_id k.from_creds,
            k.from_project,
          ))
          (λ id l h.
            Ends-import_vpns creds vs (set m v.id id) l (Known-set_vpns server v.id id h.0 h.1))

    credential-Issued :
        (creds : Dict String) (log : List Request) (id : String)
        → HoldsIssued server is_credential log creds
        → (or_else (get creds id) "" ≡ "")
          ⊎ Issued server is_credential (or_else (get creds id) "") log
    credential-Issued creds log id h = elim (Option-cases (get creds id)) [
      | inl e ↦ rw e (inl refl)
      | inr (i, e) ↦ rw e (inr (h id i e))
    ]

    Ends-import_hosts :
        (creds vpns : Dict String) (hs : List Host) (m : Dict String) (log : List Request)
        → Known server project creds vpns m log
        → Ends
            (λ n l. Known server project creds vpns n l)
            (import_hosts server project creds vpns hs m log)
    unfolding import_hosts
    Ends-import_hosts creds vpns [] m log k = k
    Ends-import_hosts creds vpns (h ∷ hs) m log k =
        Ends-and_then _ _ (send server _ log) _
          (Ends-send log _ is_host refl k (
            credential-Issued creds log h.credential_id k.from_creds,
            IssuedIfSet-mapped_id is_vpn log vpns h.vpn_id k.from_vpns,
            k.from_project,
          ))
          (λ id l i.
            Ends-import_hosts creds vpns hs (set m h.id id) l
              (Known-set_hosts server h.id id i.0 i.1))

    host-Issued :
        (hosts : Dict String) (log : List Request) (id : String)
        → HoldsIssued server is_host log hosts
        → truthy (get hosts id) ≡ true
        → Issued server is_host (or_else (get hosts id) "") log
    host-Issued hosts log id h e = elim (Option-cases (get hosts id)) [
      | inl b ↦ absurd (false≢true (rw b at e))
      | inr (i, b) ↦ rw b (h id i b)
    ]

    Ends-import_services :
        (creds vpns hosts : Dict String) (ss : List Service) (n : ℕ) (log : List Request)
        → Known server project creds vpns hosts log
        → Ends
            (λ _ l. Known server project creds vpns hosts l)
            (import_services server project hosts ss n log)
    unfolding import_services
    Ends-import_services creds vpns hosts [] n log k = k
    Ends-import_services creds vpns hosts (s ∷ ss) n log k =
        elim (Bool-cases (truthy (get hosts s.host_id))) [
          | inl e ↦ rw e (
              Ends-and_then _ _ (send server _ log) _
                (Ends-send log _ (λ _. true) refl k
                  (host-Issued hosts log s.host_id k.from_hosts e, k.from_project))
                (λ _ l i. Ends-import_services creds vpns hosts ss (n + 1) l i.0))
          | inr e ↦ rw e (Ends-import_services creds vpns hosts ss n log k)
        ]

  new_project :
      (r : Request) (id : String)
      → server [] r ≡ returned id
      → is_project r ≡ true
      → RefersBack server [] r
      → Known server id [] [] [] (r ∷ [])
  new_project r id e kind refers = record {
    from_project = now [] r kind e;
    from_creds = λ k i h. absurd (get_nothing k h);
    from_vpns = λ k i h. absurd (get_nothing k h);
    from_hosts = λ k i h. absurd (get_nothing k h);
    linked = sent [] r start refers;
  }

  Ends-first :
      (r : Request)
      → is_project r ≡ true
      → RefersBack server [] r
      → Ends (λ id l. Known server id [] [] [] l) (send server r [])
  unfolding send
  Ends-first r kind refers =
      Ends-answered _ [] r (server [] r) start refers (λ id e. new_project r id e kind refers)

  log-IsLinked :
      {A : Type 0} (o : Outcome A) → Ends (λ _ l. IsLinked server l) o → IsLinked server (log_of o)
  log-IsLinked (done a log) h = h
  log-IsLinked (broke e log) h = h

  -- Every request of an import refers only to ids that the server has issued earlier in the same run,
  -- and to each in its role: hosts to VPNs and credentials, services to hosts, all to the project.
  -- This holds of the requests up to an error, too, and whatever the ids in the file are.
  pub run_import-IsLinked :
      (existing : List Project) (p : ProjectExport)
      → IsLinked server (log_of (run_import server existing p))
  unfolding run_import
  run_import-IsLinked existing p = log-IsLinked _ (
      Ends-and_then _ _ (send server _ []) _
        (Ends-first (create_project (dedupe_name p.project.name existing) p.project.description)
          refl tt)
        (λ project l k.
          Ends-and_then _ _ (import_credentials server project p.credentials ([], 0) l) _
            (Ends-import_credentials project p.credentials ([], 0) l k)
            (λ creds l k.
              Ends-and_then _ _ (import_vpns server project creds.0 p.vpns [] l) _
                (Ends-import_vpns project creds.0 p.vpns [] l k)
                (λ vpns l k.
                  Ends-and_then _ _ (import_hosts server project creds.0 vpns p.hosts [] l) _
                    (Ends-import_hosts project creds.0 vpns p.hosts [] l k)
                    (λ hosts l k.
                      Ends-and_then _ _ (import_services server project hosts p.services 0 l) _
                        (Ends-import_services project creds.0 vpns hosts p.services 0 l k)
                        (λ _ l k. k.linked))))))
