-- ===== src/Import/Contents.antt =====
-- What the loops of an import send, apart from the ids that the requests refer to.
use Prim.Native.String as Chars
use mathlib.Core.List.{append-nil}
use davy_jones.Prelude.{
  ℕ, ◌+◌, String, Bool, true, false, ◌||◌, ◌≡◌, ◌≢◌, refl, sym, ap, ◌∙◌, arith, none, some, List,
  [], ◌∷◌, ◌++◌, ◌==◌, map, filter, any, length, Bool-cases, inl, inr,
}
use davy_jones.Prelude.Dict.{Dict, get, set, get-set}
use davy_jones.Prelude.Text.{truthy}
use davy_jones.Types.{Vpn, Host, Service, Credential}
use davy_jones.Auth.{Answer, returned, thrown}
use davy_jones.Import.Run.{
  Request, create_project, create_credential, create_vpn, create_host, create_service, Server,
  answered, send, is_skipped, import_credentials, import_vpns, import_hosts, import_services,
}
use davy_jones.Import.Tally.{OnDone, OnDone-and_then, OnDone-imp}

-- a request without the ids that it refers to
abbrev pub content : Request → Request
content (create_project name description) = create_project name description
content (create_credential name user password key phrase project) =
    create_credential name user password key phrase ""
content (create_vpn name image container command gateway port certificate credential project) =
    create_vpn name image container command gateway port certificate none ""
content (create_host name ip credential vpn port project) = create_host name ip "" none port ""
content (create_service name kind host project) = create_service name kind "" ""

-- what the file says of each resource
abbrev pub credential_content : Credential → Request
credential_content c = create_credential c.name c.username c.password c.private_key c.passphrase ""

abbrev pub vpn_content : Vpn → Request
vpn_content v =
    create_vpn v.name v.image v.container_name v.command v.remote_gateway v.port
      v.client_certificate none ""

abbrev pub host_content : Host → Request
host_content h = create_host h.name h.ip "" none h.port ""

abbrev pub service_content : Service → Request
service_content s = create_service s.name s.kind "" ""

-- a credential that has a password or a private key
abbrev pub is_usable : Credential → Bool
is_usable c = truthy c.password || truthy c.private_key

-- a service whose host is one of these
abbrev pub runs_on : List Host → String → Bool
runs_on hosts id = any (λ (h : Host). h.id == id) hosts

grow :
    (log : List Request) (r : Request) (l rest : List Request)
    → l ≡ log ++ r ∷ []
    → map content l ++ rest ≡ map content log ++ content r ∷ rest
grow [] r l rest e = rw e refl
grow (q ∷ log) r l rest e =
    rw e (ap (λ (k : List Request). content q ∷ k) (grow log r (log ++ r ∷ []) rest refl))

module _ (server : Server) where
  OnDone-answered :
      (r : Request) (log : List Request) (a : Answer String)
      → server log r ≡ a
      → OnDone
          (λ id l. (l ≡ log ++ r ∷ []) × (server log r ≡ returned id))
          (answered a (log ++ r ∷ []))
  unfolding answered
  OnDone-answered r log (returned id) e = (refl, e)
  OnDone-answered r log (thrown e) q = tt

  pub OnDone-send :
      (r : Request) (log : List Request)
      → OnDone (λ id l. (l ≡ log ++ r ∷ []) × (server log r ≡ returned id)) (send server r log)
  unfolding send
  OnDone-send r log = OnDone-answered r log (server log r) refl

  module _ (project : String) where
    -- the requests behind those of the log
    abbrev pub Adds : List Request → List Request → List Request → Type 0
    Adds log more l = map content l ≡ map content log ++ more

    Adds-nil : (log : List Request) → Adds log [] log
    Adds-nil log = sym (append-nil (map content log))

    pub OnDone-import_credentials :
        (cs : List Credential) (s : Dict String × ℕ) (log : List Request)
        → OnDone
            (λ t l.
              Adds log (map credential_content (filter is_usable cs)) l
              × (t.1 + length (filter is_usable cs) ≡ s.1 + length cs))
            (import_credentials server project cs s log)
    unfolding import_credentials
    OnDone-import_credentials [] s log = (Adds-nil log, refl)
    OnDone-import_credentials (c ∷ cs) s log = elim (Bool-cases (is_skipped server c)) [
      | inl e ↦
          let unusable : is_usable c ≡ false = unfold is_skipped in ground arith in
          rw (e, unusable)
            (OnDone-imp _ _ (import_credentials server project cs (s.0, s.1 + 1) log)
              (λ t k g. (g.0, omega (arith, g.1)))
              (OnDone-import_credentials cs (s.0, s.1 + 1) log))
      | inr e ↦
          let usable : is_usable c ≡ true = unfold is_skipped in ground arith in
          rw (e, usable)
            (OnDone-and_then _ _ (send server _ log) _ (OnDone-send _ log) (λ id l h.
              OnDone-imp _ _ (import_credentials server project cs (set s.0 c.id id, s.1) l)
                (λ t k g. (g.0 ∙ grow log _ l _ h.0, omega (arith, g.1)))
                (OnDone-import_credentials cs (set s.0 c.id id, s.1) l)))
    ]

    pub OnDone-import_vpns :
        (creds : Dict String) (vs : List Vpn) (m : Dict String) (log : List Request)
        → OnDone
            (λ _ l. Adds log (map vpn_content vs) l)
            (import_vpns server project creds vs m log)
    unfolding import_vpns
    OnDone-import_vpns creds [] m log = Adds-nil log
    OnDone-import_vpns creds (v ∷ vs) m log =
        OnDone-and_then _ _ (send server _ log) _ (OnDone-send _ log) (λ id l h.
          OnDone-imp _ _ (import_vpns server project creds vs (set m v.id id) l)
            (λ _ k g. g ∙ grow log _ l _ h.0) (OnDone-import_vpns creds vs (set m v.id id) l))

    module _ (filled : (log : List Request) (r : Request) → server log r ≢ returned "") where
      truthy_id :
          (log : List Request) (r : Request) (id : String)
          → server log r ≡ returned id
          → truthy (some id) ≡ true
      truthy_id log r Chars.[] e = absurd (filled log r e)
      truthy_id log r (Chars.◌∷◌ c id) e = refl

      -- a host is known by its id when one of the list has it, or it was known before
      pub OnDone-import_hosts :
          (creds vpns : Dict String) (hs : List Host) (m : Dict String) (log : List Request)
          → OnDone
              (λ t l.
                Adds log (map host_content hs) l
                × ((id : String) → truthy (get t id) ≡ (runs_on hs id || truthy (get m id))))
              (import_hosts server project creds vpns hs m log)
      unfolding import_hosts
      OnDone-import_hosts creds vpns [] m log = (Adds-nil log, λ id. refl)
      OnDone-import_hosts creds vpns (h ∷ hs) m log =
          OnDone-and_then _ _ (send server _ log) _ (OnDone-send _ log) (λ new l e.
            OnDone-imp _ _ (import_hosts server project creds vpns hs (set m h.id new) l)
              (λ t k g. (
                g.0 ∙ grow log _ l _ e.0,
                λ id. g.1 id ∙ known h hs m new id (truthy_id log _ new e.1),
              ))
              (OnDone-import_hosts creds vpns hs (set m h.id new) l))
        where
          known :
              (h : Host) (hs : List Host) (m : Dict String) (new id : String)
              → truthy (some new) ≡ true
              → (runs_on hs id || truthy (get (set m h.id new) id))
                ≡ (runs_on (h ∷ hs) id || truthy (get m id))
          known h hs m new id full = elim (Bool-cases (h.id == id)) [
            | inl e ↦ rw (get-set m h.id id new, e) (ground arith)
            | inr e ↦ rw (get-set m h.id id new, e) refl
          ]

    pub OnDone-import_services :
        (hosts : Dict String) (on_file : String → Bool)
        → ((id : String) → truthy (get hosts id) ≡ on_file id)
        → (ss : List Service) (n : ℕ) (log : List Request)
        → OnDone
            (λ t l.
              Adds log (map service_content (filter (λ (s : Service). on_file s.host_id) ss)) l
              × (t ≡ n + length (filter (λ (s : Service). on_file s.host_id) ss)))
            (import_services server project hosts ss n log)
    unfolding import_services
    OnDone-import_services hosts on_file known [] n log = (Adds-nil log, omega arith)
    OnDone-import_services hosts on_file known (s ∷ ss) n log =
        elim (Bool-cases (truthy (get hosts s.host_id))) [
          | inl e ↦
              let here : on_file s.host_id ≡ true = sym (known s.host_id) ∙ e in
              rw (e, here)
                (OnDone-and_then _ _ (send server _ log) _ (OnDone-send _ log) (λ id l h.
                  OnDone-imp _ _ (import_services server project hosts ss (n + 1) l)
                    (λ t k g. (g.0 ∙ grow log _ l _ h.0, omega (arith, g.1)))
                    (OnDone-import_services hosts on_file known ss (n + 1) l)))
          | inr e ↦
              let gone : on_file s.host_id ≡ false = sym (known s.host_id) ∙ e in
              rw (e, gone) (OnDone-import_services hosts on_file known ss n log)
        ]
